-- ===== src/Slo/Budget/Numeral.antt =====
-- Objectives as numerals: what isDecimal accepts, the fraction that it stands for, and the error
-- budget of an objective.
use paved.Base.{
  ℕ, suc, ◌+◌, ◌-◌, ◌*◌, ◌^◌, ◌≤◌, ◌<◌, ◌≡◌, refl, ap, ◌↔◌, String, true, false, List, [], ◌∷◌,
  ◌++◌, some, Rat, rat, ok, All, length, codes, arith, Bool-cases, inl, inr, pos, ◌∙◌, sym,
}
use native.Mathlib.Nat.{pow-suc}
use mathlib.Core.Path.{subst}
use paved.Runtime.{Runtime}
use paved.Slo.Budget.{
  is_digit, is_decimal_from, is_decimal, set_string_from, set_string, budget_of_percent,
  error_budget,
}

abbrev pub IsDigits : List ℕ → Type 0
IsDigits = All (λ c. is_digit c ≡ true)

-- `[0-9]+(\.[0-9]+)?`: the digits in front of the dot, and those behind it, if there are any.
abbrev pub numeral : List ℕ → List ℕ → List ℕ
numeral ds [] = ds
numeral ds (f ∷ fs) = ds ++ b'.' ∷ f ∷ fs

pub record IsNumeral (cs ds fs : List ℕ) : Type 0 where
  pub shape : cs ≡ numeral ds fs
  pub whole : IsDigits ds
  pub fraction : IsDigits fs
  pub some_digit : 0 < length ds

-- The number that a list of digits stands for, read on from `acc`.
abbrev pub value : ℕ → List ℕ → ℕ
value acc [] = acc
value acc (d ∷ ds) = value (acc * 10 + (d - b'0')) ds

fraction-IsDigits : (cs : List ℕ) → is_decimal_from true true true cs ≡ true → IsDigits cs
unfolding is_decimal_from
fraction-IsDigits [] h = tt
fraction-IsDigits (c ∷ cs) h = ground (arith, fraction-IsDigits cs)

first_fraction_digit :
    (cs : List ℕ) → is_decimal_from true true false cs ≡ true → IsDigits cs × (0 < length cs)
unfolding is_decimal_from
first_fraction_digit [] h = cc
first_fraction_digit (c ∷ cs) h = ground (arith, fraction-IsDigits cs)

-- What follows a first digit: more digits, and a fraction or none.
record Tail (cs : List ℕ) : Type 0 where
  whole : List ℕ
  fraction : List ℕ
  shape : cs ≡ numeral whole fraction
  whole_digits : IsDigits whole
  fraction-IsDigits : IsDigits fraction

numeral-cons : (d : ℕ) (ds fs : List ℕ) → d ∷ numeral ds fs ≡ numeral (d ∷ ds) fs
numeral-cons d ds [] = refl
numeral-cons d ds (f ∷ fs) = refl

Tail-point : (cs : List ℕ) → IsDigits cs → 0 < length cs → Tail (b'.' ∷ cs)
Tail-point [] h k = absurd (omega arith)
Tail-point (f ∷ fs) h k = record {
  whole = [];
  fraction = f ∷ fs;
  shape = refl;
  whole_digits = tt;
  fraction-IsDigits = h;
}

Tail-of : (cs : List ℕ) → is_decimal_from true false false cs ≡ true → Tail cs
unfolding is_decimal_from
Tail-of [] h = record {
  whole = [];
  fraction = [];
  shape = refl;
  whole_digits = tt;
  fraction-IsDigits = tt;
}
Tail-of (c ∷ cs) h = elim (Bool-cases (is_digit c)) [
  | inl digit ↦
      let t = Tail-of cs (ground arith) in
      record {
        whole = c ∷ t.whole;
        fraction = t.fraction;
        shape = ap (λ r. c ∷ r) t.shape ∙ numeral-cons c t.whole t.fraction;
        whole_digits = (digit, t.whole_digits);
        fraction-IsDigits = t.fraction-IsDigits;
      }
  | inr other ↦
      let e : c ≡ b'.' = ground arith in
      let (digits, nonempty) = first_fraction_digit cs (ground arith) in
      rw e (Tail-point cs digits nonempty)
]

is_decimal_from-IsNumeral :
    (cs : List ℕ)
    → is_decimal_from false false false cs ≡ true
    → (ds : List ℕ) × (fs : List ℕ) × IsNumeral cs ds fs
unfolding is_decimal_from
is_decimal_from-IsNumeral [] h = cc
is_decimal_from-IsNumeral (c ∷ cs) h =
    let t = Tail-of cs (ground arith) in
    (
      c ∷ t.whole,
      t.fraction,
      record {
        shape = ap (λ r. c ∷ r) t.shape ∙ numeral-cons c t.whole t.fraction;
        whole = (ground arith, t.whole_digits);
        fraction = t.fraction-IsDigits;
        some_digit = omega arith;
      },
    )

-- The other way: the automaton over the digits of a numeral.
is_decimal_from-fraction : (fs : List ℕ) → IsDigits fs → is_decimal_from true true true fs ≡ true
unfolding is_decimal_from
is_decimal_from-fraction [] h = refl
is_decimal_from-fraction (f ∷ fs) h = ground (arith, is_decimal_from-fraction fs)

is_decimal_from-whole :
    (ds fs : List ℕ)
    → IsDigits ds
    → IsDigits fs
    → is_decimal_from true false false (numeral ds fs) ≡ true
unfolding is_decimal_from
is_decimal_from-whole [] [] h k = refl
is_decimal_from-whole [] (f ∷ fs) h k = ground (arith, is_decimal_from-fraction fs k.1)
is_decimal_from-whole (d ∷ ds) fs h k =
    rw (← numeral-cons d ds fs) (ground (arith, is_decimal_from-whole ds fs h.1 k))

is_decimal_from_of_IsNumeral :
    (cs ds fs : List ℕ) → IsNumeral cs ds fs → is_decimal_from false false false cs ≡ true
unfolding is_decimal_from
is_decimal_from_of_IsNumeral cs [] fs n = absurd (omega (arith, n.some_digit))
is_decimal_from_of_IsNumeral cs (d ∷ ds) fs n =
    rw (n.shape, ← numeral-cons d ds fs)
      (ground (arith, is_decimal_from-whole ds fs n.whole.1 n.fraction))

-- isDecimal accepts exactly the texts of the pattern `[0-9]+(\.[0-9]+)?`, the one that the resource's
-- schema asks of an objective.
pub is_decimal_iff :
    (s : String)
    → (is_decimal s ≡ true) ↔ ((ds : List ℕ) × (fs : List ℕ) × IsNumeral (codes s) ds fs)
unfolding is_decimal
is_decimal_iff s = (
  λ h. is_decimal_from-IsNumeral (codes s) h,
  λ p. is_decimal_from_of_IsNumeral (codes s) p.0 p.1 p.2,
)

scale : (d k : ℕ) → d * 10 * 10 ^ k ≡ d * 10 ^ suc k
scale d k = rw pow-suc (omega arith)

set_string_from-fraction :
    (n d : ℕ) (fs : List ℕ)
    → IsDigits fs
    → set_string_from n d true true fs ≡ some (rat (value n fs) (d * 10 ^ length fs))
unfolding set_string_from
set_string_from-fraction n d [] h = ap (λ m. some (rat n m)) (omega arith)
set_string_from-fraction n d (f ∷ fs) h =
    rw (h.0, ← scale d (length fs)) (set_string_from-fraction (n * 10 + (f - b'0')) (d * 10) fs h.1)

set_string_from-whole :
    (n : ℕ) (ds fs : List ℕ)
    → IsDigits ds
    → IsDigits fs
    → set_string_from n 1 true false (numeral ds fs)
      ≡ some (rat (value n (ds ++ fs)) (10 ^ length fs))
unfolding set_string_from
set_string_from-whole n [] [] h k = refl
set_string_from-whole n [] (f ∷ fs) h k =
    let e : 1 * 10 ^ length (f ∷ fs) ≡ 10 ^ length (f ∷ fs) = omega arith in
    rw e at (set_string_from-fraction n 1 (f ∷ fs) k)
set_string_from-whole n (d ∷ ds) fs h k =
    rw (← numeral-cons d ds fs, h.0) (set_string_from-whole (n * 10 + (d - b'0')) ds fs h.1 k)

pub set_string_of_IsNumeral :
    (s : String) (ds fs : List ℕ)
    → IsNumeral (codes s) ds fs
    → set_string s ≡ some (rat (value 0 (ds ++ fs)) (10 ^ length fs))
unfolding set_string set_string_from
set_string_of_IsNumeral s [] fs n = absurd (omega (arith, n.some_digit))
set_string_of_IsNumeral s (d ∷ ds) fs n =
    rw (n.shape, ← numeral-cons d ds fs, n.whole.0)
      (set_string_from-whole (0 * 10 + (d - b'0')) ds fs n.whole.1 n.fraction)

-- The budget of a percentage N / 10^k that lies in [90, 100): (100 * 10^k - N) / (100 * 10^k).
abbrev pub budget_of : ℕ → ℕ → Rat
budget_of n k = record { num = pos (100 * 10 ^ k - n); den = 100 * 10 ^ k }

module _ (go : Runtime) where
  budget_of_percent-eq-ok_iff :
      (s : String) (n k : ℕ) (b : Rat)
      → (budget_of_percent go s (rat n (10 ^ k)) ≡ ok b)
        ↔ ((90 * 10 ^ k ≤ n) × (n < 100 * 10 ^ k) × (b ≡ budget_of n k))
  unfolding budget_of_percent
  budget_of_percent-eq-ok_iff s n k b = (λ e. ground arith, λ h. ground arith)

  -- An objective has an error budget exactly when it is a plain decimal numeral that stands for a
  -- percentage of at least 90 and less than 100, and the budget is 1 - objective / 100, exactly.
  pub error_budget-eq-ok_iff :
      (s : String) (b : Rat)
      → (error_budget go s ≡ ok b) ↔ (
          (ds : List ℕ) × (fs : List ℕ) × IsNumeral (codes s) ds fs
          × (90 * 10 ^ length fs ≤ value 0 (ds ++ fs))
          × (value 0 (ds ++ fs) < 100 * 10 ^ length fs)
          × (b ≡ budget_of (value 0 (ds ++ fs)) (length fs)))
  unfolding error_budget
  error_budget-eq-ok_iff s b = (to, from)
    where
      to :
          error_budget go s ≡ ok b
          → (ds : List ℕ) × (fs : List ℕ) × IsNumeral (codes s) ds fs
            × (90 * 10 ^ length fs ≤ value 0 (ds ++ fs))
            × (value 0 (ds ++ fs) < 100 * 10 ^ length fs)
            × (b ≡ budget_of (value 0 (ds ++ fs)) (length fs))
      to e =
          let (ds, fs, n) = (is_decimal_iff s).0 (ground arith) in
          let (low, high, same) =
            (budget_of_percent-eq-ok_iff s (value 0 (ds ++ fs)) (length fs) b).0
              (ground (arith, set_string_of_IsNumeral s ds fs n)) in
          (ds, fs, n, low, high, same)

      from :
          ((ds : List ℕ) × (fs : List ℕ) × IsNumeral (codes s) ds fs
            × (90 * 10 ^ length fs ≤ value 0 (ds ++ fs))
            × (value 0 (ds ++ fs) < 100 * 10 ^ length fs)
            × (b ≡ budget_of (value 0 (ds ++ fs)) (length fs)))
          → error_budget go s ≡ ok b
      from (ds, fs, n, low, high, same) =
          rw ((is_decimal_iff s).1 (ds, fs, n), set_string_of_IsNumeral s ds fs n)
            ((budget_of_percent-eq-ok_iff s _ _ b).1 (low, high, same))

  -- An error budget is positive and at most a tenth.
  pub error_budget_bounds :
      (s : String) (b : Rat)
      → error_budget go s ≡ ok b
      → (m : ℕ) × (b.num ≡ pos m) × (0 < m) × (0 < b.den) × (10 * m ≤ b.den)
  error_budget_bounds s b e =
      let (ds, fs, n, low, high, same) = (error_budget-eq-ok_iff s b).0 e in
      (
        100 * 10 ^ length fs - value 0 (ds ++ fs),
        ap (λ q. q.num) same,
        omega arith,
        subst (λ (q : Rat). 0 < q.den) (sym same) (omega arith),
        subst (λ (q : Rat). 10 * (100 * 10 ^ length fs - value 0 (ds ++ fs)) ≤ q.den) (sym same)
            (omega arith),
      )
