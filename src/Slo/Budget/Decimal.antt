-- ===== src/Slo/Budget/Decimal.antt =====
-- The text that Decimal makes of a fraction, read back: no rounding where the fraction has a finite
-- decimal expansion.
use text.Mathlib.TextLemmas.{nil-append}
use native.Mathlib.Nat.{
  pow-suc, div-add-mod', mod-lt, add-mul-div_right, div-eq_of_lt, mul-mod_left,
}
use mathlib.Core.List.{append-nil}
use mathlib.Core.Path.{subst}
use paved.Base.{
  ℕ, zero, suc, ◌+◌, ◌-◌, ◌*◌, ◌/◌, ◌%◌, ◌^◌, ◌≤◌, ◌<◌, ◌≡◌, refl, ap, sym, ◌∙◌, String, false,
  List, [], ◌∷◌, ◌++◌, some, Rat, rat, ok, SameValue, length, codes, concat, itoa, arith,
  Bool-cases, ◌⊎◌, inl, inr, nat_eq, nat_eq_iff,
}
use paved.Runtime.{Runtime}
use paved.Slo.Budget.{set_string, float_prec_from, padded, float_string, decimal, error_budget}
use paved.Slo.Budget.Numeral.{
  numeral, IsNumeral, value, set_string_of_IsNumeral, error_budget-eq-ok_iff,
}
use paved.Slo.Budget.Digits.{codes-append, value-append, itoa-IsDecimal, padded-IsPadded}

ten-pos : (k : ℕ) → 0 < 10 ^ k
ten-pos zero = omega arith
ten-pos (suc k) = rw pow-suc (omega (arith, ten-pos k))

-- A numeral with `places` digits behind the dot that stands for scaled / 10 ^ places.
pub record Reads (s : String) (places scaled : ℕ) : Type 0 where
  pub whole : List ℕ
  pub fraction : List ℕ
  pub shape : IsNumeral (codes s) whole fraction
  pub length_fraction : length fraction ≡ places
  pub stands : value 0 (whole ++ fraction) ≡ scaled

numeral-point : (ds fs : List ℕ) → 0 < length fs → numeral ds fs ≡ ds ++ b'.' ∷ fs
numeral-point ds [] h = absurd (omega arith)
numeral-point ds (f ∷ fs) h = refl

Reads-whole : (n : ℕ) → Reads (itoa n) 0 n
Reads-whole n =
    let h = itoa-IsDecimal n in
    record {
      whole = codes (itoa n);
      fraction = [];
      shape = record { shape = refl; whole = h.digits; fraction = tt; some_digit = h.some_digit };
      length_fraction = refl;
      stands = ap (value 0) (append-nil (codes (itoa n))) ∙ h.stands;
    }

Reads-point :
    (places scaled : ℕ)
    → Reads
        (concat (
          itoa (scaled / 10 ^ suc places)
          ∷ "."
          ∷ padded (suc places) (scaled % 10 ^ suc places)
          ∷ []))
        (suc places)
        scaled
Reads-point places scaled =
    let k = suc places in
    let w = itoa-IsDecimal (scaled / 10 ^ k) in
    let f = padded-IsPadded k (scaled % 10 ^ k) (mod-lt _ (ten-pos k)) in
    record {
      whole = codes (itoa (scaled / 10 ^ k));
      fraction = codes (padded k (scaled % 10 ^ k));
      shape = record {
        shape =
            codes-append (itoa (scaled / 10 ^ k)) (concat ("." ∷ padded k (scaled % 10 ^ k) ∷ []))
            ∙ ap (λ x. codes (itoa (scaled / 10 ^ k)) ++ x)
                (codes-append "." (padded k (scaled % 10 ^ k)))
            ∙ sym (numeral-point _ (codes (padded k (scaled % 10 ^ k))) (omega (arith, f.places)));
        whole = w.digits;
        fraction = f.digits;
        some_digit = w.some_digit;
      };
      length_fraction = f.places;
      stands =
          value-append 0 (codes (itoa (scaled / 10 ^ k))) _
          ∙ ap (λ v. value v (codes (padded k (scaled % 10 ^ k)))) w.stands
          ∙ f.stands (scaled / 10 ^ k)
          ∙ div-add-mod' scaled (10 ^ k);
    }

-- The fraction n / d, with as many places as make it a whole number, is written without rounding.
scaled_exact : (n d k x : ℕ) → 0 < d → n * 10 ^ k ≡ x * d → (2 * n * 10 ^ k + d) / (2 * d) ≡ x
scaled_exact n d k x positive exact =
    let twice : 2 * n * 10 ^ k + d ≡ d + x * (2 * d) = omega (arith, exact) in
    rw twice (
      add-mul-div_right d x (omega arith)
      ∙ ap (λ q. q + x) (div-eq_of_lt (omega arith))
      ∙ omega arith)

float_string-Reads : (n d k x : ℕ) → 0 < d → n * 10 ^ k ≡ x * d → Reads (float_string k n d) k x
unfolding float_string
float_string-Reads n d zero x positive exact =
    rw (scaled_exact n d zero x positive exact) (Reads-whole x)
float_string-Reads n d (suc k) x positive exact =
    let more : nat_eq (suc k) 0 ≡ false = ground arith in
    rw (scaled_exact n d (suc k) x positive exact, more) (Reads-point k x)

le-cases : (n k : ℕ) → n ≤ k → (suc n ≤ k) ⊎ (k ≡ n)
le-cases n k low = omega arith

not_yet :
    (n num den k : ℕ)
    → n ≤ k
    → num * 10 ^ k % den ≡ 0
    → nat_eq (num * 10 ^ n % den) 0 ≡ false
    → suc n ≤ k
not_yet n num den k low exact more = elim (le-cases n k low) [
  | inl later ↦ later
  | inr same ↦
      let here : num * 10 ^ n % den ≡ 0 = rw same at exact in
      absurd (let no_way = sym ((nat_eq_iff _ 0).1 here) ∙ more in cc)
]

-- The search finds a number of places that is enough, if there is one below its bound.
float_prec_from-found :
    (fuel n num den k : ℕ)
    → n ≤ k
    → k < n + fuel
    → num * 10 ^ k % den ≡ 0
    → (m : ℕ) × (float_prec_from fuel n num den ≡ some m) × (num * 10 ^ m % den ≡ 0)
unfolding float_prec_from
float_prec_from-found zero n num den k low high exact = absurd (omega arith)
float_prec_from-found (suc fuel) n num den k low high exact =
    elim (Bool-cases (nat_eq (num * 10 ^ n % den) 0)) [
      | inl here ↦ (n, rw (here, float_prec_from) refl, (nat_eq_iff _ _).0 here)
      | inr more ↦
          let (m, found, fits) =
            float_prec_from-found fuel (suc n) num den k (not_yet n num den k low exact more)
              (omega arith) exact in
          (m, rw (more, float_prec_from) found, fits)
    ]

-- What reading the text of a fraction gives: a fraction of the same value.
pub ReadsBack : String → Rat → Type 0
ReadsBack s r = (q : Rat) × (set_string s ≡ some q) × SameValue q r

Reads-ReadsBack :
    (s : String) (n d k x : ℕ) → Reads s k x → n * 10 ^ k ≡ x * d → ReadsBack s (rat n d)
unfolding ReadsBack
Reads-ReadsBack s n d k x h exact = (
  rat x (10 ^ k),
  set_string_of_IsNumeral s h.whole h.fraction h.shape ∙ ap some (rw (h.stands, h.length_fraction)),
  sym exact,
)

-- The text of a fraction with a finite decimal expansion, whose length the denominator bounds, reads
-- back as the fraction.
pub decimal-ReadsBack :
    (n d k : ℕ) → 0 < d → k < d → n * 10 ^ k % d ≡ 0 → ReadsBack (decimal (rat n d)) (rat n d)
unfolding decimal
decimal-ReadsBack n d k positive low exact =
    let (m, found, fits) = float_prec_from-found d 0 n d k (omega arith) (omega arith) exact in
    let whole : n * 10 ^ m ≡ n * 10 ^ m / d * d =
      omega (arith, div-add-mod' (n * 10 ^ m) d, fits) in
    rw (found, nil-append (float_string m n d))
      (Reads-ReadsBack _ n d m (n * 10 ^ m / d) (float_string-Reads n d m _ positive whole) whole)

-- A power of ten as a denominator, of which the exponent is a number of places that is enough.
power-ReadsBack : (n k : ℕ) → ReadsBack (decimal (rat n (10 ^ k))) (rat n (10 ^ k))
power-ReadsBack n k = decimal-ReadsBack n (10 ^ k) k (ten-pos k) (below k) (mul-mod_left n (10 ^ k))
  where
    below : (j : ℕ) → j < 10 ^ j
    below zero = omega arith
    below (suc j) = rw pow-suc (omega (arith, below j))

pub pow-add : (i j : ℕ) → 10 ^ i * 10 ^ j ≡ 10 ^ (i + j)
pow-add zero j =
    let one : 10 ^ 0 * 10 ^ j ≡ 10 ^ j = omega arith in one ∙ ap (λ m. 10 ^ m) (omega arith)
pow-add (suc i) j =
    let front : 10 ^ suc i * 10 ^ j ≡ 10 ^ i * 10 ^ j * 10 = rw pow-suc (omega arith) in
    front
    ∙ ap (λ m. m * 10) (pow-add i j)
    ∙ sym (pow-suc 10 (i + j))
    ∙ ap (λ m. 10 ^ m) (omega arith)

pub hundred : (j : ℕ) → 100 * 10 ^ j ≡ 10 ^ (2 + j)
hundred j = pow-add 2 j

pub tenths-ReadsBack : (n d k : ℕ) → 10 ^ k ≡ d → ReadsBack (decimal (rat n d)) (rat n d)
tenths-ReadsBack n d k same =
    subst (λ m. ReadsBack (decimal (rat n m)) (rat n m)) same (power-ReadsBack n k)

module _ (go : Runtime) where
  -- The text of an objective's error budget reads back as exactly the budget.
  pub error_budget-ReadsBack :
      (s : String) (b : Rat) → error_budget go s ≡ ok b → ReadsBack (decimal b) b
  error_budget-ReadsBack s b e =
      let (ds, fs, _, _, _, same) = (error_budget-eq-ok_iff go s b).0 e in
      let n = 100 * 10 ^ length fs - value 0 (ds ++ fs) in
      rw same
        (tenths-ReadsBack n (100 * 10 ^ length fs) (2 + length fs) (sym (hundred (length fs))))
