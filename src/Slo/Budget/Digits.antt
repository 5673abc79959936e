-- ===== src/Slo/Budget/Digits.antt =====
-- The numerals that strconv.Itoa and big.Rat.FloatString write, digit by digit.
use Prim.Native.Char.{code}
use Prim.Native.String
use text.Mathlib.TextLemmas.{nil-append, cons-append}
use native.Mathlib.Nat.{pow-suc}
use mathlib.Core.Path.{subst}
use paved.Base.{
  ℕ, zero, suc, ◌+◌, ◌-◌, ◌*◌, ◌/◌, ◌%◌, ◌^◌, ◌<◌, ◌≡◌, refl, ap, ◌∙◌, String, Bool, true, false,
  List, [], ◌∷◌, ◌++◌, All-append, length, length-append, codes, concat, itoa, itoa_fuel, get_or,
  digit_texts, arith, Bool-cases, inl, inr, lt→ltb, ltb, nat_eq, nat_eq_iff, ◌&&◌,
}
use paved.Slo.Budget.{padded}
use paved.Slo.Budget.Numeral.{IsDigits, value}

pub codes-append : (s t : String) → codes (String.◌++◌ s t) ≡ codes s ++ codes t
codes-append String.[] t = ap codes (nil-append t)
codes-append (String.◌∷◌ c s) t =
    ap codes (cons-append c s t) ∙ ap (λ cs. code c ∷ cs) (codes-append s t)

abbrev is_single : List ℕ → ℕ → Bool
is_single (c ∷ []) n = nat_eq c n
is_single cs n = false

-- Each text is the digit of its place, counted from `d`.
spells : ℕ → List String → Bool
spells d [] = true
spells d (t ∷ ts) = let rest = spells (suc d) ts in is_single (codes t) (b'0' + d) && rest

is_single-eq : (cs : List ℕ) (n : ℕ) → is_single cs n ≡ true → cs ≡ n ∷ []
is_single-eq [] n h = cc
is_single-eq (c ∷ []) n h = ap (λ m. m ∷ []) ((nat_eq_iff c n).0 h)
is_single-eq (c ∷ d ∷ cs) n h = cc

get_or-spells :
    (d : ℕ) (ts : List String) (i : ℕ)
    → spells d ts ≡ true
    → i < length ts
    → codes (get_or ts i "") ≡ (b'0' + (d + i)) ∷ []
unfolding spells
get_or-spells d [] i h low = absurd (omega arith)
get_or-spells d (t ∷ ts) zero h low =
    is_single-eq (codes t) (b'0' + d) (ground arith) ∙ ap (λ n. n ∷ []) (omega arith)
get_or-spells d (t ∷ ts) (suc i) h low =
    get_or-spells (suc d) ts i (ground arith) (omega arith) ∙ ap (λ n. n ∷ []) (omega arith)

digit_codes : (d : ℕ) → d < 10 → codes (get_or digit_texts d "") ≡ (b'0' + d) ∷ []
unfolding spells
digit_codes d h = get_or-spells 0 digit_texts d refl h ∙ ap (λ n. n ∷ []) (omega arith)

pub value-append : (acc : ℕ) (ds fs : List ℕ) → value acc (ds ++ fs) ≡ value (value acc ds) fs
value-append acc [] fs = refl
value-append acc (d ∷ ds) fs = value-append (acc * 10 + (d - b'0')) ds fs

-- A list of digits for a number.
pub record IsDecimal (cs : List ℕ) (n : ℕ) : Type 0 where
  pub digits : IsDigits cs
  pub stands : value 0 cs ≡ n
  pub some_digit : 0 < length cs

digit-IsDecimal : (d : ℕ) → d < 10 → IsDecimal ((b'0' + d) ∷ []) d
digit-IsDecimal d h = record {
  digits = (ground arith, tt);
  stands = omega arith;
  some_digit = omega arith;
}

IsDecimal-snoc :
    (cs : List ℕ) (n d : ℕ)
    → IsDecimal cs n
    → d < 10
    → IsDecimal (cs ++ (b'0' + d) ∷ []) (n * 10 + d)
IsDecimal-snoc cs n d h low = record {
  digits = All-append _ cs _ h.digits (digit-IsDecimal d low).digits;
  stands = value-append 0 cs ((b'0' + d) ∷ []) ∙ omega (arith, h.stands);
  some_digit = omega (arith, length-append cs ((b'0' + d) ∷ []));
}

IsDecimal-of : (cs : List ℕ) (m n : ℕ) → IsDecimal cs m → m ≡ n → IsDecimal cs n
IsDecimal-of cs m n h same = subst (IsDecimal cs) same h

last_digit : (n : ℕ) → IsDecimal (codes (get_or digit_texts (n % 10) "")) (n % 10)
last_digit n = rw (digit_codes (n % 10) (omega arith)) (digit-IsDecimal (n % 10) (omega arith))

with_last :
    (s : String) (n : ℕ)
    → IsDecimal (codes s) (n / 10)
    → IsDecimal (codes (concat (s ∷ get_or digit_texts (n % 10) "" ∷ []))) n
with_last s n h =
    rw (codes-append s (get_or digit_texts (n % 10) ""), digit_codes (n % 10) (omega arith))
      (IsDecimal-of _ _ n (IsDecimal-snoc (codes s) (n / 10) (n % 10) h (omega arith))
        (omega arith))

-- The numeral of a number stands for it, if the fuel is more than the number.
itoa_fuel-IsDecimal : (fuel n : ℕ) → n < fuel → IsDecimal (codes (itoa_fuel fuel n)) n
unfolding itoa_fuel
itoa_fuel-IsDecimal zero n h = absurd (omega arith)
itoa_fuel-IsDecimal (suc fuel) n h = elim (Bool-cases (ltb n 10)) [
  | inl low ↦ rw (low, itoa_fuel) (IsDecimal-of _ _ n (last_digit n) (ground arith))
  | inr high ↦
      rw (high, itoa_fuel)
        (with_last (itoa_fuel fuel (n / 10)) n (itoa_fuel-IsDecimal fuel (n / 10) (ground arith)))
]

-- Any number's numeral stands for it.
pub itoa-IsDecimal : (n : ℕ) → IsDecimal (codes (itoa n)) n
unfolding itoa
itoa-IsDecimal n = itoa_fuel-IsDecimal (suc n) n (omega arith)

-- A list of `n` digits, zeros in front included, that adds a number to what is read before it.
pub record IsPadded (cs : List ℕ) (n m : ℕ) : Type 0 where
  pub digits : IsDigits cs
  pub places : length cs ≡ n
  pub stands : (acc : ℕ) → value acc cs ≡ acc * 10 ^ n + m

single : (d : ℕ) → d < 10 → codes (itoa d) ≡ (b'0' + d) ∷ []
unfolding itoa itoa_fuel
single d low =
    let same : d % 10 ≡ d = omega arith in rw (lt→ltb d 10 low, itoa_fuel, same) (digit_codes d low)

next_power : (acc n q d : ℕ) → (acc * 10 ^ n + q) * 10 + d ≡ acc * 10 ^ suc n + (q * 10 + d)
next_power acc n q d = rw pow-suc (omega arith)

IsPadded-snoc :
    (cs : List ℕ) (n q d : ℕ)
    → IsPadded cs n q
    → d < 10
    → IsPadded (cs ++ (b'0' + d) ∷ []) (suc n) (q * 10 + d)
IsPadded-snoc cs n q d h low = record {
  digits = All-append _ cs _ h.digits (digit-IsDecimal d low).digits;
  places = length-append cs ((b'0' + d) ∷ []) ∙ omega (arith, h.places);
  stands = λ acc.
      value-append acc cs ((b'0' + d) ∷ [])
      ∙ ap (λ v. value v ((b'0' + d) ∷ [])) (h.stands acc)
      ∙ omega arith
      ∙ next_power acc n q d;
}

tenth_power : (m n : ℕ) → m < 10 ^ suc n → m / 10 < 10 ^ n
tenth_power m n h = let e : m < 10 ^ n * 10 = rw pow-suc at h in omega arith

pub padded-IsPadded : (n m : ℕ) → m < 10 ^ n → IsPadded (codes (padded n m)) n m
unfolding padded
padded-IsPadded zero m h = record { digits = tt; places = refl; stands = λ acc. omega (arith, h) }
padded-IsPadded (suc n) m h =
    let front = padded-IsPadded n (m / 10) (tenth_power m n h) in
    rw (codes-append (padded n (m / 10)) (itoa (m % 10)), single (m % 10) (omega arith))
      (subst (IsPadded _ (suc n)) (ten m) (IsPadded-snoc _ n (m / 10) (m % 10) front (omega arith)))
  where
    ten : (k : ℕ) → k / 10 * 10 + k % 10 ≡ k
    ten k = omega arith
