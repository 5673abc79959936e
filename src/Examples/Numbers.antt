-- ===== src/Examples/Numbers.antt =====
-- A runtime whose floats are NaN and the numbers that are not negative, in ten-thousandths: it stands for
-- Go's where a run needs one, and has the laws that the theorems ask for.
use native.Mathlib.Nat.{le-div_iff_mul-le}
use paved.Base.{
  ℕ, ◌-◌, ◌*◌, ◌/◌, ◌≤◌, ◌<◌, String, Bool, true, false, Option, none, some, Rat, ℤ, pos, negsuc,
  abs, ok, err, plain, ◌≡◌, refl, ◌⊎◌, ◌↔◌, arith, leb, itoa, concat, [], ◌∷◌, if◌then◌else◌, ◌==◌,
}
use paved.Runtime.{Runtime}
use paved.Runtime.Laws.{FloatLaws}
use paved.Slo.Budget.{set_string}

abbrev unit : ℕ
unit = 10000

abbrev pub Fixed : Type 0
Fixed = Option ℕ

abbrev fixed : ℤ → ℕ → Fixed
fixed (pos n) d = some (n * unit / d)
fixed (negsuc n) d = some 0

abbrev unknown : Fixed → Bool
unknown none = true
unknown (some n) = false

abbrev at_most : Fixed → Fixed → Bool
at_most none y = false
at_most (some m) none = false
at_most (some m) (some n) = leb m n

abbrev both : (ℕ → ℕ → ℕ) → Fixed → Fixed → Fixed
both f none y = none
both f (some m) none = none
both f (some m) (some n) = some (f m n)

abbrev shown : Fixed → String
shown none = "NaN"
shown (some n) = concat (itoa n ∷ "e-4" ∷ [])

abbrev as_fixed : Option Rat → Fixed
as_fixed none = none
as_fixed (some q) = fixed q.num q.den

abbrev as_float : Fixed → Option Fixed
as_float none = none
as_float (some n) = some (some n)

abbrev pub go : Runtime
go = record {
  Float = Fixed;
  of_rat = λ q. fixed q.num q.den;
  is_nan = unknown;
  is_inf = λ x. false;
  le_float = at_most;
  sub_float = both (λ m n. m - n);
  mul_float = both (λ m n. m * n / unit);
  div_float = both (λ m n. m * unit / n);
  round = λ x. x;
  format_float = λ x digits. shown x;
  format_shortest = shown;
  format_general = shown;
  parse_float = λ s. as_float (as_fixed (set_string s));
  quote = λ s. concat ("\"" ∷ s ∷ "\"" ∷ []);
  parse_duration = λ s. if s == "" then err (plain "invalid duration") else ok (pos 500000000);
  hours = λ z. some (abs z / 3600000000000 * unit);
  seconds = λ z. some (abs z / 100000);
  marshal = λ j. "{}";
  marshal_indent = λ j. "{}";
  sha256_hex = λ s. "e3b0c44298fc1c149afbf4c8996fb92427ae41e4649b934ca495991b7852b855";
}

quotient : (m n : ℕ) → 0 < n → leb unit (m * unit / n) ≡ leb n m
quotient m n h =
    let bound : (unit ≤ m * unit / n) ↔ (unit * n ≤ m * unit) = le-div_iff_mul-le h in
    ground (arith, bound.0, bound.1)

pub go-FloatLaws : FloatLaws go
go-FloatLaws = record {
  le-nan_left = λ x y e. left x y e;
  le-nan_right = λ x y e. right x y e;
  le_total = λ x y e f. total x y e f;
  le_trans = λ x y z e f. trans x y z e f;
  rat-nan = λ q h. number q.num q.den;
  zero-le-one = refl;
  one-le-zero = refl;
  gap-le-zero = refl;
  zero-inf = refl;
  one-inf = refl;
  sub-nan = λ x y e i f. both_numbers _ x y e f;
  sub-le-zero = λ x y e i f. gap x y e f;
  div-nan = λ x y e i p f. both_numbers _ x y e f;
  one-le-div = λ x y e i p f. share x y e p f;
}
  where
    left : (x y : Fixed) → unknown x ≡ true → at_most x y ≡ false
    left none y e = refl
    left (some m) y e = cc

    right : (x y : Fixed) → unknown y ≡ true → at_most x y ≡ false
    right none y e = refl
    right (some m) none e = refl
    right (some m) (some n) e = cc

    total :
        (x y : Fixed)
        → unknown x ≡ false
        → unknown y ≡ false
        → (at_most x y ≡ true) ⊎ (at_most y x ≡ true)
    total none y e f = cc
    total (some m) none e f = cc
    total (some m) (some n) e f = ground arith

    trans : (x y z : Fixed) → at_most x y ≡ true → at_most y z ≡ true → at_most x z ≡ true
    trans none y z e f = cc
    trans (some m) none z e f = cc
    trans (some m) (some n) none e f = cc
    trans (some m) (some n) (some k) e f = ground arith

    number : (n : ℤ) (d : ℕ) → unknown (fixed n d) ≡ false
    number (pos n) d = refl
    number (negsuc n) d = refl

    both_numbers :
        (f : ℕ → ℕ → ℕ) (x y : Fixed)
        → unknown x ≡ false
        → unknown y ≡ false
        → unknown (both f x y) ≡ false
    both_numbers f none y e g = cc
    both_numbers f (some m) none e g = cc
    both_numbers f (some m) (some n) e g = refl

    gap :
        (x y : Fixed)
        → unknown x ≡ false
        → unknown y ≡ false
        → at_most (both (λ m n. m - n) x y) (some 0) ≡ at_most x y
    gap none y e f = cc
    gap (some m) none e f = cc
    gap (some m) (some n) e f = ground arith

    share :
        (x y : Fixed)
        → unknown x ≡ false
        → at_most y (some 0) ≡ false
        → unknown y ≡ false
        → at_most (some unit) (both (λ m n. m * unit / n) x y) ≡ at_most y x
    share none y e p f = cc
    share (some m) none e p f = cc
    share (some m) (some n) e p f = quotient m n (ground arith)
