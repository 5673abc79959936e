-- ===== src/Base/Rational.antt =====
-- Signed integers over the native numbers, and fractions that are not reduced.
use Prim.Native.Nat.{ℕ, suc, ◌-◌, ◌*◌, ◌%◌, ◌^◌}
use mathlib.Core.Path.{◌≡◌}
use mathlib.Core.Bool.{Bool, false}
use paved.Base.Tests.{leb, ltb, if◌then◌else◌}

-- `negsuc n` is -(n + 1).
pub data ℤ : Type 0 where
  pos : ℕ → ℤ
  negsuc : ℕ → ℤ

-- a - b, as an integer.
abbrev pub sub_ℕ : ℕ → ℕ → ℤ
sub_ℕ a b = if leb b a then pos (a - b) else negsuc (b - a - 1)

abbrev pub is_positive : ℤ → Bool
is_positive (pos n) = ltb 0 n
is_positive (negsuc n) = false

abbrev pub abs : ℤ → ℕ
abs (pos n) = n
abs (negsuc n) = suc n

-- The wrap-around of an int64: the residue mod 2^64 in two's complement.
abbrev pub int64 : ℕ → ℤ
int64 n = let m = n % 2 ^ 64 in if ltb m (2 ^ 63) then pos m else negsuc (2 ^ 64 - 1 - m)

-- *big.Rat, by some numerator and a positive denominator.
pub record Rat : Type 0 where
  pub num : ℤ
  pub den : ℕ

-- big.NewRat on numbers that are not negative.
abbrev pub rat : ℕ → ℕ → Rat
rat n d = record { num = pos n; den = d }

-- Two fractions that are not negative, as numbers: cross-multiplication.
abbrev pub SameValue : Rat → Rat → Type 0
SameValue q r = abs q.num * r.den ≡ abs r.num * q.den
