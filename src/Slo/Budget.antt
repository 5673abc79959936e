-- ===== src/Slo/Budget.antt =====
-- internal/slo/budget.go: error budgets as exact fractions, and burn rates as floats. A nil *big.Rat
-- is `none`.
pub mod Numeral
pub mod Spend
pub mod Digits
pub mod Decimal
use paved.Base.{
  ℕ, zero, suc, ◌+◌, ◌-◌, ◌*◌, ◌/◌, ◌%◌, ◌^◌, String, Bool, true, false, not, ◌&&◌, ◌||◌, List, [],
  ◌∷◌, Option, none, some, Rat, rat, ℤ, pos, negsuc, sub_ℕ, abs, is_positive, Result, ok, err,
  plain, concat, codes, itoa, leb, ltb, nat_eq, if◌then◌else◌, ◌>>=◌,
}
use paved.Runtime.{Runtime, max_float, min_float}

abbrev pub is_digit : ℕ → Bool
is_digit c = leb b'0' c && leb c b'9'

-- The loop of isDecimal, with its three flags.
unfoldable pub is_decimal_from : Bool → Bool → Bool → List ℕ → Bool
is_decimal_from seen_digit seen_dot digit_after_dot [] =
    seen_digit && (not seen_dot || digit_after_dot)
is_decimal_from seen_digit seen_dot digit_after_dot (r ∷ rs) =
    let digit = is_decimal_from true seen_dot (seen_dot || digit_after_dot) rs in
    let point = is_decimal_from seen_digit true digit_after_dot rs in
    if is_digit r
    then digit
    else if nat_eq r b'.' && seen_digit && not seen_dot
    then point
    else false

unfoldable pub is_decimal : String → Bool
unfolding is_decimal_from
is_decimal s = is_decimal_from false false false (codes s)

-- Rat.SetString on digits with at most one dot among them, which is all that it is called on: the
-- digits so far, the power of ten below the dot, and whether a digit and the dot were seen.
unfoldable pub set_string_from : ℕ → ℕ → Bool → Bool → List ℕ → Option Rat
set_string_from n d seen_digit seen_dot [] = if seen_digit then some (rat n d) else none
set_string_from n d seen_digit seen_dot (r ∷ rs) =
    let digit =
      set_string_from (n * 10 + (r - b'0')) (if seen_dot then d * 10 else d) true seen_dot rs in
    let point = set_string_from n d seen_digit true rs in
    if is_digit r then digit else if nat_eq r b'.' && not seen_dot then point else none

unfoldable pub set_string : String → Option Rat
unfolding set_string_from
set_string s = set_string_from 0 1 false false (codes s)

-- 1 - percent / 100, for a percentage that is not negative.
abbrev pub one_minus_percent : Rat → Rat
one_minus_percent q = record { num = sub_ℕ (100 * q.den) (abs q.num); den = 100 * q.den }

abbrev no_budget : String
no_budget = "error budget must be greater than zero; an objective of 100 leaves no budget to spend"

module _ (go : Runtime) where
  open go use {
    Float, of_rat, is_nan, is_inf, le_float, sub_float, mul_float, div_float, format_float,
    format_general, quote,
  }

  not_decimal : String → Result Rat
  not_decimal s =
      err (plain (concat ("objective " ∷ quote s ∷ " is not a plain decimal number" ∷ [])))

  -- `percent.Cmp(90) < 0 || percent.Cmp(100) >= 0`, by cross-multiplication.
  unfoldable pub budget_of_percent : String → Rat → Result Rat
  budget_of_percent objective q =
      if ltb (abs q.num) (90 * q.den) || leb (100 * q.den) (abs q.num)
      then err (
          plain (
            concat
              ("objective " ∷ quote objective ∷ " must be at least 90 and less than 100" ∷ [])))
      else ok (one_minus_percent q)

  unfoldable pub error_budget : String → Result Rat
  unfolding is_decimal set_string budget_of_percent not_decimal
  error_budget objective =
      if not (is_decimal objective) then not_decimal objective else elim (set_string objective) [
        | none ↦ not_decimal objective
        | some percent ↦ budget_of_percent objective percent
      ]

  pub record BudgetUse : Type 0 where
    pub consumed : Float
    pub remaining : Float

  unfoldable pub burn_rate : Float → Option Rat → Result Float
  burn_rate error_ratio none = err (plain no_budget)
  burn_rate error_ratio (some budget) =
      if not (is_positive budget.num)
      then err (plain no_budget)
      else if is_nan error_ratio || is_inf error_ratio
      then err
          (plain (concat ("error ratio " ∷ format_general error_ratio ∷ " is not a number" ∷ [])))
      else ok (div_float (max_float go error_ratio (of_rat (rat 0 1))) (of_rat budget))

  unfoldable pub spend_budget : Float → Option Rat → Result BudgetUse
  spend_budget error_ratio budget = do
    rate ← burn_rate error_ratio budget
    ok (record {
      consumed = rate;
      remaining =
          min_float go (max_float go (sub_float (of_rat (rat 1 1)) rate) (of_rat (rat 0 1)))
            (of_rat (rat 1 1));
    })

  unfoldable pub format_percent : Float → String
  format_percent fraction =
      concat (format_float (mul_float fraction (of_rat (rat 100 1))) 1 ∷ "%" ∷ [])

  unfoldable pub format_burn_rate : Float → String
  format_burn_rate rate = format_float rate 2

-- Rat.FloatPrec: the least number of decimal places that gives the fraction exactly, looked for below
-- a bound. The denominator bounds it where there is one.
unfoldable pub float_prec_from : ℕ → ℕ → ℕ → ℕ → Option ℕ
float_prec_from zero n num den = none
float_prec_from (suc fuel) n num den =
    let more = float_prec_from fuel (suc n) num den in
    if nat_eq (num * 10 ^ n % den) 0 then some n else more

-- The last `n` digits of a number, zeros in front included.
unfoldable pub padded : ℕ → ℕ → String
padded zero m = ""
padded (suc n) m = concat (padded n (m / 10) ∷ itoa (m % 10) ∷ [])

-- Rat.FloatString: the fraction to `digits` decimal places, rounded half away from zero.
unfoldable pub float_string : ℕ → ℕ → ℕ → String
unfolding padded itoa
float_string digits num den =
    let scaled = (2 * num * 10 ^ digits + den) / (2 * den) in
    if nat_eq digits 0
    then itoa scaled
    else concat (itoa (scaled / 10 ^ digits) ∷ "." ∷ padded digits (scaled % 10 ^ digits) ∷ [])

abbrev sign_text : ℤ → String
sign_text (pos n) = ""
sign_text (negsuc n) = "-"

abbrev digits_or_12 : Option ℕ → ℕ
digits_or_12 none = 12
digits_or_12 (some n) = n

unfoldable pub decimal : Rat → String
unfolding float_prec_from float_string
decimal r = concat (
    sign_text r.num
    ∷ float_string (digits_or_12 (float_prec_from r.den 0 (abs r.num) r.den)) (abs r.num) r.den
    ∷ [])
