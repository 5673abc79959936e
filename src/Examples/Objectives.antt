-- ===== src/Examples/Objectives.antt =====
-- Objectives and budgets.
use paved.Base.{
  ℕ, Rat, String, itoa, ◌*◌, ◌^◌, ◌≤◌, ◌<◌, true, List, [], ◌∷◌, ◌++◌, some, rat, ok, ◌≡◌, refl,
  ◌↔◌, arith, codes, length,
}
use paved.Slo.Budget.{
  BudgetUse, error_budget, budget_of_percent, set_string, set_string_from, is_decimal,
  is_decimal_from, spend_budget,
}
use paved.Slo.Budget.Numeral.{IsNumeral, value, budget_of, error_budget-eq-ok_iff}
use paved.Slo.Budget.Spend.{spend_budget_lem}
use paved.Slo.Budget.{decimal, float_prec_from, float_string, padded}
use paved.Slo.Budget.Decimal.{ReadsBack}
use paved.Slo.Alerts.{fastest_alert, threshold}
use paved.Slo.Alerts.Threshold.{times, threshold-ReadsBack}
use paved.Examples.Numbers.{go, go-FloatLaws}

three_nines : IsNumeral (codes "99.9") (b'9' ∷ b'9' ∷ []) (b'9' ∷ [])
three_nines = record {
  shape = refl;
  whole = (refl, (refl, tt));
  fraction = (refl, tt);
  some_digit = omega arith;
}

budget_found : error_budget go "99.9" ≡ ok (budget_of 999 1)
unfolding error_budget budget_of_percent set_string set_string_from is_decimal is_decimal_from
budget_found = refl

error_budget-eq-ok_iff_example : (error_budget go "99.9" ≡ ok (budget_of 999 1)) ↔ (
    (ds : List ℕ) × (fs : List ℕ) × IsNumeral (codes "99.9") ds fs
    × (90 * 10 ^ length fs ≤ value 0 (ds ++ fs))
    × (value 0 (ds ++ fs) < 100 * 10 ^ length fs)
    × (budget_of 999 1 ≡ budget_of (value 0 (ds ++ fs)) (length fs)))
error_budget-eq-ok_iff_example = error_budget-eq-ok_iff go "99.9" (budget_of 999 1)

-- An error ratio of 0.0004 against a budget of 0.001.
spend_budget_example :
    (use_of : BudgetUse go) × (spend_budget go (some 4) (some (rat 1 1000)) ≡ ok use_of)
    × (go.le_float (go.of_rat (rat 0 1)) use_of.remaining ≡ true)
    × (go.le_float use_of.remaining (go.of_rat (rat 1 1)) ≡ true)
    × (go.le_float use_of.remaining (go.of_rat (rat 0 1))
        ≡ go.le_float (go.of_rat (rat 1 1000)) (some 4))
spend_budget_example =
    spend_budget_lem go go-FloatLaws (some 4) (rat 1 1000) refl refl refl (omega arith) refl

fastest_plain : is_decimal fastest_alert.burn_rate ≡ true
unfolding is_decimal is_decimal_from
fastest_plain = refl

-- 14.4 times the budget of 99.9%.
threshold-ReadsBack_example :
    (r : Rat) × (limit : String) × (set_string fastest_alert.burn_rate ≡ some r)
    × (threshold go fastest_alert (budget_of 999 1) ≡ ok limit)
    × ReadsBack limit (times r (budget_of 999 1))
threshold-ReadsBack_example =
    threshold-ReadsBack go fastest_alert "99.9" (budget_of 999 1) budget_found fastest_plain

fastest_limit : threshold go fastest_alert (budget_of 999 1) ≡ ok "0.0144"
unfolding threshold set_string set_string_from decimal float_prec_from float_string padded itoa
fastest_limit = refl
