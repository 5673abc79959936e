-- ===== src/Slo/Alerts/Threshold.antt =====
-- The thresholds of the alerts' expressions: exactly the burn rate times the error budget.
use paved.Base.{
  ◌+◌, ◌*◌, ◌^◌, String, true, ◌++◌, some, ok, Rat, rat, abs, ◌≡◌, refl, sym, ap, ◌∙◌, length,
}
use paved.Runtime.{Runtime}
use paved.Slo.Budget.{is_decimal, set_string, decimal, error_budget}
use paved.Slo.Budget.Numeral.{
  is_decimal_iff, value, set_string_of_IsNumeral, error_budget-eq-ok_iff,
}
use paved.Slo.Budget.Decimal.{ReadsBack, tenths-ReadsBack, pow-add, hundred}
use paved.Slo.Alerts.{BurnRateAlert, threshold}

-- The product of two fractions that are not negative.
abbrev pub times : Rat → Rat → Rat
times q r = rat (abs q.num * abs r.num) (q.den * r.den)

module _ (go : Runtime) (a : BurnRateAlert) (objective : String) (budget : Rat) where
  threshold-of :
      (q : Rat)
      → set_string a.burn_rate ≡ some q
      → threshold go a budget ≡ ok (decimal (times q budget))
  unfolding threshold
  threshold-of q read = rw (read, threshold) refl

  -- The threshold of an alert whose burn rate is a plain decimal number, for the budget of an objective:
  -- there is one, and its text reads back as exactly the burn rate times the budget.
  pub threshold-ReadsBack :
      error_budget go objective ≡ ok budget
      → is_decimal a.burn_rate ≡ true
      → (rate : Rat) × (limit : String) × (set_string a.burn_rate ≡ some rate)
        × (threshold go a budget ≡ ok limit)
        × ReadsBack limit (times rate budget)
  threshold-ReadsBack made plain =
      let (ds, fs, _, _, _, same) = (error_budget-eq-ok_iff go objective budget).0 made in
      let (es, gs, shape) = (is_decimal_iff a.burn_rate).0 plain in
      let q = rat (value 0 (es ++ gs)) (10 ^ length gs) in
      let read = set_string_of_IsNumeral a.burn_rate es gs shape in
      let den : 10 ^ (length gs + (2 + length fs)) ≡ q.den * budget.den =
        sym (pow-add (length gs) (2 + length fs))
        ∙ ap (λ m. 10 ^ length gs * m)
            (sym (hundred (length fs)) ∙ ap (λ (b : Rat). b.den) (sym same)) in
      (
        q,
        decimal (times q budget),
        read,
        threshold-of q read,
        tenths-ReadsBack (abs q.num * abs budget.num) (q.den * budget.den)
            (length gs + (2 + length fs)) den,
      )
