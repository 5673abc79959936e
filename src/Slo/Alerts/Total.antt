-- ===== src/Slo/Alerts/Total.antt =====
-- Every claim with an objective and a window that the API allows gets its alerts.
use paved.Base.{
  ℕ, ◌*◌, ◌++◌, ◌^◌, ◌<◌, ◌≡◌, refl, String, false, List, [], ◌∷◌, map, some, Rat, rat, ℤ, pos, ok,
  codes, arith, All, Result-cases, inl, inr,
}
use paved.Api.{ServiceClaim}
use paved.Runtime.{Runtime}
use paved.Slo.Budget.{set_string, set_string_from, error_budget}
use paved.Slo.Budget.Numeral.{IsDigits, value}
use paved.Slo.Rules.{Rule}
use paved.Slo.Alerts.{
  BurnRateAlert, burn_rate_alerts, rate, threshold, budget_lifetime, alert_rule, alert_rules_from,
  alert_rules,
}
use paved.Slo.Alerts.Window.{day_nanoseconds}
use paved.Slo.Alerts.Window.Laws.{slo_window-days}
use paved.Slo.Alerts.Laws.{routed, row_routed, alert_rules-routed}

-- strconv.ParseFloat reads the burn rate of a row as a positive float.
abbrev pub IsRate : Runtime → BurnRateAlert → Type 0
IsRate go a =
    (r : go.Float) × (go.parse_float a.burn_rate ≡ some r)
    × (go.le_float r (go.of_rat (rat 0 1)) ≡ false)

-- big.Rat reads it too.
abbrev IsFraction : BurnRateAlert → Type 0
IsFraction a = (q : Rat) × (set_string a.burn_rate ≡ some q)

table-IsFraction : All IsFraction burn_rate_alerts
unfolding set_string set_string_from
table-IsFraction = ((_, refl), ((_, refl), ((_, refl), ((_, refl), tt))))

module _ (go : Runtime) (sc : ServiceClaim) (runbook : String) (budget : Rat) (window : ℤ) where
  threshold-ok :
      (a : BurnRateAlert) → IsFraction a → (limit : String) × (threshold go a budget ≡ ok limit)
  unfolding threshold
  threshold-ok a (q, read) = elim (Result-cases (threshold go a budget)) [
    | inl made ↦ made
    | inr (e, failed) ↦ absurd (let no_way = rw (read, threshold) at failed in cc)
  ]

  rate-ok : (a : BurnRateAlert) → IsRate go a → (r : go.Float) × (rate go a ≡ ok r)
  unfolding rate
  rate-ok a (r, read, positive) = (r, ground (arith, read, positive))

  budget_lifetime-ok :
      (a : BurnRateAlert) → IsRate go a → (text : String) × (budget_lifetime go a window ≡ ok text)
  unfolding budget_lifetime
  budget_lifetime-ok a read = elim (Result-cases (budget_lifetime go a window)) [
    | inl made ↦ made
    | inr (e, failed) ↦
        absurd (
          let (r, same) = rate-ok a read in let no_way = rw (budget_lifetime, same) at failed in cc)
  ]

  alert_rule-ok :
      (a : BurnRateAlert)
      → IsFraction a
      → IsRate go a
      → (r : Rule) × (alert_rule go sc runbook budget window a ≡ ok r)
  unfolding alert_rule
  alert_rule-ok a fraction read = elim (Result-cases (alert_rule go sc runbook budget window a)) [
    | inl made ↦ made
    | inr (e, failed) ↦ absurd (
        let (limit, limited) = threshold-ok a fraction in
        let (text, lasting) = budget_lifetime-ok a read in
        let no_way = rw (alert_rule, limited, lasting) at failed in cc)
  ]

  alert_rules_from-ok :
      (rows : List BurnRateAlert)
      → All IsFraction rows
      → All (IsRate go) rows
      → (rules : List Rule) × (alert_rules_from go sc runbook budget window rows ≡ ok rules)
  unfolding alert_rules_from
  alert_rules_from-ok [] f r = ([], refl)
  alert_rules_from-ok (a ∷ rows) (f, fs) (r, rs) =
      let (rule, made) = alert_rule-ok a f r in
      let (rules, later) = alert_rules_from-ok rows fs rs in (rule ∷ rules, rw (made, later) refl)

module _ (go : Runtime) (sc : ServiceClaim) (runbook : String) where
  -- A claim whose objective has an error budget, and whose window is a positive number of days that does not
  -- overflow, gets its alerts, if the burn rates of the table are positive floats: one alert for each row, in
  -- order, with the row's severity and windows and the claim's name.
  pub alert_rules-ok :
      (budget : Rat) (days : List ℕ)
      → error_budget go sc.spec.slo.objective ≡ ok budget
      → codes sc.spec.slo.window ≡ days ++ b'd' ∷ []
      → IsDigits days
      → 0 < value 0 days
      → value 0 days * day_nanoseconds < 2 ^ 63
      → All (IsRate go) burn_rate_alerts
      → (rules : List Rule) × (alert_rules go sc runbook ≡ ok rules)
        × (map (routed go sc) rules ≡ map (row_routed go sc) burn_rate_alerts)
  unfolding alert_rules
  alert_rules-ok budget days budgeted shape digits some_day low rates =
      let read = slo_window-days go sc.spec.slo.window days shape digits some_day low in
      let (rules, made) =
        alert_rules_from-ok go sc runbook budget (pos (value 0 days * day_nanoseconds))
          burn_rate_alerts table-IsFraction rates in
      let whole : alert_rules go sc runbook ≡ ok rules = rw (budgeted, read) made in
      (rules, whole, alert_rules-routed go sc runbook rules whole)
