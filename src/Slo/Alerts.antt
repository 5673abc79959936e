-- ===== src/Slo/Alerts.antt =====
-- internal/slo/alerts.go: the multi-window burn-rate alerts. Window has the reading of their window.
pub mod Window
pub mod Laws
pub mod Threshold
pub mod Total
use paved.Base.{
  ℕ, zero, suc, ◌+◌, ◌-◌, ◌*◌, ◌%◌, ◌^◌, String, Bool, true, false, not, ◌&&◌, ◌||◌, List, [], ◌∷◌,
  Option, none, some, Rat, rat, ℤ, pos, negsuc, abs, int64, is_positive, Result, ok, err, plain,
  concat, codes, leb, ltb, nat_eq, if◌then◌else◌, ◌>>=◌, insert,
}
use paved.Api.{ServiceClaim}
use paved.Runtime.{Runtime, lt_float}
use paved.Slo.Budget.{is_digit, set_string, decimal, error_budget}
use paved.Slo.Alerts.Window.{slo_window}
use paved.Slo.Rules.{Rule, record_name, rule_labels}

abbrev pub alert_name : String
alert_name = "SLOErrorBudgetBurn"

abbrev pub runbook_url : String
runbook_url = "https://github.com/singha105/paved/blob/main/docs/runbooks/slo-burn-rate.md"

abbrev pub label_severity : String
label_severity = "severity"

abbrev pub label_long_window : String
label_long_window = "long_window"

abbrev pub label_short_window : String
label_short_window = "short_window"

abbrev pub severity_page : String
severity_page = "page"

abbrev pub severity_ticket : String
severity_ticket = "ticket"

pub record BurnRateAlert : Type 0 where
  pub severity : String
  pub burn_rate : String
  pub long_window : String
  pub short_window : String

abbrev row : String → String → String → String → BurnRateAlert
row severity rate long short = record {
  severity = severity;
  burn_rate = rate;
  long_window = long;
  short_window = short;
}

-- The page at 14.4 times the sustainable rate, whose rate is also the one that makes a claim unhealthy.
abbrev pub fastest_alert : BurnRateAlert
fastest_alert = row severity_page "14.4" "1h" "5m"

abbrev pub burn_rate_alerts : List BurnRateAlert
burn_rate_alerts =
    fastest_alert
    ∷ row severity_page "6" "6h" "30m"
    ∷ row severity_ticket "3" "1d" "2h"
    ∷ row severity_ticket "1" "3d" "6h"
    ∷ []

module _ (go : Runtime) where
  open go use {
    Float, of_rat, le_float, mul_float, div_float, round, format_shortest, parse_float, quote,
    hours,
  }

  -- The product of a burn rate and a budget, which is not negative.
  unfoldable pub threshold : BurnRateAlert → Rat → Result String
  unfolding set_string decimal
  threshold a budget = elim (set_string a.burn_rate) [
    | none ↦ err (plain (concat ("burn rate " ∷ quote a.burn_rate ∷ " is not a number" ∷ [])))
    | some q ↦ ok (decimal (rat (abs q.num * abs budget.num) (q.den * budget.den)))
  ]

  unfoldable pub rate : BurnRateAlert → Result Float
  rate a = elim (parse_float a.burn_rate) [
    | none ↦
        err (plain (concat ("burn rate " ∷ quote a.burn_rate ∷ " is not a positive number" ∷ [])))
    | some r ↦
        if le_float r (of_rat (rat 0 1))
        then err
            (plain (concat ("burn rate " ∷ quote a.burn_rate ∷ " is not a positive number" ∷ [])))
        else ok r
  ]

  unfoldable pub budget_lifetime : BurnRateAlert → ℤ → Result String
  budget_lifetime a window = do
    burn_rate ← rate a
    let left = div_float (hours window) burn_rate
    ok (
        if lt_float go left (of_rat (rat 48 1))
        then concat (format_shortest (round left) ∷ " hours" ∷ [])
        else concat (
            format_shortest (
              div_float (round (mul_float (div_float left (of_rat (rat 24 1))) (of_rat (rat 10 1))))
                (of_rat (rat 10 1)))
            ∷ " days"
            ∷ []))

  unfoldable pub alert_expr : ServiceClaim → BurnRateAlert → String → String
  alert_expr sc a limit = concat (
      record_name sc.spec.sli.type a.long_window
      ∷ "{service="
      ∷ quote sc.name
      ∷ "} > "
      ∷ limit
      ∷ "\nand\n"
      ∷ record_name sc.spec.sli.type a.short_window
      ∷ "{service="
      ∷ quote sc.name
      ∷ "} > "
      ∷ limit
      ∷ [])

  unfoldable pub alert_annotations :
      ServiceClaim → String → Rat → BurnRateAlert → String → String → List (String × String)
  alert_annotations sc runbook budget a limit lifetime =
      (
        "summary",
        concat (
            sc.name ∷ " is spending its error budget " ∷ a.burn_rate
            ∷ "x faster than it can sustain" ∷ []),
      )
      ∷ (
        "description",
        concat (
            "The error ratio is above "
            ∷ limit
            ∷ " over both the last "
            ∷ a.long_window
            ∷ " and the last "
            ∷ a.short_window
            ∷ ". At "
            ∷ a.burn_rate
            ∷ "x, the "
            ∷ sc.spec.slo.window
            ∷ " error budget of "
            ∷ decimal budget
            ∷ " lasts about "
            ∷ lifetime
            ∷ "."
            ∷ []),
      )
      ∷ ("owner", sc.spec.owner)
      ∷ ("runbook_url", runbook_url)
      ∷ ("runbook", runbook)
      ∷ []

  unfoldable pub alert_rule : ServiceClaim → String → Rat → ℤ → BurnRateAlert → Result Rule
  unfolding rule_labels alert_expr alert_annotations
  alert_rule sc runbook budget window a = do
    limit ← threshold a budget
    lifetime ← budget_lifetime a window
    ok (record {
      record_name = "";
      alert = alert_name;
      expr = alert_expr sc a limit;
      labels = insert label_short_window a.short_window (
          insert label_long_window a.long_window
            (insert label_severity a.severity (rule_labels sc)));
      annotations = alert_annotations sc runbook budget a limit lifetime;
    })

  -- The loop over the table, which stops at the first error.
  unfoldable pub alert_rules_from :
      ServiceClaim → String → Rat → ℤ → List BurnRateAlert → Result (List Rule)
  alert_rules_from sc runbook budget window [] = ok []
  alert_rules_from sc runbook budget window (a ∷ rest) = do
    rule ← alert_rule sc runbook budget window a
    rules ← alert_rules_from sc runbook budget window rest
    ok (rule ∷ rules)

  unfoldable pub alert_rules : ServiceClaim → String → Result (List Rule)
  unfolding alert_rules_from
  alert_rules sc runbook = do
    budget ← error_budget go sc.spec.slo.objective
    window ← slo_window go sc.spec.slo.window
    alert_rules_from sc runbook budget window burn_rate_alerts
