-- ===== src/Slo/Alerts/Laws.antt =====
-- The alerts that a claim gets, and the series that they read.
use paved.Base.{
  String, true, List, [], ◌∷◌, map, Option, some, Rat, ℤ, ok, ◌≡◌, refl, sym, ap, ◌∙◌, arith,
  contains, ◌==◌, eq_refl, All, lookup, insert, >>=-eq-ok, pair-eq-ok, concat,
}
use mathlib.Core.Path.{subst}
use paved.Api.{ServiceClaim}
use paved.Runtime.{Runtime}
use paved.Slo.Budget.{error_budget}
use paved.Slo.Rules.{rule_labels, Rule, windows, record_name, recording_rules, label_service}
use paved.Slo.Rules.Laws.{record_of, expected, recording_rules-records}
use paved.Slo.Alerts.{
  BurnRateAlert, burn_rate_alerts, alert_name, label_severity, label_long_window,
  label_short_window, threshold, budget_lifetime, alert_rule, alert_rules_from, alert_rules,
  alert_expr,
}
use paved.Slo.Alerts.Window.{slo_window}

module _ (go : Runtime) (sc : ServiceClaim) where
  -- What Alertmanager routes an alert by, and the row of the table that it should come from.
  abbrev pub routed : Rule → String × Option String × Option String × Option String × Option String
  routed r = (
    r.alert,
    lookup label_service r.labels,
    lookup label_severity r.labels,
    lookup label_long_window r.labels,
    lookup label_short_window r.labels,
  )

  abbrev pub row_routed :
      BurnRateAlert → String × Option String × Option String × Option String × Option String
  row_routed a =
      (alert_name, some sc.name, some a.severity, some a.long_window, some a.short_window)

  alert_rule-routed :
      (runbook : String) (budget : Rat) (window : ℤ) (a : BurnRateAlert) (r : Rule)
      → alert_rule go sc runbook budget window a ≡ ok r
      → routed r ≡ row_routed a
  unfolding alert_rule lookup insert
  alert_rule-routed runbook budget window a r e =
      let (limit, lifetime, _, _, same) =
        pair-eq-ok (threshold go a budget) (budget_lifetime go a window) _ e in
      sym (ap routed same)

  alert_rules_from-routed :
      (runbook : String) (budget : Rat) (window : ℤ) (rows : List BurnRateAlert) (rules : List Rule)
      → alert_rules_from go sc runbook budget window rows ≡ ok rules
      → map routed rules ≡ map row_routed rows
  unfolding alert_rules_from
  alert_rules_from-routed runbook budget window [] rules e = ground arith
  alert_rules_from-routed runbook budget window (a ∷ rows) rules e =
      let (rule, rest, made, later, same) =
        pair-eq-ok (alert_rule go sc runbook budget window a)
          (alert_rules_from go sc runbook budget window rows) (λ r rs. r ∷ rs) e in
      sym (ap (map routed) same)
      ∙ ap (λ x. x ∷ map routed rest) (alert_rule-routed runbook budget window a rule made)
      ∙ ap (λ l. row_routed a ∷ l) (alert_rules_from-routed runbook budget window rows rest later)

  -- A claim's alerts are the rows of the table, in order: each carries its row's severity and windows,
  -- and the claim's name.
  pub alert_rules-routed :
      (runbook : String) (rules : List Rule)
      → alert_rules go sc runbook ≡ ok rules
      → map routed rules ≡ map row_routed burn_rate_alerts
  unfolding alert_rules
  alert_rules-routed runbook rules e =
      let (budget, _, made) = >>=-eq-ok (error_budget go sc.spec.slo.objective) _ e in
      let (window, _, later) = >>=-eq-ok (slo_window go sc.spec.slo.window) _ made in
      alert_rules_from-routed runbook budget window burn_rate_alerts rules later

  -- The names of the series that a claim records.
  abbrev pub recorded : List Rule → List String
  recorded rules = map (λ (r : Rule). r.record_name) rules

  -- Both series of a row's windows are recorded.
  abbrev IsRecorded : List Rule → BurnRateAlert → Type 0
  IsRecorded rules a =
      (contains (recorded rules) (record_name sc.spec.sli.type a.long_window) ≡ true)
      × (contains (recorded rules) (record_name sc.spec.sli.type a.short_window) ≡ true)

  names_of : (xs : List (String × String × List (String × String))) → List String
  names_of xs = map (λ x. x.0) xs

  record_names :
      (namespace : String) (rules : List Rule)
      → recorded rules ≡ names_of (map (record_of go sc namespace) rules)
  unfolding names_of
  record_names namespace [] = refl
  record_names namespace (r ∷ rules) = ap (λ l. r.record_name ∷ l) (record_names namespace rules)

  table-IsRecorded :
      (namespace : String) (rules : List Rule)
      → recording_rules go sc namespace ≡ ok rules
      → All (IsRecorded rules) burn_rate_alerts
  unfolding names_of
  table-IsRecorded namespace rules e =
      let same : recorded rules ≡ map (record_name sc.spec.sli.type) windows =
        record_names namespace rules
        ∙ ap names_of (recording_rules-records go sc namespace rules e) in
      let name : (w : String)
          → (record_name sc.spec.sli.type w == record_name sc.spec.sli.type w) ≡ true =
        λ w. eq_refl (record_name sc.spec.sli.type w) in
      rw same (
        (ground (arith, name "1h"), ground (arith, name "5m")),
        (
          (ground (arith, name "6h"), ground (arith, name "30m")),
          (
            (ground (arith, name "1d"), ground (arith, name "2h")),
            ((ground (arith, name "3d"), ground (arith, name "6h")), tt),
          ),
        ),
      )

  -- An alert compares two series of the claim's service, which rules record, with the same limit.
  abbrev pub IsFed : List Rule → Rule → Type 0
  IsFed rules alert =
      (long : String) × (short : String) × (limit : String) × (contains (recorded rules) long
        ≡ true)
      × (contains (recorded rules) short ≡ true)
      × (alert.expr
          ≡ concat (
              long
              ∷ "{service="
              ∷ go.quote sc.name
              ∷ "} > "
              ∷ limit
              ∷ "\nand\n"
              ∷ short
              ∷ "{service="
              ∷ go.quote sc.name
              ∷ "} > "
              ∷ limit
              ∷ []))

  alert_rule-IsFed :
      (rules : List Rule) (runbook : String) (budget : Rat) (window : ℤ) (a : BurnRateAlert)
      (r : Rule)
      → alert_rule go sc runbook budget window a ≡ ok r
      → IsRecorded rules a
      → IsFed rules r
  unfolding alert_rule alert_expr
  alert_rule-IsFed rules runbook budget window a r e (long, short) =
      let (limit, lifetime, _, _, same) =
        pair-eq-ok (threshold go a budget) (budget_lifetime go a window) _ e in
      (
        record_name sc.spec.sli.type a.long_window,
        record_name sc.spec.sli.type a.short_window,
        limit,
        long,
        short,
        sym (ap (λ (rule : Rule). rule.expr) same),
      )

  alert_rules_from-IsFed :
      (rules : List Rule) (runbook : String) (budget : Rat) (window : ℤ) (rows : List BurnRateAlert)
      (alerts : List Rule)
      → alert_rules_from go sc runbook budget window rows ≡ ok alerts
      → All (IsRecorded rules) rows
      → All (IsFed rules) alerts
  unfolding alert_rules_from
  alert_rules_from-IsFed rules runbook budget window [] alerts e fed =
      subst (All (IsFed rules)) (let none_made : [] ≡ alerts = cc in none_made) tt
  alert_rules_from-IsFed rules runbook budget window (a ∷ rows) alerts e (fed, rest_fed) =
      let (alert, rest, made, later, same) =
        pair-eq-ok (alert_rule go sc runbook budget window a)
          (alert_rules_from go sc runbook budget window rows) (λ r rs. r ∷ rs) e in
      subst (All (IsFed rules)) same (
        alert_rule-IsFed rules runbook budget window a alert made fed,
        alert_rules_from-IsFed rules runbook budget window rows rest later rest_fed,
      )

  -- The claim's name in the label that the alerts select by.
  abbrev pub IsOfService : Rule → Type 0
  IsOfService rule = lookup label_service rule.labels ≡ some sc.name

  abbrev HasService : String × String × List (String × String) → Type 0
  HasService x = lookup label_service x.2 ≡ some sc.name

  labelled :
      (namespace : String) (rules : List Rule)
      → All HasService (map (record_of go sc namespace) rules)
      → All IsOfService rules
  labelled namespace [] h = tt
  labelled namespace (r ∷ rules) (h, hs) = (h, labelled namespace rules hs)

  windows-labelled : (namespace : String) → All HasService (map (expected go sc namespace) windows)
  unfolding lookup rule_labels insert
  windows-labelled namespace = (refl, (refl, (refl, (refl, (refl, (refl, (refl, tt)))))))

  -- Every alert of a claim compares two series, by the claim's name, that the claim's recording rules record
  -- under that name.
  pub recording_rules-feed :
      (namespace runbook : String) (rules alerts : List Rule)
      → recording_rules go sc namespace ≡ ok rules
      → alert_rules go sc runbook ≡ ok alerts
      → All (IsFed rules) alerts × All IsOfService rules
  unfolding alert_rules
  recording_rules-feed namespace runbook rules alerts recorded_by e =
      let (budget, _, made) = >>=-eq-ok (error_budget go sc.spec.slo.objective) _ e in
      let (window, _, later) = >>=-eq-ok (slo_window go sc.spec.slo.window) _ made in
      (
        alert_rules_from-IsFed rules runbook budget window burn_rate_alerts alerts later
            (table-IsRecorded namespace rules recorded_by),
        labelled namespace rules (
            subst (All HasService) (sym (recording_rules-records go sc namespace rules recorded_by))
              (windows-labelled namespace)),
      )
