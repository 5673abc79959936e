-- ===== src/Examples/Sets.antt =====
-- What the example claim is built into.
use paved.Base.{
  ◌≤◌, Rat, rat, ◌∷◌, arith, false, List, [], map, none, Result, ok, err, ◌≡◌, refl, ap, ◌⊎◌, All,
  ◌==◌, ◌&&◌, ◌||◌, nat_eq,
}
use paved.Api.{tier_public, tier_internal}
use paved.Builders.Objects.{AutoscalerSpec, autoscaler_body}
use paved.Builders.Names.{namespace_name}
use paved.Builders.Workload.{has_autoscaling, build_hpa, pod_spec}
use paved.Builders.Workload.Laws.{PodIsHardened, build_hpa-bounds, pod_spec-IsHardened}
use paved.Builders.Network.{
  ingress_rules, monitoring_namespace, platform_namespace, ingress_namespace,
}
use paved.Builders.Network.Laws.{admits, ingress_rules-admits}
use paved.Builders.Set.Distinct.{AllApart, build-AllApart}
use paved.Builders.Set.Laws.{IsManaged, build-IsManaged}
use paved.Controller.Watch.Laws.{LeadsTo, build-LeadsTo}
use paved.Slo.Budget.{
  is_decimal_from, is_decimal, set_string_from, set_string, budget_of_percent, error_budget,
}
use paved.Slo.Alerts.Window.{has_suffix_d, trim_suffix_d, digits_value, atoi, slo_window}
use paved.Slo.Alerts.{
  alert_rules_from, alert_rule, threshold, budget_lifetime, rate, burn_rate_alerts, alert_rules,
}
use paved.Slo.Alerts.Total.{IsRate, alert_rules-ok}
use paved.Slo.Alerts.Laws.{routed, row_routed, IsFed, IsOfService, recording_rules-feed}
use paved.Slo.Rules.{
  Rule, good_status_pattern, error_ratio_expr, recording_rules_from, recording_rules,
}
use paved.Examples.Numbers.{go}
use paved.Examples.Claims.{shortlink, built, built_lem}

build-IsManaged_example : All (IsManaged shortlink) built
build-IsManaged_example = build-IsManaged go shortlink none built built_lem

named : ¬ (shortlink.name ≡ "")
named e = let differs = ap (λ i. i == "") e in cc

placed : ¬ (shortlink.namespace ≡ "")
placed e = let differs = ap (λ i. i == "") e in cc

build-LeadsTo_example : All (LeadsTo shortlink) built
build-LeadsTo_example = build-LeadsTo go shortlink none built named placed built_lem

build_hpa-bounds_example :
    (spec : AutoscalerSpec) × ((build_hpa shortlink).body ≡ autoscaler_body spec)
    × (spec.min_replicas ≤ spec.max_replicas)
    × (4 ≤ spec.max_replicas)
    × (¬ (tier_internal ≡ tier_public) ⊎ (2 ≤ spec.min_replicas))
    × ((has_autoscaling shortlink ≡ false) ⊎ (2 ≤ spec.min_replicas))
build_hpa-bounds_example = build_hpa-bounds shortlink

pod_spec-IsHardened_example : PodIsHardened "registry/shortlink:1" (pod_spec go shortlink none)
pod_spec-IsHardened_example = pod_spec-IsHardened go shortlink none

ingress_rules-admits_example :
    admits (namespace_name shortlink) (ingress_rules shortlink) "traefik" 8080 ≡ (
      monitoring_namespace == "traefik" && nat_eq 8080 8080
      || (tier_internal == tier_public || tier_internal == tier_internal)
        && (namespace_name shortlink == "traefik" || platform_namespace == "traefik")
      || tier_internal == tier_public && ingress_namespace == "traefik" && nat_eq 8080 8080)
ingress_rules-admits_example = ingress_rules-admits shortlink "traefik" 8080

abbrev ok_or_none : Result (List Rule) → List Rule
ok_or_none (ok rules) = rules
ok_or_none (err e) = []

abbrev records : List Rule
records = ok_or_none (recording_rules go shortlink "svc-shortlink")

records_made : recording_rules go shortlink "svc-shortlink" ≡ ok records
unfolding recording_rules recording_rules_from error_ratio_expr good_status_pattern
records_made = refl

abbrev alerts : List Rule
alerts = ok_or_none (alert_rules go shortlink "runbook")

alerts_made : alert_rules go shortlink "runbook" ≡ ok alerts
unfolding alert_rules error_budget budget_of_percent set_string set_string_from is_decimal
    is_decimal_from slo_window alert_rules_from alert_rule threshold budget_lifetime rate atoi
    digits_value has_suffix_d trim_suffix_d
alerts_made = refl

recording_rules-feed_example :
    All (IsFed go shortlink records) alerts × All (IsOfService go shortlink) records
recording_rules-feed_example =
    recording_rules-feed go shortlink "svc-shortlink" "runbook" records alerts records_made
      alerts_made

abbrev budget : Rat
budget = rat 1 1000

budget_left : error_budget go "99.9" ≡ ok budget
unfolding error_budget budget_of_percent set_string set_string_from is_decimal is_decimal_from
budget_left = refl

table-IsRate : All (IsRate go) burn_rate_alerts
unfolding set_string set_string_from
table-IsRate = ((_, refl, refl), ((_, refl, refl), ((_, refl, refl), ((_, refl, refl), tt))))

alert_rules-ok_example :
    (rules : List Rule) × (alert_rules go shortlink "runbook" ≡ ok rules)
    × (map (routed go shortlink) rules ≡ map (row_routed go shortlink) burn_rate_alerts)
alert_rules-ok_example =
    alert_rules-ok go shortlink "runbook" budget (b'2' ∷ b'8' ∷ []) budget_left refl
      (refl, (refl, tt)) (omega arith) (omega arith) table-IsRate

build-AllApart_example : AllApart built
build-AllApart_example = build-AllApart go shortlink none built built_lem
