-- ===== src/Examples/Claims.antt =====
-- A claim like the one of shortlink, another one that asks for storage, and what they are built into.
use paved.Base.{
  String, Bool, true, false, List, [], ◌∷◌, Option, none, some, Result, ok, err, ◌≡◌, refl,
  if◌then◌else◌, ◌==◌,
}
use paved.Api.{ServiceClaim, Condition, tier_internal, sli_http_availability}
use paved.Api.Conditions.{Meta, MetaLaws}
use paved.Slo.Budget.{
  is_decimal_from, is_decimal, set_string_from, set_string, budget_of_percent, error_budget,
}
use paved.Slo.Rules.{good_status_pattern, error_ratio_expr, recording_rules_from, recording_rules}
use paved.Slo.Alerts.{threshold, rate, budget_lifetime, alert_rule, alert_rules_from, alert_rules}
use paved.Slo.Alerts.Window.{has_suffix_d, trim_suffix_d, digits_value, atoi, slo_window}
use paved.Builders.Monitoring.{build_prometheus_rule}
use paved.Builders.Dashboard.{build_dashboard, dashboard_model, latency_targets, dashboard_panels}
use paved.Builders.Runbook.{build_runbook, runbook_text, bad_request_definition, runbook_rows}
use paved.Builders.Objects.{Object, namespace_body}
use paved.Builders.Set.{objects_of, build}
use paved.Builders.Names.{labels}
use paved.Controller.Env.{Env, Reconciler, no_status}
use paved.Controller.Finalize.{finalizer}
use paved.Examples.Numbers.{go}

-- A list of conditions with the newest in front.
abbrev find_condition : List Condition → String → Option Condition
find_condition [] t = none
find_condition (c ∷ cs) t = if c.type == t then some c else find_condition cs t

abbrev pub newest_first : Meta
newest_first = record { find = find_condition; set_condition = λ cs c. c ∷ cs }

pub newest_first-MetaLaws : MetaLaws newest_first
newest_first-MetaLaws = record { find-set_condition = λ cs c t. refl }

abbrev pub claim_with : String → List Condition → Bool → Bool → ServiceClaim
claim_with image conditions storage deleting = record {
  name = "shortlink";
  namespace = "platform-claims";
  annotations = [];
  finalizers = finalizer ∷ [];
  generation = 3;
  deleting = deleting;
  spec = record {
    owner = "team-growth";
    image = image;
    port = 8080;
    tier = tier_internal;
    sli = record {
      type = sli_http_availability;
      good_statuses = 200 ∷ 204 ∷ [];
      latency_threshold = "";
    };
    slo = record { objective = "99.9"; window = "28d" };
    scale = record { min = 2; max = 4 };
    storage = storage;
  };
  status = record {
    conditions = conditions;
    error_budget_remaining = "12.0%";
    burn_rate_1h = "1.5";
    managed_resources = 12;
    observed_generation = 3;
    storage = none;
  };
}

abbrev pub shortlink : ServiceClaim
shortlink = claim_with "registry/shortlink:1" [] false false

-- A cluster on which every request succeeds, with an error ratio of 0.002.
abbrev pub world : Env go
world = record {
  claim_answer = λ h namespace name. ok shortlink;
  finalizer_answer = λ h present. none;
  namespace_answer =
      λ h name. ok (record { name = name; labels = labels shortlink; deleting = false });
  delete_answer = λ h name. none;
  live_answer = λ h kind namespace name. ok [];
  apply_answer = λ h o. ok [];
  query_answer = λ h q. ok (some 20);
  rollout_answer = λ h reader namespace name.
      ok (record { generation = 1; observed_generation = "1"; phase = "Healthy"; message = "" });
  storage_answer = λ h reader kind namespace name. ok no_status;
  status_answer = λ h. none;
  object_error = λ o. none;
  condition_error = λ c. none;
}

abbrev pub reconciler : Reconciler
reconciler = record { prometheus = true; api_reader = true; recorder = true; storage = none }

abbrev ok_or : {A : Type 0} → A → Result A → A
ok_or d (ok a) = a
ok_or d (err e) = d

abbrev no_object : Object
no_object = record {
  meta = record { name = ""; namespace = ""; labels = []; annotations = [] };
  body = namespace_body;
}

rule : Object
unfolding build_prometheus_rule recording_rules recording_rules_from error_ratio_expr
    good_status_pattern alert_rules error_budget budget_of_percent set_string set_string_from
    is_decimal is_decimal_from slo_window alert_rules_from alert_rule threshold budget_lifetime rate
    atoi digits_value has_suffix_d trim_suffix_d
rule = ok_or no_object (build_prometheus_rule go shortlink)

rule_made : build_prometheus_rule go shortlink ≡ ok rule
unfolding rule build_prometheus_rule recording_rules recording_rules_from error_ratio_expr
    good_status_pattern alert_rules error_budget budget_of_percent set_string set_string_from
    is_decimal is_decimal_from slo_window alert_rules_from alert_rule threshold budget_lifetime rate
    atoi digits_value has_suffix_d trim_suffix_d
rule_made = refl

dashboard : Object
unfolding build_dashboard dashboard_model latency_targets dashboard_panels error_ratio_expr
    good_status_pattern error_budget budget_of_percent set_string set_string_from is_decimal
    is_decimal_from slo_window threshold budget_lifetime rate atoi digits_value has_suffix_d
    trim_suffix_d
dashboard = ok_or no_object (build_dashboard go shortlink)

dashboard_made : build_dashboard go shortlink ≡ ok dashboard
unfolding dashboard build_dashboard dashboard_model latency_targets dashboard_panels
    error_ratio_expr good_status_pattern error_budget budget_of_percent set_string set_string_from
    is_decimal is_decimal_from slo_window threshold budget_lifetime rate atoi digits_value
    has_suffix_d trim_suffix_d
dashboard_made = refl

runbook : Object
unfolding build_runbook runbook_text bad_request_definition runbook_rows error_budget
    budget_of_percent set_string set_string_from is_decimal is_decimal_from slo_window threshold
    budget_lifetime rate atoi digits_value has_suffix_d trim_suffix_d
runbook = ok_or no_object (build_runbook go shortlink)

runbook_made : build_runbook go shortlink ≡ ok runbook
unfolding runbook build_runbook runbook_text bad_request_definition runbook_rows error_budget
    budget_of_percent set_string set_string_from is_decimal is_decimal_from slo_window threshold
    budget_lifetime rate atoi digits_value has_suffix_d trim_suffix_d
runbook_made = refl

pub built : List Object
built = objects_of go shortlink none rule dashboard runbook

pub built_lem : build go shortlink none ≡ ok built
unfolding build built
built_lem = rw (rule_made, dashboard_made, runbook_made, build) refl
