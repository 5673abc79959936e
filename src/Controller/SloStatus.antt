-- ===== src/Controller/SloStatus.antt =====
-- internal/controller/slo_status.go: one reading of a claim's SLO. The condition that each return
-- sets is written where the source returns.
pub mod Laws
use paved.Base.{
  ℕ, String, Bool, true, false, not, ◌&&◌, List, [], ◌∷◌, Option, none, some, Rat, rat, Result, ok,
  err, Error, message, is_no_data, concat, if◌then◌else◌,
}
use paved.Api.{
  ServiceClaim, Condition, Status, condition_true, condition_false, condition_unknown,
  condition_slo_healthy,
}
use paved.Runtime.{Runtime}
use paved.Slo.Budget.{
  error_budget, BudgetUse, spend_budget, burn_rate, format_percent, format_burn_rate,
}
use paved.Slo.Rules.{error_ratio_expr}
use paved.Slo.Alerts.{fastest_alert, rate}
use paved.Builders.Names.{namespace_name}
use paved.Builders.Monitoring.{record_query}
use paved.Controller.Env.{Env, M, call, pure, ◌>>=◌, query}
use paved.Controller.Freeze.{SloReport, reason_within_budget, reason_budget_exhausted}

abbrev pub reason_fast_burn : String
reason_fast_burn = "FastBurn"

abbrev pub reason_no_traffic : String
reason_no_traffic = "NoTraffic"

abbrev pub reason_prometheus_unavailable : String
reason_prometheus_unavailable = "PrometheusUnavailable"

abbrev pub reason_unusable_data : String
reason_unusable_data = "UnusableData"

abbrev pub reason_invalid_spec : String
reason_invalid_spec = "InvalidSpec"

abbrev pub burn_rate_window : String
burn_rate_window = "1h"

module _ (go : Runtime) where
  open go use {Float, of_rat, le_float, format_float, format_general}

  unfoldable pub slo_condition : ServiceClaim → Status → String → String → Condition
  slo_condition claim status reason text = record {
    type = condition_slo_healthy;
    status = status;
    reason = reason;
    message = text;
    observed_generation = claim.generation;
  }

  -- A report with nothing measured.
  unfoldable pub unmeasured : ServiceClaim → String → String → SloReport go
  unfolding slo_condition
  unmeasured claim reason text = record {
    condition = slo_condition claim condition_unknown reason text;
    measured = false;
    remaining = of_rat (rat 0 1);
    budget_remaining = "";
    burn_rate_1h = "";
  }

  -- A report of a measured budget, with the last hour's burn rate if there is one.
  unfoldable pub measured :
      ServiceClaim → BudgetUse go → String → Status → String → String → SloReport go
  unfolding slo_condition
  measured claim use_of burn status reason text = record {
    condition = slo_condition claim status reason text;
    measured = true;
    remaining = use_of.remaining;
    budget_remaining = format_percent go use_of.remaining;
    burn_rate_1h = burn;
  }

  exhausted_text : ServiceClaim → BudgetUse go → String
  exhausted_text claim use_of = concat (
      "The "
      ∷ claim.spec.slo.window
      ∷ " error budget is used up: "
      ∷ format_float use_of.consumed 2
      ∷ "x of it spent"
      ∷ [])

  -- The last `switch`, with a burn rate over the last hour, and without one.
  unfoldable pub with_hour : ServiceClaim → Float → BudgetUse go → Float → SloReport go
  unfolding measured exhausted_text
  with_hour claim fast_burn use_of hour =
      let burn = format_burn_rate go hour in
      if le_float use_of.remaining (of_rat (rat 0 1))
      then measured claim use_of burn condition_false reason_budget_exhausted
          (exhausted_text claim use_of)
      else if le_float fast_burn hour
      then measured claim use_of burn condition_false reason_fast_burn (
          concat (
            "The last hour burned the error budget at "
            ∷ burn
            ∷ "x, at or above the "
            ∷ format_general fast_burn
            ∷ "x page threshold"
            ∷ []))
      else measured claim use_of burn condition_true reason_within_budget (
          concat (
            format_percent go use_of.remaining
            ∷ " of the "
            ∷ claim.spec.slo.window
            ∷ " error budget left; 1h burn rate "
            ∷ burn
            ∷ "x"
            ∷ []))

  unfoldable pub without_hour : ServiceClaim → BudgetUse go → SloReport go
  unfolding measured exhausted_text
  without_hour claim use_of =
      if le_float use_of.remaining (of_rat (rat 0 1))
      then measured claim use_of "" condition_false reason_budget_exhausted
          (exhausted_text claim use_of)
      else measured claim use_of "" condition_true reason_within_budget (
          concat (
            format_percent go use_of.remaining
            ∷ " of the "
            ∷ claim.spec.slo.window
            ∷ " error budget left; no requests in the last hour"
            ∷ []))

  -- From the two ratios, of which the last hour's may have no data. An unusable burn rate is
  -- reported after the budget was measured.
  unfoldable pub report_of : ServiceClaim → Rat → Float → Float → Option Float → SloReport go
  unfolding with_hour without_hour unmeasured measured
  report_of claim budget fast_burn window_ratio hour =
      elim (spend_budget go window_ratio (some budget)) [
        | err e ↦ unmeasured claim reason_unusable_data (message e)
        | ok use_of ↦ elim hour [
          | none ↦ without_hour claim use_of
          | some ratio ↦ elim (burn_rate go ratio (some budget)) [
            | err e ↦ measured claim use_of "" condition_unknown reason_unusable_data (message e)
            | ok rate_1h ↦ with_hour claim fast_burn use_of rate_1h
          ]
        ]
      ]

  no_traffic_text : ServiceClaim → String
  no_traffic_text claim = concat (
      "No requests in the last " ∷ claim.spec.slo.window ∷ ", so there is no error ratio to measure"
      ∷ [])

  -- The answer to the second query, after the first had data (`some`) or none.
  unfoldable pub after_hour :
      ServiceClaim → Rat → Float → Option Float → Result Float → SloReport go
  unfolding report_of unmeasured no_traffic_text
  after_hour claim budget fast_burn none (ok hour) =
      unmeasured claim reason_no_traffic (no_traffic_text claim)
  after_hour claim budget fast_burn (some ratio) (ok hour) =
      report_of claim budget fast_burn ratio (some hour)
  after_hour claim budget fast_burn none (err e) =
      if is_no_data e
      then unmeasured claim reason_no_traffic (no_traffic_text claim)
      else unmeasured claim reason_prometheus_unavailable
          (concat ("Could not read the " ∷ burn_rate_window ∷ " burn rate: " ∷ message e ∷ []))
  after_hour claim budget fast_burn (some ratio) (err e) =
      if is_no_data e
      then report_of claim budget fast_burn ratio none
      else unmeasured claim reason_prometheus_unavailable
          (concat ("Could not read the " ∷ burn_rate_window ∷ " burn rate: " ∷ message e ∷ []))

  module _ (env : Env go) where
    unfoldable pub ask : String → M (Result Float)
    ask q = call (query q) (λ h. env.query_answer h q)

    unfoldable pub ask_hour : ServiceClaim → Rat → Float → Option Float → M (SloReport go)
    unfolding ask after_hour
    ask_hour claim budget fast_burn window_ratio =
        ask (record_query go claim burn_rate_window) >>= λ answer.
        pure (after_hour claim budget fast_burn window_ratio answer)

    -- The answer to the first query. A second one is not made if it failed.
    unfoldable pub after_window : ServiceClaim → Rat → Float → Result Float → M (SloReport go)
    unfolding ask_hour unmeasured
    after_window claim budget fast_burn (ok ratio) = ask_hour claim budget fast_burn (some ratio)
    after_window claim budget fast_burn (err e) =
        if is_no_data e
        then ask_hour claim budget fast_burn none
        else pure (
            unmeasured claim reason_prometheus_unavailable (
              concat (
                "Could not read the " ∷ claim.spec.slo.window ∷ " error ratio: " ∷ message e ∷ [])))

    unfoldable pub ask_window : ServiceClaim → Rat → Float → String → M (SloReport go)
    unfolding ask after_window
    ask_window claim budget fast_burn q = ask q >>= after_window claim budget fast_burn

    unfoldable pub evaluate_slo : Bool → ServiceClaim → M (SloReport go)
    unfolding ask_window unmeasured
    evaluate_slo prometheus claim =
        if not prometheus
        then pure
            (unmeasured claim reason_prometheus_unavailable "No Prometheus client is configured")
        else elim (error_budget go claim.spec.slo.objective) [
          | err e ↦ pure (unmeasured claim reason_invalid_spec (message e))
          | ok budget ↦ elim (rate go fastest_alert) [
            | err e ↦ pure (unmeasured claim reason_invalid_spec (message e))
            | ok fast_burn ↦
                elim (error_ratio_expr go claim.spec.sli (namespace_name claim)
                  claim.spec.slo.window) [
                    | err e ↦ pure (unmeasured claim reason_invalid_spec (message e))
                    | ok q ↦ ask_window claim budget fast_burn q
                  ]
          ]
        ]
