-- ===== src/Examples/Reconciles.antt =====
-- Runs of the reconciler.
use paved.Base.{
  String, true, false, List, [], ◌∷◌, ◌++◌, none, some, Result, ok, err, Error, ◌≡◌, refl, ap, ◌⊎◌,
  ◌==◌, itoa, plain, contains,
}
use paved.Api.{ServiceClaim, condition_ready, condition_deploys_frozen}
use paved.Api.Conditions.{holds}
use paved.Builders.Objects.{Object}
use paved.Builders.Workload.{build_namespace}
use paved.Builders.Names.{namespace_name}
use paved.Controller.Env.{Rollout, Namespace, Request, StatusPatch, apply_status, get_rollout}
use paved.Controller.Storage.Provided.{IsStorageThere}
use paved.Controller.Freeze.Laws.{is_exhausted}
use paved.Controller.Finalize.{Outcome, finalizer, finalize}
use paved.Controller.Finalize.Laws.{deletions, namespace_seen, finalize-deletions}
use paved.Controller.Watch.{belongs_to}
use paved.Controller.Reconcile.{reconcile_claim}
use paved.Controller.Reconcile.Invalid.{reconcile_claim-invalid}
use paved.Controller.Reconcile.Frozen.{report_read, reconcile_objects-holds}
use paved.Builders.Set.{build}
use paved.Builders.Monitoring.{build_prometheus_rule}
use paved.Slo.Rules.{recording_rules, recording_rules_from}
use paved.Slo.Alerts.{alert_rules}
use paved.Webhook.{validate_update, rejected, frozen_error}
use paved.Webhook.Outcome.{HasReason}
use paved.Controller.Drift.Laws.{sent, accepted, Sends, apply_objects-Sends}
use paved.Controller.Drift.{
  apply_objects, apply_one, controller_ownership, correction_of, in_sync_at_generation,
  live_ownership, ownership_of, report_drift, same_ownership,
}
use paved.Controller.Freeze.{
  freeze_condition, freeze_decision, ready_condition, ready_decision, rollout_decision,
  rollout_or_error,
}
use paved.Controller.Reconcile.{
  last_outcome, unless_not_found, conditions_of, read_rollout, reconcile_objects, report_applied,
  synced_condition,
}
use paved.Controller.SloStatus.{
  after_hour, after_window, ask, ask_hour, ask_window, evaluate_slo, measured, report_of, with_hour,
}
use paved.Controller.Status.{conversion_error, send_status, set_conditions, status_patch}
use paved.Controller.Storage.{evaluate_storage, reader_of}
use paved.Runtime.{max_float, min_float}
use paved.Slo.Alerts.{rate}
use paved.Slo.Budget.{
  budget_of_percent, burn_rate, error_budget, is_decimal, is_decimal_from, set_string,
  set_string_from, spend_budget,
}
use paved.Slo.Rules.{error_ratio_expr, good_status_pattern}
use paved.Controller.Reconcile.Laws.Success.{IsRolloutKnown, asks_rollout, reconcile_objects-none}
use paved.Controller.Reconcile.Quiet.{patches}
use paved.Controller.Reconcile.Laws.{applied_at, after_drift, patch_at, reconcile_objects-ready}
use paved.Examples.Numbers.{go}
use paved.Examples.Claims.{
  newest_first, newest_first-MetaLaws, claim_with, shortlink, world, reconciler,
}

abbrev objects : List Object
objects = build_namespace shortlink ∷ []

abbrev patch : StatusPatch
patch =
    patch_at go newest_first world reconciler shortlink 1
      (applied_at go newest_first world reconciler shortlink objects [])
      (after_drift go newest_first world reconciler shortlink objects [])

patch_sent :
    patches (reconcile_objects go newest_first world reconciler shortlink objects []).1 ≡ patch ∷ []
unfolding reconcile_objects apply_objects live_ownership apply_one correction_of same_ownership
    controller_ownership ownership_of in_sync_at_generation report_drift report_applied evaluate_slo
    ask_window ask after_window ask_hour after_hour report_of spend_budget burn_rate with_hour
    measured evaluate_storage read_rollout send_status conversion_error status_patch conditions_of
    set_conditions synced_condition freeze_condition freeze_decision ready_condition ready_decision
    rollout_or_error rollout_decision error_budget budget_of_percent set_string set_string_from
    is_decimal is_decimal_from error_ratio_expr good_status_pattern rate max_float min_float itoa
patch_sent = refl

patch_ready : holds (newest_first.find patch.conditions condition_ready) ≡ true
unfolding reconcile_objects apply_objects live_ownership apply_one correction_of same_ownership
    controller_ownership ownership_of in_sync_at_generation report_drift report_applied evaluate_slo
    ask_window ask after_window ask_hour after_hour report_of spend_budget burn_rate with_hour
    measured evaluate_storage read_rollout send_status conversion_error status_patch conditions_of
    set_conditions synced_condition freeze_condition freeze_decision ready_condition ready_decision
    rollout_or_error rollout_decision error_budget budget_of_percent set_string set_string_from
    is_decimal is_decimal_from error_ratio_expr good_status_pattern rate max_float min_float itoa
patch_ready = refl

-- The first reconcile of a claim: Ready, and with a budget that is used up.
reconcile_objects-ready_example :
    (sent (reconcile_objects go newest_first world reconciler shortlink objects []).1
      ≡ [] ++ objects)
    × ((k : List Request) × (ro : Rollout) × ((reconcile_objects go newest_first world reconciler
            shortlink objects []).1
          ≡ apply_status patch
            ∷ get_rollout (reader_of reconciler) (namespace_name shortlink) shortlink.name
            ∷ k)
        × (accepted world.apply_answer k ≡ [] ++ objects)
        × (world.rollout_answer k (reader_of reconciler) (namespace_name shortlink) shortlink.name
            ≡ ok ro)
        × (ro.observed_generation ≡ itoa ro.generation)
        × (ro.phase ≡ "Healthy")
        × IsStorageThere go world reconciler shortlink k)
reconcile_objects-ready_example =
    reconcile_objects-ready go newest_first world reconciler shortlink objects []
      newest_first-MetaLaws patch patch_sent patch_ready

exhausted :
    is_exhausted go (report_read go newest_first world reconciler shortlink objects []) ≡ true
unfolding reconcile_objects apply_objects live_ownership apply_one correction_of same_ownership
    controller_ownership ownership_of in_sync_at_generation report_drift report_applied evaluate_slo
    ask_window ask after_window ask_hour after_hour report_of spend_budget burn_rate with_hour
    measured evaluate_storage read_rollout send_status conversion_error status_patch conditions_of
    set_conditions synced_condition freeze_condition freeze_decision ready_condition ready_decision
    rollout_or_error rollout_decision error_budget budget_of_percent set_string set_string_from
    is_decimal is_decimal_from error_ratio_expr good_status_pattern rate max_float min_float itoa
exhausted = refl

-- The claim as the API server stores that status, and its next image.
abbrev stored : ServiceClaim
stored = claim_with "registry/shortlink:1" patch.conditions false false

abbrev next : ServiceClaim
next = claim_with "registry/shortlink:2" patch.conditions false false

other_image : ¬ (stored.spec.image ≡ next.spec.image)
other_image e = let differs = ap (λ i. i == "registry/shortlink:2") e in cc

no_reason : (reason : String) → ¬ HasReason stored next reason
no_reason reason (_, _, changed) = changed refl

reconcile_objects-holds_example :
    (validate_update go newest_first true stored next
      (ok (record { username = "ci"; dry_run = none }))).verdict
    ≡ rejected (frozen_error go stored)
reconcile_objects-holds_example =
    reconcile_objects-holds go newest_first world reconciler shortlink objects []
      newest_first-MetaLaws patch true stored next (ok (record { username = "ci"; dry_run = none }))
      patch_sent exhausted refl other_image no_reason

apply_objects-Sends_example :
    Sends go world reconciler objects
      (apply_objects go world reconciler objects []).0
      []
      (apply_objects go world reconciler objects []).1
apply_objects-Sends_example = apply_objects-Sends go world reconciler objects []

-- A claim that is being deleted, and its finalizer's steps.
abbrev leaving : ServiceClaim
leaving = claim_with "registry/shortlink:1" [] false true

finalize-deletions_example :
    (deletions (finalize go world leaving []).1 ≡ [])
    ⊎ ((ns : Namespace) × (namespace_seen go world leaving [] ≡ ok ns)
        × (belongs_to ns.labels leaving ≡ true)
        × (ns.deleting ≡ false)
        × (contains leaving.finalizers finalizer ≡ true)
        × (deletions (finalize go world leaving []).1 ≡ ns.name ∷ []))
finalize-deletions_example = finalize-deletions go world leaving []

-- A claim whose objective is no percentage.
abbrev misspelt : ServiceClaim
misspelt = record shortlink {
  spec = record shortlink.spec { slo = record { objective = "three nines"; window = "28d" } };
}

abbrev error_or : {A : Type 0} → Error → Result A → Error
error_or d (ok a) = d
error_or d (err e) = e

abbrev why : Error
why = error_or (plain "") (build go misspelt none)

not_built : build go misspelt none ≡ err why
unfolding build build_prometheus_rule recording_rules recording_rules_from alert_rules
    reconcile_objects apply_objects live_ownership apply_one correction_of same_ownership
    controller_ownership ownership_of in_sync_at_generation report_drift report_applied evaluate_slo
    ask_window ask after_window ask_hour after_hour report_of spend_budget burn_rate with_hour
    measured evaluate_storage read_rollout send_status conversion_error status_patch conditions_of
    set_conditions synced_condition freeze_condition freeze_decision ready_condition ready_decision
    rollout_or_error rollout_decision error_budget budget_of_percent set_string set_string_from
    is_decimal is_decimal_from error_ratio_expr good_status_pattern rate max_float min_float itoa
not_built = refl

reconcile_claim-invalid_example :
    (sent (reconcile_claim go newest_first world reconciler misspelt []).1 ≡ [])
    × ((patches (reconcile_claim go newest_first world reconciler misspelt []).1 ≡ [])
        ⊎ ((p : StatusPatch) × (patches
                (reconcile_claim go newest_first world reconciler misspelt []).1
              ≡ p ∷ [])
            × (p.managed_resources ≡ none)
            × (holds (newest_first.find p.conditions condition_ready) ≡ false)
            × (holds (newest_first.find p.conditions condition_deploys_frozen)
                ≡ holds (newest_first.find misspelt.status.conditions condition_deploys_frozen))))
reconcile_claim-invalid_example =
    reconcile_claim-invalid go newest_first world reconciler misspelt newest_first-MetaLaws why []
      refl refl not_built

abbrev outcome_seen : Outcome
outcome_seen = (reconcile_objects go newest_first world reconciler shortlink objects []).0

no_error : outcome_seen.error ≡ none
unfolding reconcile_objects apply_objects live_ownership apply_one correction_of same_ownership
    controller_ownership ownership_of in_sync_at_generation report_drift report_applied evaluate_slo
    ask_window ask after_window ask_hour after_hour report_of spend_budget burn_rate with_hour
    measured evaluate_storage read_rollout send_status conversion_error status_patch conditions_of
    set_conditions synced_condition freeze_condition freeze_decision ready_condition ready_decision
    rollout_or_error rollout_decision error_budget budget_of_percent set_string set_string_from
    is_decimal is_decimal_from error_ratio_expr good_status_pattern rate max_float min_float itoa
    last_outcome unless_not_found
no_error = refl

reconcile_objects-none_example :
    (sent (reconcile_objects go newest_first world reconciler shortlink objects []).1
      ≡ [] ++ objects)
    × ((k : List Request) × (p : StatusPatch) × ((reconcile_objects go newest_first world reconciler
            shortlink objects []).1
          ≡ apply_status p ∷ asks_rollout go newest_first world reconciler shortlink k)
        × (accepted world.apply_answer k ≡ [] ++ objects)
        × IsRolloutKnown go newest_first world reconciler shortlink k
        × (world.status_answer (asks_rollout go newest_first world reconciler shortlink k) ≡ none)
        × (p.name ≡ shortlink.name)
        × (p.namespace ≡ shortlink.namespace))
    × (outcome_seen.requeue_after ≡ some 60)
reconcile_objects-none_example =
    reconcile_objects-none go newest_first world reconciler shortlink objects [] no_error
