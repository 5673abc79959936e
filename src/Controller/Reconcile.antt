-- ===== src/Controller/Reconcile.antt =====
-- Reconcile of internal/controller/serviceclaim_controller.go.
pub mod Quiet
pub mod Conditions
pub mod Laws
pub mod Invalid
pub mod Frozen
use paved.Base.{
  ℕ, String, Bool, true, false, not, List, [], ◌∷◌, ◌++◌, Option, none, some, Result, ok, err, wrap,
  Error, message, is_not_found, join_errors, concat, itoa, length, contains, if◌then◌else◌,
}
use paved.Api.{
  ServiceClaim, Condition, Status, condition_true, condition_false, condition_unknown,
  condition_resources_synced,
}
use paved.Api.Conditions.{Meta}
use paved.Runtime.{Runtime}
use paved.Builders.Objects.{Object}
use paved.Builders.Names.{namespace_name}
use paved.Builders.Set.{build}
use paved.Controller.Env.{
  Env, Reconciler, M, call, pure, ◌>>=◌, get_claim, get_rollout, Rollout, Reader,
}
use paved.Controller.Freeze.{SloReport, freeze_condition, ready_condition}
use paved.Controller.SloStatus.{unmeasured, evaluate_slo, reason_invalid_spec}
use paved.Controller.Storage.{StorageReport, evaluate_storage, reader_of}
use paved.Controller.Drift.{Applied, apply_objects, report_drift, in_sync_at_generation}
use paved.Controller.Status.{status_patch, send_status, set_finalizer}
use paved.Controller.Finalize.{Outcome, done, failed, finalizer, finalize}

abbrev pub reason_applied : String
reason_applied = "Applied"

abbrev pub reason_apply_failed : String
reason_apply_failed = "ApplyFailed"

-- sloRefreshInterval, in seconds.
abbrev pub refresh_interval : ℕ
refresh_interval = 60

-- &rolloutsv1alpha1.Rollout{}.
abbrev pub no_rollout : Rollout
no_rollout = record { generation = 0; observed_generation = ""; phase = ""; message = "" }

synced_text : ℕ → ℕ → String
synced_text applied total =
    concat ("Applied " ∷ itoa applied ∷ " of " ∷ itoa total ∷ " managed resources" ∷ [])

unfoldable pub synced_condition : ServiceClaim → ℕ → ℕ → Option Error → Condition
unfolding synced_text
synced_condition claim applied total none = record {
  type = condition_resources_synced;
  status = condition_true;
  reason = reason_applied;
  message = synced_text applied total;
  observed_generation = claim.generation;
}
synced_condition claim applied total (some e) = record {
  type = condition_resources_synced;
  status = condition_false;
  reason = reason_apply_failed;
  message = concat (synced_text applied total ∷ ": " ∷ message e ∷ []);
  observed_generation = claim.generation;
}

unfoldable pub invalid_condition : ServiceClaim → Error → Condition
invalid_condition claim e = record {
  type = condition_resources_synced;
  status = condition_false;
  reason = reason_invalid_spec;
  message = message e;
  observed_generation = claim.generation;
}

abbrev option_list {ℓ} : {A : Type ℓ} → Option A → List A
option_list none = []
option_list (some a) = a ∷ []

-- What reading the Rollout gave: the zero Rollout with an error, or none.
pub record RolloutRead : Type 0 where
  pub rollout : Rollout
  pub error : Option Error

abbrev rollout_read : String → Result Rollout → RolloutRead
rollout_read key (ok r) = record { rollout = r; error = none }
rollout_read key (err e) = record {
  rollout = no_rollout;
  error = some (wrap (concat ("getting Rollout " ∷ key ∷ ": " ∷ [])) e);
}

-- A Rollout that does not exist yet is no error of the reconcile.
unfoldable pub unless_not_found : Option Error → Option Error
unless_not_found none = none
unless_not_found (some e) = if is_not_found e then none else some e

abbrev outcome_of : Option Error → Outcome
outcome_of none = record { requeue_after = some refresh_interval; error = none }
outcome_of (some e) = failed e

-- The returns after the status was applied, with or without an error.
unfoldable pub last_outcome : Option Error → Option Error → Option Error → Outcome
last_outcome apply_err rollout_err (some e) = record {
  requeue_after = none;
  error = join_errors (join_errors apply_err rollout_err) (some e);
}
last_outcome apply_err rollout_err none = outcome_of (join_errors apply_err rollout_err)

module _ (go : Runtime) (meta : Meta) (claim : ServiceClaim) where
  -- The conditions of a reconcile, in the order in which they are set.
  unfoldable pub conditions_of :
      ℕ → Applied → SloReport go → StorageReport → RolloutRead → List Condition
  conditions_of total applied report storage rollout =
      let synced = synced_condition claim applied.count total applied.error in
      synced
        ∷ report.condition
        ∷ freeze_condition go meta claim report
        ∷ option_list storage.condition
      ++ ready_condition claim synced storage.condition rollout.rollout rollout.error ∷ []

module _ (go : Runtime) (meta : Meta) (env : Env go) (r : Reconciler) (claim : ServiceClaim) where
  -- A spec that cannot be built: nothing is applied, and the status says so. No Rollout is read; the
  -- source passes nil, which is not looked at, since the resources are not synced.
  unfoldable pub report_invalid : Error → M Outcome
  report_invalid e =
      let invalid = invalid_condition claim e in
      let report =
        unmeasured go claim reason_invalid_spec
          "The SLO can't be evaluated until the spec is valid" in
      send_status go env claim (
        status_patch go meta claim 0 report none (
          invalid
          ∷ report.condition
          ∷ freeze_condition go meta claim report
          ∷ ready_condition claim invalid none no_rollout none
          ∷ []))
      >>= λ answer. pure (record { requeue_after = none; error = answer })

  unfoldable pub read_rollout : Option Error → M RolloutRead
  read_rollout (some e) = pure (record { rollout = no_rollout; error = none })
  read_rollout none =
      call (get_rollout (reader_of r) (namespace_name claim) claim.name)
        (λ h. env.rollout_answer h (reader_of r) (namespace_name claim) claim.name)
      >>= λ answer.
          pure (rollout_read (concat (namespace_name claim ∷ "/" ∷ claim.name ∷ [])) answer)

  -- From the applied objects on.
  unfoldable pub report_applied : ℕ → Applied → M Outcome
  unfolding read_rollout conditions_of
  report_applied total applied = evaluate_slo go env r.prometheus claim >>= λ report.
      evaluate_storage go env r claim >>= λ storage. read_rollout applied.error >>= λ rollout.
      send_status go env claim (
        status_patch go meta claim applied.count report storage.status
          (conditions_of go meta claim total applied report storage rollout))
      >>= λ answer. pure (last_outcome applied.error (unless_not_found rollout.error) answer)

  unfoldable pub reconcile_objects : List Object → M Outcome
  unfolding report_applied
  reconcile_objects objects = apply_objects go env r objects >>= λ applied.
      (if in_sync_at_generation meta claim
        then report_drift go env r applied.corrections
        else pure tt)
      >>= λ _. report_applied (length objects) applied

  unfoldable pub reconcile_spec : M Outcome
  unfolding report_invalid reconcile_objects
  reconcile_spec = elim (build go claim r.storage) [
    | err e ↦ report_invalid e
    | ok objects ↦ reconcile_objects objects
  ]

  -- From the claim on: a claim that is being deleted is finalized, and another gets the finalizer.
  unfoldable pub reconcile_claim : M Outcome
  unfolding reconcile_spec
  reconcile_claim =
      if claim.deleting
      then finalize go env claim
      else if contains claim.finalizers finalizer
      then reconcile_spec
      else (set_finalizer go env claim true
          >>= elim [ some e ↦ pure (failed e) | none ↦ reconcile_spec ])

module _ (go : Runtime) (meta : Meta) (env : Env go) (r : Reconciler) where
  unfoldable pub after_get_claim : String → Result ServiceClaim → M Outcome
  unfolding reconcile_claim
  after_get_claim key (ok claim) = reconcile_claim go meta env r claim
  after_get_claim key (err e) =
      if is_not_found e
      then pure done
      else pure (failed (wrap (concat ("getting ServiceClaim " ∷ key ∷ ": " ∷ [])) e))

  unfoldable pub reconcile : String → String → M Outcome
  unfolding after_get_claim
  reconcile namespace name =
      call (get_claim namespace name) (λ h. env.claim_answer h namespace name)
      >>= after_get_claim (concat (namespace ∷ "/" ∷ name ∷ []))
