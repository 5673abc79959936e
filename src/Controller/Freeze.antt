-- ===== src/Controller/Freeze.antt =====
-- internal/controller/freeze.go: whether a claim's deploys are frozen, and whether it is ready.
pub mod Laws
pub mod Ready
use paved.Base.{
  ℕ, String, Bool, true, false, not, ◌&&◌, List, [], ◌∷◌, Option, none, some, Error, message,
  is_not_found, concat, itoa, if◌then◌else◌, ◌==◌, rat,
}
use paved.Api.{
  ServiceClaim, Condition, Status, condition_true, condition_false, condition_unknown,
  condition_deploys_frozen, condition_ready,
}
use paved.Api.Conditions.{Meta, is_true, holds}
use paved.Runtime.{Runtime, lt_float}
use paved.Slo.Budget.{format_percent}
use paved.Controller.Env.{Rollout}

abbrev pub reason_budget_recovering : String
reason_budget_recovering = "BudgetRecovering"

abbrev pub reason_budget_unknown : String
reason_budget_unknown = "BudgetUnknown"

abbrev pub reason_budget_exhausted : String
reason_budget_exhausted = "BudgetExhausted"

abbrev pub reason_within_budget : String
reason_within_budget = "WithinBudget"

abbrev pub reason_rollout_healthy : String
reason_rollout_healthy = "RolloutHealthy"

abbrev pub reason_rollout_progressing : String
reason_rollout_progressing = "RolloutProgressing"

abbrev pub reason_rollout_degraded : String
reason_rollout_degraded = "RolloutDegraded"

abbrev pub reason_rollout_not_found : String
reason_rollout_not_found = "RolloutNotFound"

abbrev pub reason_rollout_unreadable : String
reason_rollout_unreadable = "RolloutUnreadable"

-- sloReport. `budget_remaining` and `burn_rate_1h` are empty when unknown.
pub record SloReport (go : Runtime) : Type 0 where
  pub condition : Condition
  pub measured : Bool
  pub remaining : go.Float
  pub budget_remaining : String
  pub burn_rate_1h : String

module _ (go : Runtime) where
  open go use {Float, of_rat, le_float}

  -- UnfreezeBudget.
  abbrev pub unfreeze_budget : Float
  unfreeze_budget = of_rat (rat 5 100)

  -- The decision of freezeCondition: the status, the reason and the message, from whether deploys
  -- were frozen.
  unfoldable pub freeze_decision : Bool → String → SloReport go → Status × String × String
  freeze_decision was_frozen window report =
      let unfreeze_at = format_percent go unfreeze_budget in
      if not report.measured && was_frozen
      then (
        condition_true,
        reason_budget_unknown,
        concat (
            "The error budget can't be measured (" ∷ report.condition.reason
            ∷ "), so deploys stay frozen until it can" ∷ []),
      )
      else if not report.measured
      then (
        condition_false,
        reason_budget_unknown,
        concat (
            "The error budget can't be measured (" ∷ report.condition.reason
            ∷ "); deploys are not frozen" ∷ []),
      )
      else if le_float report.remaining (of_rat (rat 0 1))
      then (
        condition_true,
        reason_budget_exhausted,
        concat (
            "No " ∷ window ∷ " error budget left; image changes are rejected until " ∷ unfreeze_at
            ∷ " of it is back" ∷ []),
      )
      else if was_frozen && lt_float go report.remaining unfreeze_budget
      then (
        condition_true,
        reason_budget_recovering,
        concat (
            report.budget_remaining ∷ " of the " ∷ window
            ∷ " error budget is back; image changes stay frozen until " ∷ unfreeze_at ∷ []),
      )
      else (
        condition_false,
        reason_within_budget,
        concat (report.budget_remaining ∷ " of the " ∷ window ∷ " error budget left" ∷ []),
      )

  unfoldable pub freeze_condition : Meta → ServiceClaim → SloReport go → Condition
  unfolding freeze_decision
  freeze_condition meta claim report =
      let was_frozen = holds (meta.find claim.status.conditions condition_deploys_frozen) in
      let (status, reason, text) = freeze_decision was_frozen claim.spec.slo.window report in
      record {
        type = condition_deploys_frozen;
        status = status;
        reason = reason;
        message = text;
        observed_generation = claim.generation;
      }

unfoldable pub rollout_phase_message : Rollout → String
rollout_phase_message rollout =
    let phase = if rollout.phase == "" then "not reporting a phase yet" else rollout.phase in
    if rollout.message == ""
    then concat ("The Rollout is " ∷ phase ∷ [])
    else concat ("The Rollout is " ∷ phase ∷ ": " ∷ rollout.message ∷ [])

-- The cases that read the Rollout.
unfoldable pub rollout_decision : Rollout → Status × String × String
rollout_decision rollout =
    if not (rollout.observed_generation == itoa rollout.generation)
    then (
      condition_false,
      reason_rollout_progressing,
      concat (
          "Argo Rollouts has not yet observed generation "
          ∷ itoa rollout.generation
          ∷ " of the Rollout"
          ∷ []),
    )
    else if rollout.phase == "Healthy"
    then (condition_true, reason_rollout_healthy, "The Rollout is healthy")
    else if rollout.phase == "Degraded"
    then (condition_false, reason_rollout_degraded, rollout_phase_message rollout)
    else (condition_false, reason_rollout_progressing, rollout_phase_message rollout)

-- The cases of an error from reading the Rollout, and those without.
unfoldable pub rollout_or_error : Rollout → Option Error → Status × String × String
rollout_or_error rollout none = rollout_decision rollout
rollout_or_error rollout (some e) =
    if is_not_found e
    then (condition_false, reason_rollout_not_found, "The Rollout does not exist yet")
    else (condition_unknown, reason_rollout_unreadable, message e)

-- Unknown storage makes readiness unknown, and False storage makes it False.
abbrev storage_status : Status → Status
storage_status condition_unknown = condition_unknown
storage_status condition_false = condition_false
storage_status condition_true = condition_false

unfoldable pub ready_decision :
    Condition → Option Condition → Rollout → Option Error → Status × String × String
ready_decision synced none rollout get_err =
    if not (is_true synced.status)
    then (
      condition_false,
      synced.reason,
      concat ("The managed resources are not all applied: " ∷ synced.message ∷ []),
    )
    else rollout_or_error rollout get_err
ready_decision synced (some storage) rollout get_err =
    if not (is_true synced.status)
    then (
      condition_false,
      synced.reason,
      concat ("The managed resources are not all applied: " ∷ synced.message ∷ []),
    )
    else if not (is_true storage.status)
    then (
      storage_status storage.status,
      storage.reason,
      concat ("The claim's storage is not ready: " ∷ storage.message ∷ []),
    )
    else rollout_or_error rollout get_err

unfoldable pub ready_condition :
    ServiceClaim → Condition → Option Condition → Rollout → Option Error → Condition
unfolding ready_decision rollout_or_error rollout_decision
ready_condition claim synced storage rollout get_err =
    let (status, reason, text) = ready_decision synced storage rollout get_err in
    record {
      type = condition_ready;
      status = status;
      reason = reason;
      message = text;
      observed_generation = claim.generation;
    }
