-- ===== src/Examples/Freezes.antt =====
-- Runs of the freeze, of the webhook, and of readings of an SLO and of a claim's storage.
use Prim.Native.String
use paved.Webhook.Text.Laws.{IsCutTo, event_note-len}
use paved.Webhook.Laws.{note_text}
use paved.Base.{
  ℕ, String, Bool, true, false, not, [], ◌∷◌, Option, none, some, Result, ok, err, rat, ◌≡◌, refl,
  ◌↔◌, ◌⊎◌, ◌≤◌, arith, Error, contains, All, itoa,
}
use paved.Api.{ServiceClaim, Condition, condition_true, condition_unknown, condition_deploys_frozen}
use paved.Api.Conditions.{is_true}
use paved.Builders.Names.{namespace_name}
use paved.Runtime.{lt_float}
use paved.Slo.Budget.{
  error_budget, budget_of_percent, set_string, set_string_from, is_decimal, is_decimal_from,
}
use paved.Slo.Rules.{error_ratio_expr, good_status_pattern}
use paved.Slo.Alerts.{fastest_alert, rate}
use paved.Controller.Env.{Rollout, decoded}
use paved.Controller.Freeze.{SloReport, ready_condition}
use paved.Controller.Freeze.Laws.{
  frozen_after, is_exhausted, is_recovered, frozen_over, freeze_transitions, freeze_lasts,
}
use paved.Controller.Freeze.Ready.{StorageAllows, ready_iff}
use paved.Controller.SloStatus.{evaluate_slo}
use paved.Controller.SloStatus.Laws.{Consistent, evaluate_slo-Consistent, evaluate_slo-exhausted}
use paved.Controller.Finalize.{finalizer, finalize}
use paved.Controller.Finalize.Laws.{releases, namespace_seen, IsReleasable, finalize-releases}
use paved.Controller.Storage.{ObservedAckObject, storage_decision}
use paved.Controller.Storage.Laws.{IsProvisioned, storage_decision-true}
use paved.Webhook.{AdmissionRequest, validate_update, event_note}
use paved.Webhook.Outcome.{HasReason, IsAdmitted, IsHeld, is_recorded}
use paved.Webhook.Laws.{validate_update-admits, validate_update-records}
use paved.Examples.Numbers.{go, go-FloatLaws}
use paved.Examples.Claims.{newest_first, claim_with, shortlink, world}

-- Reports: measured, with this many ten-thousandths of the budget left, and not measured.
abbrev report : Bool → ℕ → SloReport go
report measured left = record {
  condition = record {
    type = "SLOHealthy";
    status = condition_unknown;
    reason = "UnusableData";
    message = "";
    observed_generation = 1;
  };
  measured = measured;
  remaining = some left;
  budget_remaining = "";
  burn_rate_1h = "";
}

freeze_transitions_example :
    (frozen_after go false "28d" (report true 0) ≡ is_exhausted go (report true 0))
    × (frozen_after go true "28d" (report true 0) ≡ not (is_recovered go (report true 0)))
freeze_transitions_example = freeze_transitions go "28d" (report true 0)

freeze_lasts_example :
    frozen_over go false "28d" (report true 0 ∷ report true 499 ∷ report false 0 ∷ []) ≡ true
unfolding lt_float
freeze_lasts_example =
    freeze_lasts go false "28d" (report true 0) (report true 499 ∷ report false 0 ∷ []) refl
      (refl, (refl, tt))

abbrev condition : String → Condition
condition type = record {
  type = type;
  status = condition_true;
  reason = "";
  message = "";
  observed_generation = 3;
}

abbrev healthy : Rollout
healthy = record { generation = 2; observed_generation = "2"; phase = "Healthy"; message = "" }

abbrev no_error : Option Error
no_error = none

ready_iff_example :
    (is_true (ready_condition shortlink (condition "ResourcesSynced") none healthy no_error).status
      ≡ true)
    ↔ ((is_true condition_true ≡ true)
        × StorageAllows none
        × (no_error ≡ none)
        × (healthy.observed_generation ≡ itoa 2)
        × (healthy.phase ≡ "Healthy"))
ready_iff_example = ready_iff shortlink (condition "ResourcesSynced") none healthy no_error

evaluate_slo-Consistent_example : Consistent go (evaluate_slo go world true shortlink []).0
evaluate_slo-Consistent_example = evaluate_slo-Consistent go world shortlink [] true

abbrev or_empty : Result String → String
or_empty (ok s) = s
or_empty (err e) = ""

abbrev ratio_query : String
ratio_query = or_empty (error_ratio_expr go shortlink.spec.sli (namespace_name shortlink) "28d")

budget_found : error_budget go "99.9" ≡ ok (rat 1 1000)
unfolding error_budget budget_of_percent set_string set_string_from is_decimal is_decimal_from
budget_found = refl

rate_found : rate go fastest_alert ≡ ok (some 144000)
unfolding rate set_string set_string_from is_decimal is_decimal_from
rate_found = refl

query_found :
    error_ratio_expr go shortlink.spec.sli (namespace_name shortlink) "28d" ≡ ok ratio_query
unfolding error_ratio_expr good_status_pattern
query_found = refl

evaluate_slo-exhausted_example :
    is_exhausted go (evaluate_slo go world true shortlink []).0
    ≡ go.le_float (go.of_rat (rat 1 1000)) (some 20)
evaluate_slo-exhausted_example =
    evaluate_slo-exhausted go world shortlink [] go-FloatLaws (rat 1 1000) (some 144000) (some 20)
      ratio_query budget_found rate_found query_found refl tt refl refl refl (omega arith) refl

-- A claim that is being deleted, whose namespace is labelled as its own.
abbrev leaving : ServiceClaim
leaving = claim_with "registry/shortlink:1" [] false true

finalize-releases_example :
    (releases (finalize go world leaving []).1 ≡ [])
    ⊎ (IsReleasable go world leaving [] (namespace_seen go world leaving [])
        × (contains leaving.finalizers finalizer ≡ true)
        × (releases (finalize go world leaving []).1 ≡ ("platform-claims", "shortlink") ∷ []))
finalize-releases_example = finalize-releases go world leaving []

abbrev role_object : ObservedAckObject
role_object = record {
  kind = "Role";
  ref = "svc-shortlink/shortlink";
  object = decoded (record { type = "ACK.ResourceSynced"; status = "True"; message = "" } ∷ []);
  read_error = none;
}

storage_decision-true_example :
    ((storage_decision (role_object ∷ [])).0 ≡ condition_true)
    ↔ All IsProvisioned (role_object ∷ [])
storage_decision-true_example = storage_decision-true (role_object ∷ [])

-- An update during a freeze, with a reason.
abbrev pub frozen_claim : ServiceClaim
frozen_claim =
    claim_with "registry/shortlink:1" (condition condition_deploys_frozen ∷ []) false false

abbrev pub patched : ServiceClaim
patched = record (claim_with "registry/shortlink:2" [] false false) {
  annotations = ("paved.dev/break-glass", " rollback ") ∷ [];
}

abbrev pub request : Result AdmissionRequest
request = ok (record { username = "ada"; dry_run = none })

validate_update-admits_example :
    IsAdmitted (validate_update go newest_first true frozen_claim patched request) ↔ (
      ¬ IsHeld go newest_first true frozen_claim patched request
      ⊎ ((reason : String) × HasReason frozen_claim patched reason
          × ((req : AdmissionRequest) × (request ≡ ok req))))
validate_update-admits_example =
    validate_update-admits go newest_first true frozen_claim patched request

event_note-len_example : String.len (event_note frozen_claim patched "ada" "rollback") ≤ 1024
event_note-len_example = event_note-len frozen_claim patched "ada" "rollback"

abbrev note : String
note = event_note frozen_claim patched "ada" "rollback"

validate_update-records_example :
    ((validate_update go newest_first true frozen_claim patched request).event ≡ some note) ↔ (
      IsHeld go newest_first true frozen_claim patched request
      × ((reason : String) × HasReason frozen_claim patched reason
          × ((req : AdmissionRequest) × (request ≡ ok req)
              × (is_recorded go newest_first true frozen_claim patched request req ≡ true)
              × IsCutTo 1024 (note_text frozen_claim patched req.username reason) note)))
validate_update-records_example =
    validate_update-records go newest_first true frozen_claim patched request note
