-- ===== src/Deploys.antt =====
-- One claim over time, between the controller, which writes its status
-- (internal/controller/serviceclaim_controller.go), and its users, whose updates the webhook reviews
-- (internal/webhook/v1alpha1/serviceclaim_webhook.go). A reconcile reads the claim as it is stored; the
-- API server keeps the status over an update, and the webhook has a recorder, as its setup gives it.
pub mod Laws
use paved.Base.{
  ℕ, String, Bool, true, false, not, List, [], ◌∷◌, Option, none, some, Result, ok, Error, ◌≡◌,
  if◌then◌else◌, ◌==◌,
}
use paved.Api.{ServiceClaim}
use paved.Api.Conditions.{Meta}
use paved.Runtime.{Runtime}
use paved.Builders.Objects.{Object}
use paved.Controller.Env.{Env, Reconciler, Request, StatusPatch}
use paved.Controller.Freeze.Laws.{is_recovered}
use paved.Controller.Reconcile.{reconcile_objects, report_invalid}
use paved.Controller.Reconcile.Quiet.{patches}
use paved.Controller.Reconcile.Frozen.{report_read}
use paved.Webhook.{AdmissionRequest, is_dry_run}
use paved.Webhook.Outcome.{IsAdmitted, review}

-- A claim in the API server, and the notes of the BreakGlassUsed Events, newest first.
pub record Live : Type 0 where
  pub claim : ServiceClaim
  pub events : List String

abbrev text_or_empty : Option String → String
text_or_empty none = ""
text_or_empty (some s) = s

abbrev count_or_zero : Option ℕ → ℕ
count_or_zero none = 0
count_or_zero (some n) = n

-- The claim with the status that the controller, its only owner, applied.
abbrev pub with_status : StatusPatch → ServiceClaim → ServiceClaim
with_status p claim = record claim {
  status = record {
    conditions = p.conditions;
    error_budget_remaining = text_or_empty p.error_budget_remaining;
    burn_rate_1h = text_or_empty p.burn_rate_1h;
    managed_resources = count_or_zero p.managed_resources;
    observed_generation = p.observed_generation;
    storage = p.storage;
  };
}

-- The claim behind an update of it.
abbrev pub with_update : ServiceClaim → ServiceClaim → ServiceClaim
with_update new_claim claim = record new_claim { status = claim.status }

abbrev pub with_event : Option String → List String → List String
with_event none events = events
with_event (some note) events = note ∷ events

module _ (go : Runtime) (meta : Meta) where
  -- A reconcile of a valid spec, or of one that cannot be built, wrote a status; or an update that is no
  -- dry run was let through.
  pub data Step (s : Live) : Live → Type 0 where
    reconciled :
        (env : Env go) (r : Reconciler) (os : List Object) (h : List Request) (p : StatusPatch)
        → patches (reconcile_objects go meta env r s.claim os h).1 ≡ p ∷ patches h
        → Step s (record { claim = with_status p s.claim; events = s.events })
    reported_invalid :
        (env : Env go) (r : Reconciler) (e : Error) (h : List Request) (p : StatusPatch)
        → patches (report_invalid go meta env r s.claim e h).1 ≡ p ∷ patches h
        → Step s (record { claim = with_status p s.claim; events = s.events })
    updated :
        (new_claim : ServiceClaim) (request : Result AdmissionRequest)
        → ((req : AdmissionRequest) → request ≡ ok req → is_dry_run req.dry_run ≡ false)
        → IsAdmitted (review go meta true s.claim new_claim request)
        → Step s (record {
          claim = with_update new_claim s.claim;
          events = with_event (review go meta true s.claim new_claim request).event s.events;
        })

  -- The reconcile of a step, if it is one, did not measure the budget to be back.
  abbrev pub IsUnrecovered : (s t : Live) → Step s t → Type 0
  IsUnrecovered s _ (reconciled env r os h p written) =
      is_recovered go (report_read go meta env r s.claim os h) ≡ false
  IsUnrecovered s _ (reported_invalid env r e h p written) = Unit
  IsUnrecovered s _ (updated new_claim request wet admitted) = Unit

  -- How often a step changes the image: once or not at all.
  abbrev pub step_changes : (s t : Live) → Step s t → ℕ
  step_changes s t step = if s.claim.spec.image == t.claim.spec.image then 0 else 1

  -- A sequence of steps in which no reconcile measures the budget to be back.
  pub data Run (s : Live) : Live → Type 0 where
    stay : Run s s
    more : {t u : Live} (before : Run s t) (step : Step t u) → IsUnrecovered t u step → Run s u
