-- ===== src/Webhook.antt =====
-- internal/webhook/v1alpha1/serviceclaim_webhook.go: the validating webhook, which rejects image
-- changes while deploys are frozen. Log lines are left out.
pub mod Text
pub mod Outcome
pub mod Laws
use paved.Base.{
  ℕ, String, Bool, true, false, not, ◌&&◌, ◌||◌, List, [], ◌∷◌, Option, none, some, Result, ok, err,
  wrap, Error, concat, text_at, trim_space, if◌then◌else◌, ◌==◌,
}
use paved.Api.{ServiceClaim, condition_deploys_frozen}
use paved.Api.Conditions.{Meta, holds}
use paved.Runtime.{Runtime}
use paved.Webhook.Text.{budget_for_message, burn_rate_for_message, truncate}

abbrev pub break_glass_annotation : String
break_glass_annotation = "paved.dev/break-glass"

abbrev pub event_note_limit : ℕ
event_note_limit = 1024

pub record DeploysFrozenError : Type 0 where
  pub claim : String
  pub window : String
  pub budget : String
  pub burn_rate : String

-- DeploysFrozenError.Error.
unfoldable pub frozen_message : DeploysFrozenError → String
frozen_message e = concat (
    "deploys frozen: " ∷ e.claim ∷ " has " ∷ e.budget ∷ " error budget remaining in a " ∷ e.window
    ∷ " window (burn rate " ∷ e.burn_rate ∷ "). Override with annotation " ∷ break_glass_annotation
    ∷ "=\"<reason>\" — this is audited." ∷ [])

-- The admission request: who makes it, and whether it is a dry run.
pub record AdmissionRequest : Type 0 where
  pub username : String
  pub dry_run : Option Bool

pub data Verdict : Type 0 where
  admitted : List String → Verdict
  rejected : DeploysFrozenError → Verdict
  failed : Error → Verdict

-- What an update leads to: the answer, and the note of a BreakGlassUsed Event, if one is recorded.
pub record Review : Type 0 where
  pub verdict : Verdict
  pub event : Option String

unfoldable pub validate_create : ServiceClaim → Review
validate_create claim = record { verdict = admitted []; event = none }

unfoldable pub validate_delete : ServiceClaim → Review
validate_delete claim = record { verdict = admitted []; event = none }

abbrev pub annotation : ServiceClaim → String
annotation claim = text_at break_glass_annotation claim.annotations

unfoldable pub break_glass_reason : ServiceClaim → ServiceClaim → Option String
break_glass_reason old_claim new_claim =
    let reason = trim_space (annotation new_claim) in
    if reason == "" || annotation new_claim == annotation old_claim then none else some reason

abbrev pub is_dry_run : Option Bool → Bool
is_dry_run none = false
is_dry_run (some b) = b

abbrev pub break_glass_warning : String
break_glass_warning =
    "deploys are frozen: this image change was let through by paved.dev/break-glass and recorded in a BreakGlassUsed Event"

unfoldable pub event_note : ServiceClaim → ServiceClaim → String → String → String
event_note old_claim new_claim actor reason =
    truncate
      (concat (
        actor ∷ " changed the image from " ∷ old_claim.spec.image ∷ " to " ∷ new_claim.spec.image
        ∷ " during a deploy freeze: " ∷ reason ∷ []))
      event_note_limit

-- An image change that carries a reason: without the request there is nobody to audit.
unfoldable pub review_break_glass :
    Bool → ServiceClaim → ServiceClaim → String → Result AdmissionRequest → Review
review_break_glass recorder old_claim new_claim reason (err e) = record {
  verdict = failed (wrap "reading the admission request to audit break-glass: " e);
  event = none;
}
review_break_glass recorder old_claim new_claim reason (ok req) = record {
  verdict = admitted (break_glass_warning ∷ []);
  event =
      if recorder && not (is_dry_run req.dry_run)
      then some (event_note old_claim new_claim req.username reason)
      else none;
}

unfoldable pub frozen_error : Runtime → ServiceClaim → DeploysFrozenError
frozen_error go old_claim = record {
  claim = old_claim.name;
  window = old_claim.spec.slo.window;
  budget = budget_for_message old_claim.status.error_budget_remaining;
  burn_rate = burn_rate_for_message go old_claim.status.burn_rate_1h;
}

module _ (go : Runtime) (meta : Meta) (recorder : Bool) where
  -- An image change while deploys are frozen.
  unfoldable pub review_change : ServiceClaim → ServiceClaim → Result AdmissionRequest → Review
  unfolding break_glass_reason review_break_glass
  review_change old_claim new_claim request = elim (break_glass_reason old_claim new_claim) [
    | none ↦ record { verdict = rejected (frozen_error go old_claim); event = none }
    | some reason ↦ review_break_glass recorder old_claim new_claim reason request
  ]

  unfoldable pub validate_update : ServiceClaim → ServiceClaim → Result AdmissionRequest → Review
  unfolding review_change
  validate_update old_claim new_claim request =
      let frozen = holds (meta.find old_claim.status.conditions condition_deploys_frozen) in
      if not frozen || old_claim.spec.image == new_claim.spec.image
      then record { verdict = admitted []; event = none }
      else review_change old_claim new_claim request
