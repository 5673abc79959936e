-- ===== src/Webhook/Outcome.antt =====
-- The four ways in which the webhook's review of an update ends, and the reason that an update gives.
use paved.Base.{
  String, Bool, true, false, not, ◌&&◌, List, [], ◌∷◌, none, some, Result, ok, err, Error, wrap,
  ◌≡◌, refl, sym, ap, ◌∙◌, ◌↔◌, inl, inr, arith, trim_space, if◌then◌else◌, ◌==◌, eq_iff,
  Bool-cases, Option-cases, Result-cases,
}
use paved.Api.{ServiceClaim, condition_deploys_frozen}
use paved.Api.Conditions.{Meta, holds}
use paved.Runtime.{Runtime}
use paved.Webhook.{
  admitted, rejected, failed, is_dry_run, break_glass_warning, Review, AdmissionRequest, annotation,
  break_glass_reason, review_break_glass, review_change, validate_update, frozen_error, event_note,
}

-- The reason that an update gives for an image change: the annotation, unless it is blank or the claim
-- carried it before.
abbrev pub HasReason : ServiceClaim → ServiceClaim → String → Type 0
HasReason old_claim new_claim reason =
    (trim_space (annotation new_claim) ≡ reason)
    × ¬ (reason ≡ "")
    × ¬ (annotation new_claim ≡ annotation old_claim)

abbrev pub IsAdmitted : Review → Type 0
IsAdmitted review = (warnings : List String) × (review.verdict ≡ admitted warnings)

abbrev pub IsRejected : Review → Type 0
IsRejected review = (e : _) × (review.verdict ≡ rejected e)

pub some-if :
    (b : Bool) (n note : String)
    → ((if b then some n else none) ≡ some note) ↔ ((b ≡ true) × (n ≡ note))
some-if true n note = (λ e. (refl, cc), λ (_, e). ap some e)
some-if false n note = (λ e. absurd (let same : none ≡ some note = e in cc), λ (e, _). absurd cc)

pub break_glass_reason-some :
    (old_claim new_claim : ServiceClaim) (reason : String)
    → (break_glass_reason old_claim new_claim ≡ some reason) ↔ HasReason old_claim new_claim reason
unfolding break_glass_reason
break_glass_reason-some old_claim new_claim reason = ground (
  arith,
  eq_iff (trim_space (annotation new_claim)) "",
  eq_iff (annotation new_claim) (annotation old_claim),
)

module _ (go : Runtime) (meta : Meta) (recorder : Bool) (old_claim new_claim : ServiceClaim)
    (request : Result AdmissionRequest) where
  abbrev pub review : Review
  review = validate_update go meta recorder old_claim new_claim request

  abbrev pub is_frozen : Bool
  is_frozen = holds (meta.find old_claim.status.conditions condition_deploys_frozen)

  -- An update that changes the image while deploys are frozen.
  abbrev pub IsHeld : Type 0
  IsHeld = (is_frozen ≡ true) × ¬ (old_claim.spec.image ≡ new_claim.spec.image)

  held_review : IsHeld → review ≡ review_change go meta recorder old_claim new_claim request
  unfolding validate_update
  held_review (f, i) = ground (arith, eq_iff old_claim.spec.image new_claim.spec.image)

  free_review : ¬ IsHeld → review ≡ record { verdict = admitted []; event = none }
  unfolding validate_update
  free_review calm = ground (arith, eq_iff old_claim.spec.image new_claim.spec.image)

  abbrev pub is_recorded : AdmissionRequest → Bool
  is_recorded req = recorder && not (is_dry_run req.dry_run)

  -- The reviews of an image change during a freeze.
  unfoldable pub rejection : Review
  rejection = record { verdict = rejected (frozen_error go old_claim); event = none }

  unexplained :
      break_glass_reason old_claim new_claim ≡ none
      → review_change go meta recorder old_claim new_claim request ≡ rejection
  unfolding review_change rejection
  unexplained nothing = rw (nothing, review_change) refl

  explained :
      (reason : String)
      → break_glass_reason old_claim new_claim ≡ some reason
      → review_change go meta recorder old_claim new_claim request
        ≡ review_break_glass recorder old_claim new_claim reason request
  unfolding review_change
  explained reason found = rw (found, review_change) refl

  IsExplained : Type 0
  IsExplained = (reason : String) × HasReason old_claim new_claim reason

  -- The four ways of a review: nothing is held, no reason, a reason without a request, and with one.
  pub data Outcome : Type 0 where
    free : ¬ IsHeld → review ≡ record { verdict = admitted []; event = none } → Outcome
    silent : IsHeld → break_glass_reason old_claim new_claim ≡ none → review ≡ rejection → Outcome
    unread :
        IsHeld
        → (reason : String) → HasReason old_claim new_claim reason
        → (e : Error) → request ≡ err e
        → (f : Error) → review.verdict ≡ failed f
        → review.event ≡ none
        → Outcome
    audited :
        IsHeld
        → (reason : String) → HasReason old_claim new_claim reason
        → (req : AdmissionRequest) → request ≡ ok req
        → (warnings : List String) → review.verdict ≡ admitted warnings
        → review.event ≡ (
            if is_recorded req
            then some (event_note old_claim new_claim req.username reason)
            else none)
        → Outcome

  review_read :
      (reason : String) (req : AdmissionRequest)
      → request ≡ ok req
      → review_break_glass recorder old_claim new_claim reason request ≡ record {
        verdict = admitted (break_glass_warning ∷ []);
        event =
            if is_recorded req
            then some (event_note old_claim new_claim req.username reason)
            else none;
      }
  unfolding review_break_glass
  review_read reason req given = rw (given, review_break_glass) refl

  unread_error : Error → Error
  unread_error e = wrap "reading the admission request to audit break-glass: " e

  review_unread :
      (reason : String) (e : Error)
      → request ≡ err e
      → review_break_glass recorder old_claim new_claim reason request
        ≡ record { verdict = failed (unread_error e); event = none }
  unfolding review_break_glass unread_error
  review_unread reason e refused = rw (refused, review_break_glass) refl

  outcome_of_reason :
      IsHeld → (reason : String) → break_glass_reason old_claim new_claim ≡ some reason → Outcome
  outcome_of_reason held reason found =
      let has = (break_glass_reason-some old_claim new_claim reason).0 found in
      let shown : review ≡ review_break_glass recorder old_claim new_claim reason request =
        held_review held ∙ explained reason found in
      elim (Result-cases request) [
        | inl (req, given) ↦
            let same = review_read reason req given in
            audited held reason has req given (break_glass_warning ∷ [])
              (ap (λ v. v.verdict) (shown ∙ same)) (ap (λ v. v.event) (shown ∙ same))
        | inr (e, refused) ↦
            let same = review_unread reason e refused in
            unread held reason has e refused (unread_error e) (ap (λ v. v.verdict) (shown ∙ same))
              (ap (λ v. v.event) (shown ∙ same))
      ]

  pub outcome : Outcome
  unfolding rejection
  outcome = elim (Bool-cases is_frozen) [
    | inr calm ↦ not_held (λ (f, i). ground arith)
    | inl frozen ↦ elim (Bool-cases (old_claim.spec.image == new_claim.spec.image)) [
      | inl same ↦ not_held (λ (f, i). i ((eq_iff _ _).0 same))
      | inr other ↦ of_reason (
        frozen,
        λ same. ground (arith, (eq_iff old_claim.spec.image new_claim.spec.image).1 same),
      )
    ]
  ]
    where
      not_held : ¬ IsHeld → Outcome
      not_held calm = free calm (free_review calm)

      of_reason : IsHeld → Outcome
      of_reason held = elim (Option-cases (break_glass_reason old_claim new_claim)) [
        | inl nothing ↦ silent held nothing (held_review held ∙ unexplained nothing)
        | inr (reason, found) ↦ outcome_of_reason held reason found
      ]

  pub has_some :
      (reason : String)
      → HasReason old_claim new_claim reason
      → ¬ (break_glass_reason old_claim new_claim ≡ none)
  has_some reason has nothing =
      let no_way = sym ((break_glass_reason-some old_claim new_claim reason).1 has) ∙ nothing in cc

  pub same_reason :
      (r s : String) → HasReason old_claim new_claim r → HasReason old_claim new_claim s → r ≡ s
  same_reason r s (a, _, _) (b, _, _) = sym a ∙ b
