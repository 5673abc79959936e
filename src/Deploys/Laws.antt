-- ===== src/Deploys/Laws.antt =====
-- What a freeze does to a claim's image over time.
use paved.Base.{
  ℕ, suc, ◌+◌, String, Bool, true, false, not, List, Option, none, some, Result, ok, ◌≡◌, refl, sym,
  ap, ◌∙◌, arith, length, if◌then◌else◌, ◌==◌, eq_iff, if_of_true, if_of_false, Bool-cases, inl,
  inr,
}
use paved.Api.{ServiceClaim, condition_deploys_frozen}
use paved.Api.Conditions.{Meta, MetaLaws, holds}
use paved.Runtime.{Runtime}
use paved.Controller.Freeze.Laws.{frozen_after, freeze_transitions}
use paved.Controller.Reconcile.Frozen.{report_read, reconcile_objects-frozen}
use paved.Controller.Reconcile.Invalid.{report_invalid-frozen}
use paved.Webhook.{AdmissionRequest, is_dry_run}
use paved.Webhook.Outcome.{
  IsAdmitted, review, IsHeld, outcome, free, silent, unread, audited, rejection, is_recorded,
}
use paved.Deploys.{
  Live, with_event, Step, reconciled, reported_invalid, updated, IsUnrecovered, step_changes, Run,
  stay, more,
}

module _ (go : Runtime) (meta : Meta) where
  abbrev pub is_frozen_at : Live → Bool
  is_frozen_at s = holds (meta.find s.claim.status.conditions condition_deploys_frozen)

  -- How often the image changes in a run.
  unfoldable pub changes : {s t : Live} → Run go meta s t → ℕ
  changes stay = 0
  changes (more {t} {u} before step h) = step_changes go meta t u step + changes before

  -- Deploys stay frozen, and the Events count the image changes.
  abbrev pub Audits : Live → Live → ℕ → Type 0
  Audits s t n = (is_frozen_at t ≡ true) × (length t.events ≡ n + length s.events)

  -- How many changes there are from one image to another.
  abbrev changed : String → String → ℕ
  changed old new = if old == new then 0 else 1

  changed-same : (old new : String) → old ≡ new → changed old new ≡ 0
  changed-same old new same = if_of_true 0 1 ((eq_iff old new).1 same)

  changed-other : (old new : String) → ¬ (old ≡ new) → changed old new ≡ 1
  changed-other old new other = elim (Bool-cases (old == new)) [
    | inl same ↦ absurd (other ((eq_iff old new).0 same))
    | inr apart ↦ if_of_false 0 1 apart
  ]

  count-same : (old new : String) (n : ℕ) → old ≡ new → n ≡ changed old new + n
  count-same old new n same = omega (arith, changed-same old new same)

  count-other : (old new : String) (n : ℕ) → ¬ (old ≡ new) → suc n ≡ changed old new + n
  count-other old new n other = omega (arith, changed-other old new other)

  module _ (s : Live) (new_claim : ServiceClaim) (request : Result AdmissionRequest)
      (wet : (req : AdmissionRequest) → request ≡ ok req → is_dry_run req.dry_run ≡ false)
      (let_in : IsAdmitted (review go meta true s.claim new_claim request))
      (frozen : is_frozen_at s ≡ true) where
    abbrev events_after : List String
    events_after = with_event (review go meta true s.claim new_claim request).event s.events

    abbrev update_changes : ℕ
    update_changes = changed s.claim.spec.image new_claim.spec.image

    with_note :
        (event : Option String)
        → (review go meta true s.claim new_claim request).event ≡ event
        → length events_after ≡ length (with_event event s.events)
    with_note event same = ap (λ e. length (with_event e s.events)) same

    image_stays :
        ¬ IsHeld go meta true s.claim new_claim request → s.claim.spec.image ≡ new_claim.spec.image
    image_stays calm = elim (Bool-cases (s.claim.spec.image == new_claim.spec.image)) [
      | inl same ↦ (eq_iff _ _).0 same
      | inr apart ↦ absurd (
          calm (
            frozen,
            λ same.
                let no_way =
                  sym ((eq_iff s.claim.spec.image new_claim.spec.image).1 same) ∙ apart in
                cc,
          ))
    ]

    is_noted :
        (req : AdmissionRequest)
        → request ≡ ok req
        → is_recorded go meta true s.claim new_claim request req ≡ true
    is_noted req given = ground (arith, wet req given)

    updated-counts : length events_after ≡ update_changes + length s.events
    unfolding rejection
    updated-counts = elim (outcome go meta true s.claim new_claim request) [
      | free calm shown ↦
          with_note none (ap (λ v. v.event) shown) ∙ count-same _ _ _ (image_stays calm)
      | silent held nothing shown ↦ let no_way = sym (ap (λ v. v.verdict) shown) ∙ let_in.1 in cc
      | unread held reason has e refused f shown _ ↦ let no_way = sym shown ∙ let_in.1 in cc
      | audited held reason has req given warnings shown noted ↦
          with_note (some _) (noted ∙ if_of_true _ _ (is_noted req given))
          ∙ count-other _ _ _ held.1
    ]

  module _ (laws : MetaLaws meta) where
    Step-Audits :
        (s t : Live) (step : Step go meta s t)
        → IsUnrecovered go meta s t step
        → is_frozen_at s ≡ true
        → Audits s t (step_changes go meta s t step)
    Step-Audits s _ (reconciled env r os h p wrote) low frozen = (
      reconcile_objects-frozen go meta env r s.claim os h laws p wrote
          ∙ ap
              (λ was.
                frozen_after go was s.claim.spec.slo.window
                  (report_read go meta env r s.claim os h))
              frozen
          ∙ (freeze_transitions go s.claim.spec.slo.window
              (report_read go meta env r s.claim os h)).1
          ∙ ap not low,
      count-same s.claim.spec.image s.claim.spec.image (length s.events) refl,
    )
    Step-Audits s _ (reported_invalid env r e h p wrote) low frozen = (
      report_invalid-frozen go meta env r s.claim laws e h p wrote ∙ frozen,
      count-same s.claim.spec.image s.claim.spec.image (length s.events) refl,
    )
    Step-Audits s _ (updated new_claim request wet let_in) low frozen =
        (frozen, updated-counts s new_claim request wet let_in frozen)

    -- While deploys are frozen and no reconcile measures the budget to be back, they stay frozen, and
    -- every change of the image that users bring about has its own BreakGlassUsed Event.
    pub Run-Audits :
        (s t : Live) (run : Run go meta s t) → is_frozen_at s ≡ true → Audits s t (changes run)
    unfolding changes
    Run-Audits s _ stay frozen = (frozen, omega arith)
    Run-Audits s _ (more {t} {u} before step low) frozen =
        let (still, so_far) = Run-Audits s t before frozen in
        let (kept, counted) = Step-Audits t u step low still in
        (kept, omega (arith, counted, so_far))
