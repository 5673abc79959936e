-- ===== src/Webhook/Laws.antt =====
-- What the webhook lets through: every update of a claim whose deploys are not frozen or whose image
-- stays, and an image change during a freeze only with a reason that is new, which leaves an Event.
use paved.Base.{
  String, Bool, true, [], ◌∷◌, none, some, Result, ok, ◌≡◌, sym, ap, ◌∙◌, ◌↔◌, ◌⊎◌, inl, inr,
  concat, arith,
}
use paved.Webhook.Text.Laws.{IsCutTo, IsCutTo-same, truncate-IsCutTo, IsShortened}
use mathlib.Core.Path.{subst}
use paved.Api.{ServiceClaim}
use paved.Api.Conditions.{Meta}
use paved.Runtime.{Runtime}
use paved.Webhook.{rejected, DeploysFrozenError, AdmissionRequest, frozen_error, event_note}
use paved.Webhook.Outcome.{
  HasReason, IsAdmitted, some-if, IsHeld, review, outcome, rejection, is_recorded, has_some,
  same_reason, free, silent, unread, audited,
}

-- What the message of a rejection tells: the claim's name and window, its budget as last recorded, and its burn
-- rate with one decimal; or that they are unknown.
abbrev pub Tells : Runtime → ServiceClaim → DeploysFrozenError → Type 0
Tells go old_claim e =
    let recorded = old_claim.status.error_budget_remaining in
    let rate = go.parse_float old_claim.status.burn_rate_1h in
    (e.claim ≡ old_claim.name)
    × (e.window ≡ old_claim.spec.slo.window)
    × (((recorded ≡ "") × (e.budget ≡ "unknown"))
        ⊎ (¬ (recorded ≡ "") × IsShortened recorded e.budget))
    × (((rate ≡ none) × (e.burn_rate ≡ "unknown"))
        ⊎ ((x : go.Float) × (rate ≡ some x)
            × (e.burn_rate ≡ concat (go.format_float x 1 ∷ "x" ∷ []))))

-- Who changed which image to which, and why.
abbrev pub note_text : ServiceClaim → ServiceClaim → String → String → String
note_text old_claim new_claim actor reason = concat (
    actor ∷ " changed the image from " ∷ old_claim.spec.image ∷ " to " ∷ new_claim.spec.image
    ∷ " during a deploy freeze: " ∷ reason ∷ [])

event_note-IsCutTo :
    (old_claim new_claim : ServiceClaim) (actor reason : String)
    → IsCutTo 1024
        (note_text old_claim new_claim actor reason)
        (event_note old_claim new_claim actor reason)
unfolding event_note
event_note-IsCutTo old_claim new_claim actor reason = truncate-IsCutTo _ 1024 (omega arith)

module _ (go : Runtime) (meta : Meta) (recorder : Bool) (old_claim new_claim : ServiceClaim)
    (request : Result AdmissionRequest) where
  -- An update is let through exactly if deploys are not frozen, or the image stays, or the new claim
  -- carries a reason that is not blank and is not the one of the old claim, and the admission request
  -- could be read.
  pub validate_update-admits : IsAdmitted (review go meta recorder old_claim new_claim request) ↔ (
      ¬ (IsHeld go meta recorder old_claim new_claim request)
      ⊎ ((reason : String) × HasReason old_claim new_claim reason
          × ((req : AdmissionRequest) × (request ≡ ok req))))
  unfolding rejection
  validate_update-admits = elim (outcome go meta recorder old_claim new_claim request) [
    | free calm shown ↦ (λ _. inl calm, λ _. ([], ap (λ v. v.verdict) shown))
    | silent held nothing shown ↦ (
      λ (w, p). let no_way = sym (ap (λ v. v.verdict) shown) ∙ p in cc,
      λ d. absurd (elim d [
        | inl calm ↦ calm held
        | inr (reason, has, _) ↦
            has_some go meta recorder old_claim new_claim request reason has nothing
      ]),
    )
    | unread held reason has e refused f shown _ ↦ (
      λ (w, p). let no_way = sym shown ∙ p in cc,
      λ d. absurd (elim d [
        | inl calm ↦ calm held
        | inr (_, _, (req, given)) ↦ let no_way = sym refused ∙ given in cc
      ]),
    )
    | audited held reason has req given warnings shown _ ↦
        (λ _. inr (reason, has, (req, given)), λ _. (warnings, shown))
  ]

  -- The note of a recorded Event, as event_note makes it.
  validate_update-notes :
      (note : String)
      → ((review go meta recorder old_claim new_claim request).event ≡ some note) ↔ (
          (IsHeld go meta recorder old_claim new_claim request)
          × ((reason : String) × HasReason old_claim new_claim reason
              × ((req : AdmissionRequest) × (request ≡ ok req)
                  × ((is_recorded go meta recorder old_claim new_claim request) req ≡ true)
                  × (event_note old_claim new_claim req.username reason ≡ note))))
  unfolding rejection
  validate_update-notes note = elim (outcome go meta recorder old_claim new_claim request) [
    | free calm shown ↦
        (λ p. let no_way = sym (ap (λ v. v.event) shown) ∙ p in cc, λ (held, _). absurd (calm held))
    | silent held nothing shown ↦ (
      λ p. let no_way = sym (ap (λ v. v.event) shown) ∙ p in cc,
      λ (_, (reason, has, _)).
          absurd (has_some go meta recorder old_claim new_claim request reason has nothing),
    )
    | unread held reason has e refused f _ shown ↦ (
      λ p. let no_way = sym shown ∙ p in cc,
      λ (_, (_, _, (req, given, _, _))). let no_way = sym refused ∙ given in cc,
    )
    | audited held reason has req given warnings _ shown ↦ (
      λ p.
          let (on, said) =
            (some-if ((is_recorded go meta recorder old_claim new_claim request) req) _ note).0
              (sym shown ∙ p) in
          (held, (reason, has, (req, given, on, said))),
      λ (_, (other, has', (req', given', on, said))).
          let same_req : req' ≡ req = let e = sym given' ∙ given in cc in
          let same_text : other ≡ reason =
            same_reason go meta recorder old_claim new_claim request other reason has' has in
          shown
          ∙ (some-if ((is_recorded go meta recorder old_claim new_claim request) req) _ note).1 (
            subst (λ q. (is_recorded go meta recorder old_claim new_claim request) q ≡ true)
                same_req on,
            subst
                (λ (q : AdmissionRequest). event_note old_claim new_claim q.username reason ≡ note)
                same_req
                (subst (λ t. event_note old_claim new_claim req'.username t ≡ note) same_text said),
          ),
    )
  ]

  -- A rejection, with the error that frozen_error makes.
  pub validate_update-frozen :
      (e : DeploysFrozenError)
      → ((review go meta recorder old_claim new_claim request).verdict ≡ rejected e) ↔ (
          (IsHeld go meta recorder old_claim new_claim request)
          × ((reason : String) → ¬ HasReason old_claim new_claim reason)
          × (frozen_error go old_claim ≡ e))
  unfolding rejection
  validate_update-frozen e = elim (outcome go meta recorder old_claim new_claim request) [
    | free calm shown ↦ (
      λ p. let no_way = sym (ap (λ v. v.verdict) shown) ∙ p in cc,
      λ (held, _, _). absurd (calm held),
    )
    | silent held nothing shown ↦ (
      λ p.
          let same = sym (ap (λ v. v.verdict) shown) ∙ p in
          (
            held,
            λ reason has. has_some go meta recorder old_claim new_claim request reason has nothing,
            cc,
          ),
      λ (_, _, same). ap (λ v. v.verdict) shown ∙ ap rejected same,
    )
    | unread held reason has _ refused f shown _ ↦
        (λ p. let no_way = sym shown ∙ p in cc, λ (_, lacks, _). absurd (lacks reason has))
    | audited held reason has req given warnings shown _ ↦
        (λ p. let no_way = sym shown ∙ p in cc, λ (_, lacks, _). absurd (lacks reason has))
  ]

  -- An Event with a note is recorded exactly for a change of the image during a freeze that carries a new
  -- reason, in a request that is not a dry run, if there is a recorder. The note says who changed which
  -- image to which and why, cut off only if it is longer than 1024 bytes.
  pub validate_update-records :
      (note : String)
      → ((review go meta recorder old_claim new_claim request).event ≡ some note) ↔ (
          IsHeld go meta recorder old_claim new_claim request
          × ((reason : String) × HasReason old_claim new_claim reason
              × ((req : AdmissionRequest) × (request ≡ ok req)
                  × (is_recorded go meta recorder old_claim new_claim request req ≡ true)
                  × IsCutTo 1024 (note_text old_claim new_claim req.username reason) note)))
  validate_update-records note = (
    λ shown.
        let (held, (reason, has, (req, given, on, said))) = (validate_update-notes note).0 shown in
        let cut = event_note-IsCutTo old_claim new_claim req.username reason in
        (
          held,
          (
            reason,
            has,
            (
              req,
              given,
              on,
              subst (IsCutTo 1024 (note_text old_claim new_claim req.username reason)) said cut,
            ),
          ),
        ),
    λ (held, (reason, has, (req, given, on, cut))).
        let same =
          IsCutTo-same 1024 _ _ note (event_note-IsCutTo old_claim new_claim req.username reason)
            cut in
        (validate_update-notes note).1 (held, (reason, has, (req, given, on, same))),
  )
