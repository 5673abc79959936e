-- ===== src/Controller/Reconcile/Invalid.antt =====
-- Reconciles that apply nothing: of a claim that is being deleted, and of a spec that cannot be built.
use paved.Base.{
  true, false, List, [], ◌∷◌, none, some, Error, err, ◌≡◌, refl, ap, sym, cons-ne_self, head-eq,
  ◌∙◌, ◌⊎◌, inl, inr, arith, contains, if_of_true, if_of_false,
}
use paved.Api.{ServiceClaim, Condition, condition_ready, condition_deploys_frozen}
use paved.Api.Conditions.{Meta, MetaLaws, is_true, holds}
use paved.Runtime.{Runtime}
use paved.Builders.Set.{build}
use paved.Controller.Env.{Env, Reconciler, M, Request, StatusPatch}
use paved.Controller.Freeze.{SloReport, freeze_condition, ready_condition}
use paved.Controller.SloStatus.{unmeasured, reason_invalid_spec}
use paved.Controller.Status.{status_patch}
use paved.Controller.Finalize.{Outcome, finalizer, finalize}
use paved.Controller.Drift.Laws.{sent}
use paved.Controller.Reconcile.{
  no_rollout, invalid_condition, report_invalid, reconcile_spec, reconcile_claim,
}
use paved.Controller.Reconcile.Quiet.{patches, finalize-Quiet}
use paved.Controller.Reconcile.Conditions.{find-set_conditions}
use paved.Controller.Reconcile.Laws.{send_status-sent, send_status-patches}

module _ (go : Runtime) (meta : Meta) (env : Env go) (r : Reconciler) (claim : ServiceClaim) where
  -- A claim that is being deleted gets no object applied and no status written.
  pub reconcile_claim-deleting :
      (h : List Request)
      → claim.deleting ≡ true
      → (sent (reconcile_claim go meta env r claim h).1 ≡ sent h)
        × (patches (reconcile_claim go meta env r claim h).1 ≡ patches h)
  unfolding reconcile_claim
  reconcile_claim-deleting h d =
      let quiet = finalize-Quiet go env r claim h in
      let same : reconcile_claim go meta env r claim ≡ finalize go env claim = if_of_true _ _ d in
      (
        ap (λ (m : M Outcome). sent (m h).1) same ∙ quiet.0,
        ap (λ (m : M Outcome). patches (m h).1) same ∙ quiet.1,
      )

  module _ (laws : MetaLaws meta) (e : Error) where
    invalid : Condition
    invalid = invalid_condition claim e

    report : SloReport go
    report =
        unmeasured go claim reason_invalid_spec "The SLO can't be evaluated until the spec is valid"

    ready : Condition
    ready = ready_condition claim invalid none no_rollout none

    frozen : Condition
    frozen = freeze_condition go meta claim report

    patch : StatusPatch
    unfolding report invalid ready frozen
    patch =
        status_patch go meta claim 0 report none (invalid ∷ report.condition ∷ frozen ∷ ready ∷ [])

    patch-ready : meta.find patch.conditions condition_ready ≡ some ready
    unfolding patch status_patch ready_condition
    patch-ready =
        find-set_conditions go meta laws claim claim.status.conditions
          (invalid ∷ report.condition ∷ frozen ∷ []) ready condition_ready

    patch-frozen : meta.find patch.conditions condition_deploys_frozen ≡ some frozen
    unfolding patch status_patch ready_condition freeze_condition
    patch-frozen =
        find-set_conditions go meta laws claim claim.status.conditions
          (invalid ∷ report.condition ∷ frozen ∷ []) ready condition_deploys_frozen
        ∙ find-set_conditions go meta laws claim claim.status.conditions
            (invalid ∷ report.condition ∷ []) frozen condition_deploys_frozen

    -- The last decision about the freeze stands.
    frozen_kept :
        is_true frozen.status ≡ holds (meta.find claim.status.conditions condition_deploys_frozen)
    unfolding frozen freeze_condition report unmeasured
    frozen_kept = ground arith

    never_ready : holds (meta.find patch.conditions condition_ready) ≡ false
    unfolding ready ready_condition invalid invalid_condition
    never_ready = ap holds patch-ready ∙ ground arith

    reports_invalid :
        claim.deleting ≡ false
        → contains claim.finalizers finalizer ≡ true
        → build go claim r.storage ≡ err e
        → reconcile_claim go meta env r claim ≡ report_invalid go meta env r claim e
    unfolding reconcile_claim reconcile_spec
    reports_invalid alive held bad =
        if_of_false _ _ alive ∙ if_of_true _ _ held ∙ rw (bad, reconcile_spec) refl

    report_invalid-sent :
        (h : List Request) → sent (report_invalid go meta env r claim e h).1 ≡ sent h
    unfolding report_invalid patch invalid report ready frozen
    report_invalid-sent h = send_status-sent go meta env r claim patch h

    report_invalid-patches :
        (h : List Request)
        → (patches (report_invalid go meta env r claim e h).1 ≡ patches h)
          ⊎ (patches (report_invalid go meta env r claim e h).1 ≡ patch ∷ patches h)
    unfolding report_invalid patch invalid report ready frozen
    report_invalid-patches h = send_status-patches go meta env r claim patch h

    -- What it writes keeps deploys frozen exactly if they were.
    pub report_invalid-frozen :
        (h : List Request) (p : StatusPatch)
        → patches (report_invalid go meta env r claim e h).1 ≡ p ∷ patches h
        → holds (meta.find p.conditions condition_deploys_frozen)
          ≡ holds (meta.find claim.status.conditions condition_deploys_frozen)
    report_invalid-frozen h p wrote = elim (report_invalid-patches h) [
      | inl nothing ↦ absurd (cons-ne_self p (patches h) (sym wrote ∙ nothing))
      | inr written ↦
          let same : p ≡ patch = head-eq p patch (sym wrote ∙ written) in
          ap (λ (q : StatusPatch). holds (meta.find q.conditions condition_deploys_frozen)) same
          ∙ ap holds patch-frozen
          ∙ frozen_kept
    ]

    -- A claim that is not being deleted, has the finalizer and cannot be built: no object is
    -- applied, and at most one status is written, which counts no managed resource, is not Ready,
    -- and keeps deploys frozen exactly if they were.
    pub reconcile_claim-invalid :
        (h : List Request)
        → claim.deleting ≡ false
        → contains claim.finalizers finalizer ≡ true
        → build go claim r.storage ≡ err e
        → (sent (reconcile_claim go meta env r claim h).1 ≡ sent h)
          × ((patches (reconcile_claim go meta env r claim h).1 ≡ patches h)
              ⊎ ((p : StatusPatch) × (patches (reconcile_claim go meta env r claim h).1
                    ≡ p ∷ patches h)
                  × (p.managed_resources ≡ none)
                  × (holds (meta.find p.conditions condition_ready) ≡ false)
                  × (holds (meta.find p.conditions condition_deploys_frozen)
                      ≡ holds (meta.find claim.status.conditions condition_deploys_frozen))))
    unfolding patch status_patch
    reconcile_claim-invalid h alive held bad =
        let same = reports_invalid alive held bad in
        let kept : sent (reconcile_claim go meta env r claim h).1 ≡ sent h =
          ap (λ (m : M Outcome). sent (m h).1) same ∙ report_invalid-sent h in
        elim (report_invalid-patches h) [
          | inl none_written ↦
              (kept, inl (ap (λ (m : M Outcome). patches (m h).1) same ∙ none_written))
          | inr written ↦ (
            kept,
            inr (
              patch,
              ap (λ (m : M Outcome). patches (m h).1) same ∙ written,
              refl,
              never_ready,
              ap holds patch-frozen ∙ frozen_kept,
            ),
          )
        ]
