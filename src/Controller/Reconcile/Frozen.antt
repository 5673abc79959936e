-- ===== src/Controller/Reconcile/Frozen.antt =====
-- From a reconcile to the webhook: the decision about the freeze that a reconcile writes, and what the
-- webhook makes of it.
use paved.Base.{
  String, Bool, true, false, not, List, ◌∷◌, Option, none, some, Result, ◌≡◌, refl, ap, ◌∙◌, arith,
  length, if◌then◌else◌,
}
use paved.Api.{ServiceClaim, condition_deploys_frozen}
use paved.Api.Conditions.{Meta, MetaLaws, holds}
use paved.Runtime.{Runtime}
use paved.Builders.Objects.{Object}
use paved.Builders.Storage.{StorageConfig}
use paved.Controller.Env.{Env, Reconciler, pure, Request, StatusPatch}
use paved.Controller.Freeze.{SloReport, freeze_condition}
use paved.Controller.Freeze.Laws.{frozen_after, is_exhausted, freeze_transitions}
use paved.Controller.Storage.{storage_condition, evaluate_linked, evaluate_storage}
use paved.Controller.Status.{status_patch}
use paved.Controller.Reconcile.{reconcile_objects}
use paved.Controller.Reconcile.Quiet.{patches}
use paved.Controller.Reconcile.Conditions.{TypedStorage, written-frozen}
use paved.Controller.Reconcile.Laws.{
  applied_at, after_drift, report_at, storage_at, rollout_at, written_patch,
}
use paved.Webhook.{AdmissionRequest, rejected, frozen_error, validate_update}
use paved.Webhook.Outcome.{HasReason}
use paved.Webhook.Laws.{validate_update-frozen}

module _ (go : Runtime) (meta : Meta) (env : Env go) (r : Reconciler) (claim : ServiceClaim) where
  linked-TypedStorage :
      (storage : Option StorageConfig) (h : List Request)
      → TypedStorage (evaluate_linked go env r claim storage h).0.condition
  unfolding evaluate_linked storage_condition
  linked-TypedStorage none h = refl
  linked-TypedStorage (some storage) h = refl

  evaluate_storage-TypedStorage :
      (h : List Request) → TypedStorage (evaluate_storage go env r claim h).0.condition
  unfolding evaluate_storage
  evaluate_storage-TypedStorage h = typed_if claim.spec.storage
    where
      typed_if :
          (b : Bool)
          → TypedStorage
              ((if not b
                  then pure (record { condition = none; status = none })
                  else evaluate_linked go env r claim r.storage)
                h).0.condition
      typed_if true = linked-TypedStorage r.storage h
      typed_if false = tt

  abbrev pub was_frozen : Bool
  was_frozen = holds (meta.find claim.status.conditions condition_deploys_frozen)

  module _ (os : List Object) (h : List Request) where
    -- What the reconcile read of the claim's SLO.
    abbrev pub report_read : SloReport go
    report_read =
        report_at go meta env r claim (length os) (applied_at go meta env r claim os h)
          (after_drift go meta env r claim os h)

    -- The DeploysFrozen of the status that a reconcile writes is the decision on what it read of
    -- the SLO and on whether deploys were frozen.
    pub reconcile_objects-frozen :
        (laws : MetaLaws meta) (p : StatusPatch)
        → patches (reconcile_objects go meta env r claim os h).1 ≡ p ∷ patches h
        → holds (meta.find p.conditions condition_deploys_frozen)
          ≡ frozen_after go was_frozen claim.spec.slo.window report_read
    unfolding status_patch freeze_condition
    reconcile_objects-frozen laws p e =
        let total = length os in
        let applied = applied_at go meta env r claim os h in
        let drifted = after_drift go meta env r claim os h in
        let storage = storage_at go meta env r claim total applied drifted in
        let rollout = rollout_at go meta env r claim total applied drifted in
        ap (λ (q : StatusPatch). holds (meta.find q.conditions condition_deploys_frozen))
          (written_patch go meta env r claim os h p e)
        ∙ ap holds (
            written-frozen go meta laws claim total applied report_read storage rollout
              (evaluate_storage-TypedStorage _))

    exhausted-frozen :
        (was : Bool) (window : String) (report : SloReport go)
        → is_exhausted go report ≡ true
        → frozen_after go was window report ≡ true
    exhausted-frozen false window report spent = (freeze_transitions go window report).0 ∙ spent
    exhausted-frozen true window report spent =
        (freeze_transitions go window report).1 ∙ ground arith

    -- A used-up budget holds deploys: once a reconcile that read it has written its status, an update of
    -- the claim with those conditions is rejected if it changes the image and gives no new reason.
    pub reconcile_objects-holds :
        (laws : MetaLaws meta) (p : StatusPatch) (recorder : Bool)
        (old_claim new_claim : ServiceClaim) (request : Result AdmissionRequest)
        → patches (reconcile_objects go meta env r claim os h).1 ≡ p ∷ patches h
        → is_exhausted go report_read ≡ true
        → old_claim.status.conditions ≡ p.conditions
        → ¬ (old_claim.spec.image ≡ new_claim.spec.image)
        → ((reason : String) → ¬ HasReason old_claim new_claim reason)
        → (validate_update go meta recorder old_claim new_claim request).verdict
          ≡ rejected (frozen_error go old_claim)
    reconcile_objects-holds laws p recorder old_claim new_claim request e spent stored changed
          silent =
        let frozen =
          ap (λ cs. holds (meta.find cs condition_deploys_frozen)) stored
          ∙ reconcile_objects-frozen laws p e
          ∙ exhausted-frozen was_frozen claim.spec.slo.window report_read spent in
        (validate_update-frozen go meta recorder old_claim new_claim request
            (frozen_error go old_claim)).1
          ((frozen, changed), silent, refl)
