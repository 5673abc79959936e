-- ===== src/Controller/Reconcile/Quiet.antt =====
-- The parts of a reconcile that neither apply an object nor write a status.
use paved.Base.{
  Bool, true, false, List, [], ◌∷◌, Option, none, some, Error, ◌≡◌, refl, ◌∙◌, arith, if◌then◌else◌,
  concat, Result, Bool-cases, inl, inr,
}
use paved.Api.{ServiceClaim}
use paved.Api.Conditions.{Meta}
use paved.Runtime.{Runtime}
use paved.Builders.Objects.{Kind, Object}
use paved.Builders.Storage.{StorageConfig, storage_types}
use paved.Controller.Env.{
  Env, Reconciler, M, pure, Request, apply_status, record_drift, StatusPatch, ManagedFieldsEntry,
}
use paved.Controller.SloStatus.{evaluate_slo}
use paved.Controller.Storage.{read_kinds, evaluate_linked, evaluate_storage}
use paved.Controller.Drift.{Correction, report_drift, action_of}
use paved.Controller.Drift.Laws.{sent, accepted}
use paved.Controller.Status.{set_finalizer}
use paved.Controller.Finalize.{finalize}
use paved.Controller.Reconcile.{read_rollout}

-- The statuses that were written, newest first.
abbrev pub patches : List Request → List StatusPatch
patches [] = []
patches (apply_status p ∷ h) = p ∷ patches h
patches (_ ∷ h) = patches h

abbrev pub Same : List Request → List Request → Type 0
Same h h' =
    (sent h' ≡ sent h)
    × (patches h' ≡ patches h)
    × ((answer : List Request → Object → Result (List ManagedFieldsEntry))
        → accepted answer h' ≡ accepted answer h)

abbrev pub Quiet {ℓ} : {A : Type ℓ} → M A → Type 0
Quiet m = (h : List Request) → Same h (m h).1

pub Same-trans : (h h' h'' : List Request) → Same h h' → Same h' h'' → Same h h''
Same-trans h h' h'' (a, b, p) (c, d, q) = (c ∙ a, d ∙ b, λ answer. q answer ∙ p answer)

pub Quiet-if {ℓ} :
    {A : Type ℓ} (b : Bool) (m : M A) (a : A) → Quiet m → Quiet (if b then m else pure a)
Quiet-if true m a q = q
Quiet-if false m a q = λ h. (refl, refl, λ answer. refl)

module _ (go : Runtime) (env : Env go) (r : Reconciler) (claim : ServiceClaim) where
  pub evaluate_slo-Quiet : (prometheus : Bool) → Quiet (evaluate_slo go env prometheus claim)
  unfolding evaluate_slo
  evaluate_slo-Quiet prometheus h = (ground arith, ground arith, λ answer. ground arith)

  read_kinds-Quiet : (kinds : List Kind) → Quiet (read_kinds go env r claim kinds)
  unfolding read_kinds
  read_kinds-Quiet [] h = (refl, refl, λ answer. refl)
  read_kinds-Quiet (kind ∷ kinds) h = read_kinds-Quiet kinds _

  evaluate_linked-Quiet :
      (storage : Option StorageConfig) → Quiet (evaluate_linked go env r claim storage)
  unfolding evaluate_linked
  evaluate_linked-Quiet none h = (refl, refl, λ answer. refl)
  evaluate_linked-Quiet (some storage) h = read_kinds-Quiet storage_types h

  pub evaluate_storage-Quiet : Quiet (evaluate_storage go env r claim)
  unfolding evaluate_storage
  evaluate_storage-Quiet h = ground (arith, evaluate_linked-Quiet r.storage h)

  pub read_rollout-Quiet :
      (meta : Meta) (e : Option Error) → Quiet (read_rollout go meta env r claim e)
  unfolding read_rollout
  read_rollout-Quiet meta e h = (ground arith, ground arith, λ answer. ground arith)

  recorded : Correction → Request
  recorded c = record_drift (action_of go env r c) (concat (c.kind ∷ " " ∷ c.ref ∷ []))

  pub report_drift-Quiet : (cs : List Correction) → Quiet (report_drift go env r cs)
  unfolding report_drift recorded
  report_drift-Quiet [] h = (refl, refl, λ answer. refl)
  report_drift-Quiet (c ∷ cs) h = elim (Bool-cases r.recorder) [
    | inl on ↦ rw (on, report_drift) (report_drift-Quiet cs (recorded c ∷ h))
    | inr off ↦ rw (off, report_drift) (report_drift-Quiet cs h)
  ]

  pub set_finalizer-Quiet : (present : Bool) → Quiet (set_finalizer go env claim present)
  unfolding set_finalizer
  set_finalizer-Quiet present h = (ground arith, ground arith, λ answer. ground arith)

  pub finalize-Quiet : Quiet (finalize go env claim)
  unfolding finalize set_finalizer
  finalize-Quiet h = (ground arith, ground arith, λ answer. ground arith)
