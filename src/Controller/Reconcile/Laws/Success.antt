-- ===== src/Controller/Reconcile/Laws/Success.antt =====
-- What a reconcile that returns no error has done: no failure of a part is lost.
use paved.Base.{
  ℕ, true, List, ◌∷◌, ◌++◌, Option, none, some, ok, err, Error, is_not_found, ◌≡◌, refl, sym, ap,
  ◌∙◌, ◌⊎◌, length,
}
use paved.Api.{ServiceClaim}
use paved.Api.Conditions.{Meta}
use paved.Runtime.{Runtime}
use paved.Builders.Objects.{Object}
use paved.Builders.Names.{namespace_name}
use paved.Controller.Env.{Env, Reconciler, Request, StatusPatch, Rollout, apply_status, get_rollout}
use paved.Controller.Storage.{reader_of}
use paved.Controller.Drift.{Applied}
use paved.Controller.Drift.Laws.{sent, accepted}
use paved.Controller.Status.{status_patch, send_status}
use paved.Controller.Reconcile.{
  last_outcome, refresh_interval, unless_not_found, report_applied, reconcile_objects,
}
use paved.Controller.Reconcile.Laws.Asked.{send_status-none, read_rollout-asks, rollout_or_missing}
use paved.Controller.Reconcile.Laws.{
  patch_at, rollout_at, after_rollout, after_storage, applied_at, after_drift,
  reconcile_objects-sent, all_sent, accepted_before,
}

last_outcome-none :
    (applied rollout status : Option Error)
    → (last_outcome applied rollout status).error ≡ none
    → (applied ≡ none)
      × (rollout ≡ none)
      × (status ≡ none)
      × ((last_outcome applied rollout status).requeue_after ≡ some refresh_interval)
unfolding last_outcome
last_outcome-none none none none h = (refl, refl, refl, refl)
last_outcome-none (some e) none none h = cc
last_outcome-none none (some e) none h = cc
last_outcome-none (some e) (some f) none h = cc
last_outcome-none none none (some g) h = cc
last_outcome-none (some e) none (some g) h = cc
last_outcome-none none (some e) (some g) h = cc
last_outcome-none (some e) (some f) (some g) h = cc

module _ (go : Runtime) (meta : Meta) (env : Env go) (r : Reconciler) (claim : ServiceClaim) where
  -- The claim's Rollout was read, or the API server said that there is none.
  abbrev pub IsRolloutKnown : List Request → Type 0
  IsRolloutKnown k =
      let said = env.rollout_answer k (reader_of r) (namespace_name claim) claim.name in
      ((ro : Rollout) × (said ≡ ok ro)) ⊎ ((e : Error) × (said ≡ err e) × (is_not_found e ≡ true))

  -- The request behind which the status is applied.
  abbrev pub asks_rollout : List Request → List Request
  asks_rollout k = get_rollout (reader_of r) (namespace_name claim) claim.name ∷ k

  module _ (total : ℕ) (applied : Applied) (h : List Request) where
    abbrev written : StatusPatch
    written = patch_at go meta env r claim total applied h

    abbrev before : List Request
    before = after_storage go meta env r claim total applied h

    report_applied-none :
        (report_applied go meta env r claim total applied h).0.error ≡ none
        → (applied.error ≡ none)
          × IsRolloutKnown before
          × ((report_applied go meta env r claim total applied h).1
              ≡ apply_status written ∷ asks_rollout before)
          × (env.status_answer (asks_rollout before) ≡ none)
          × ((report_applied go meta env r claim total applied h).0.requeue_after
              ≡ some refresh_interval)
    unfolding report_applied
    report_applied-none fine =
        let (a, b, c, d) =
          last_outcome-none applied.error
            (unless_not_found (rollout_at go meta env r claim total applied h).error)
            (send_status go env claim written (after_rollout go meta env r claim total applied h)).0
            fine in
        let asked = read_rollout-asks go meta env r claim applied.error before a in
        let (last, answered) =
          send_status-none go env claim written (after_rollout go meta env r claim total applied h)
            c in
        (
          a,
          rollout_or_missing go meta env r claim applied.error before a b,
          last ∙ ap (λ l. apply_status written ∷ l) asked,
          ap env.status_answer (sym asked) ∙ answered,
          d,
        )

  module _ (os : List Object) (h : List Request) where
    -- A reconcile that returns no error has sent every object and had it accepted by the API server, then read
    -- the claim's Rollout or heard that there is none, then applied the claim's status, which the API
    -- server took, and comes back in a minute.
    pub reconcile_objects-none :
        (reconcile_objects go meta env r claim os h).0.error ≡ none
        → (sent (reconcile_objects go meta env r claim os h).1 ≡ sent h ++ os)
          × ((k : List Request) × (p : StatusPatch) × ((reconcile_objects go meta env r claim os
                  h).1
                ≡ apply_status p ∷ asks_rollout k)
              × (accepted env.apply_answer k ≡ accepted env.apply_answer h ++ os)
              × IsRolloutKnown k
              × (env.status_answer (asks_rollout k) ≡ none)
              × (p.name ≡ claim.name)
              × (p.namespace ≡ claim.namespace))
          × ((reconcile_objects go meta env r claim os h).0.requeue_after ≡ some 60)
    unfolding reconcile_objects status_patch
    reconcile_objects-none fine =
        let applied = applied_at go meta env r claim os h in
        let k = after_drift go meta env r claim os h in
        let (a, known, last, answered, d) = report_applied-none (length os) applied k fine in
        (
          reconcile_objects-sent go meta env r claim os h ∙ all_sent go meta env r claim os h a,
          (
            before (length os) applied k,
            written (length os) applied k,
            last,
            accepted_before go meta env r claim os h a,
            known,
            answered,
            refl,
            refl,
          ),
          d,
        )
