-- ===== src/Controller/Reconcile/Laws.antt =====
-- What a reconcile sends and writes: the objects, the one status, and what makes a claim Ready.
mod Asked
pub mod Success
use paved.Base.{
  ℕ, ◌<◌, true, List, [], ◌∷◌, ◌++◌, Option, none, some, ok, Error, ◌≡◌, refl, sym, ap, ◌∙◌, ◌⊎◌,
  inl, inr, arith, length, take, take-length, itoa, if◌then◌else◌, Option-cases, Result-cases,
  cons-ne_self, head-eq,
}
use mathlib.Core.Path.{subst}
use paved.Api.{ServiceClaim, condition_ready}
use paved.Api.Conditions.{Meta, MetaLaws, is_true, holds}
use paved.Runtime.{Runtime}
use paved.Builders.Objects.{Object}
use paved.Controller.Env.{
  Env, Reconciler, M, pure, Request, apply_object, apply_status, get_rollout, StatusPatch, Rollout,
}
use paved.Controller.Freeze.{SloReport}
use paved.Controller.Freeze.Ready.{ready_iff}
use paved.Controller.SloStatus.{evaluate_slo}
use paved.Controller.Storage.{StorageReport, evaluate_storage, reader_of}
use paved.Builders.Names.{namespace_name}
use paved.Controller.Storage.Provided.{IsStorageThere, evaluate_storage-IsStorageThere}
use paved.Controller.Reconcile.Laws.Asked.{send_status-last, read_rollout-asks, rollout_was_read}
use paved.Controller.Drift.{
  Applied, live_ownership, apply_objects, report_drift, in_sync_at_generation,
}
use paved.Controller.Drift.Laws.{sent, accepted, apply_objects-Sends}
use paved.Controller.Status.{status_patch, send_status, conversion_error}
use paved.Controller.Reconcile.{
  synced_condition, conditions_of, RolloutRead, read_rollout, report_applied, reconcile_objects,
}
use paved.Controller.Reconcile.Quiet.{
  patches, Same, Same-trans, Quiet-if, evaluate_slo-Quiet, evaluate_storage-Quiet,
  read_rollout-Quiet, report_drift-Quiet,
}
use paved.Controller.Reconcile.Conditions.{written-ready}

module _ (go : Runtime) (meta : Meta) (env : Env go) (r : Reconciler) (claim : ServiceClaim) where
  pub send_status-sent :
      (p : StatusPatch) (h : List Request) → sent (send_status go env claim p h).1 ≡ sent h
  unfolding send_status
  send_status-sent p h = ground arith

  pub send_status-patches :
      (p : StatusPatch) (h : List Request)
      → (patches (send_status go env claim p h).1 ≡ patches h)
        ⊎ (patches (send_status go env claim p h).1 ≡ p ∷ patches h)
  unfolding send_status
  send_status-patches p h = elim (Option-cases (conversion_error go env p.conditions)) [
    | inr (e, failed) ↦ inl (ground arith)
    | inl fine ↦ inr (ground arith)
  ]

  -- The parts of a reconcile after the objects were applied, with the history in front of it.
  module _ (total : ℕ) (applied : Applied) (h : List Request) where
    abbrev pub report_at : SloReport go
    report_at = (evaluate_slo go env r.prometheus claim h).0

    abbrev after_report : List Request
    after_report = (evaluate_slo go env r.prometheus claim h).1

    abbrev pub storage_at : StorageReport
    storage_at = (evaluate_storage go env r claim after_report).0

    abbrev after_storage : List Request
    after_storage = (evaluate_storage go env r claim after_report).1

    abbrev pub rollout_at : RolloutRead
    rollout_at = (read_rollout go meta env r claim applied.error after_storage).0

    abbrev after_rollout : List Request
    after_rollout = (read_rollout go meta env r claim applied.error after_storage).1

    abbrev pub patch_at : StatusPatch
    patch_at =
        status_patch go meta claim applied.count report_at storage_at.status
          (conditions_of go meta claim total applied report_at storage_at rollout_at)

    storage_step-Same : Same h after_storage
    storage_step-Same =
        Same-trans h after_report after_storage (evaluate_slo-Quiet go env r claim r.prometheus h)
          (evaluate_storage-Quiet go env r claim after_report)

    before_status-Same : Same h after_rollout
    before_status-Same =
        Same-trans h after_storage after_rollout storage_step-Same
          (read_rollout-Quiet go env r claim meta applied.error after_storage)

    report_applied-sent : sent (report_applied go meta env r claim total applied h).1 ≡ sent h
    unfolding report_applied
    report_applied-sent = send_status-sent patch_at after_rollout ∙ before_status-Same.0

    report_applied-patches :
        (patches (report_applied go meta env r claim total applied h).1 ≡ patches h)
        ⊎ (patches (report_applied go meta env r claim total applied h).1 ≡ patch_at ∷ patches h)
    unfolding report_applied
    report_applied-patches = elim (send_status-patches patch_at after_rollout) [
      | inl e ↦ inl (e ∙ before_status-Same.1)
      | inr e ↦ inr (e ∙ ap (λ l. patch_at ∷ l) before_status-Same.1)
    ]

  apply_objects-patches :
      (os : List Object) (h : List Request) → patches (apply_objects go env r os h).1 ≡ patches h
  unfolding apply_objects
  apply_objects-patches [] h = refl
  apply_objects-patches (o ∷ os) h =
      ground (arith, apply_objects-patches os (apply_object o ∷ (live_ownership go env r o h).1))

  synced-error :
      (n t : ℕ) (e : Option Error) → is_true (synced_condition claim n t e).status ≡ true → e ≡ none
  unfolding synced_condition
  synced-error n t none on = refl
  synced-error n t (some e) on = cc

  -- All of the objects were sent, if the loop ended without an error.
  all_sent :
      (os : List Object) (h : List Request)
      → (apply_objects go env r os h).0.error ≡ none
      → sent (apply_objects go env r os h).1 ≡ sent h ++ os
  all_sent os h fine =
      let s = apply_objects-Sends go env r os h in
      s.in_order
      ∙ ap (λ n. sent h ++ take n os) (all_counted s.outcome)
      ∙ ap (λ l. sent h ++ l) (take-length os)
    where
      all_counted :
          {n m k : ℕ}
          → (((apply_objects go env r os h).0.error ≡ none) × (m ≡ k) × (n ≡ k))
            ⊎ ((e : Error) × ((apply_objects go env r os h).0.error ≡ some e) × (m < k))
          → n ≡ k
      all_counted (inl (_, _, every)) = every
      all_counted (inr (e, failed, _)) = absurd (let no_way = sym fine ∙ failed in cc)

  -- And all of them were accepted.
  all_taken :
      (os : List Object) (h : List Request)
      → (apply_objects go env r os h).0.error ≡ none
      → accepted env.apply_answer (apply_objects go env r os h).1
        ≡ accepted env.apply_answer h ++ os
  all_taken os h fine =
      let s = apply_objects-Sends go env r os h in
      s.all_accepted
      ∙ ap (λ n. accepted env.apply_answer h ++ take n os) (all_counted s.outcome)
      ∙ ap (λ l. accepted env.apply_answer h ++ l) (take-length os)
    where
      all_counted :
          {n m k : ℕ}
          → (((apply_objects go env r os h).0.error ≡ none) × (m ≡ k) × (n ≡ k))
            ⊎ ((e : Error) × ((apply_objects go env r os h).0.error ≡ some e) × (m < k))
          → m ≡ k
      all_counted (inl (_, all, _)) = all
      all_counted (inr (e, failed, _)) = absurd (let no_way = sym fine ∙ failed in cc)

  module _ (os : List Object) (h : List Request) where
    -- The loop's result, and the history after the drift was reported.
    abbrev pub applied_at : Applied
    applied_at = (apply_objects go env r os h).0

    abbrev after_apply : List Request
    after_apply = (apply_objects go env r os h).1

    abbrev report_step : M (Unit {0})
    report_step =
        if in_sync_at_generation meta claim
        then report_drift go env r applied_at.corrections
        else pure tt

    abbrev pub after_drift : List Request
    after_drift = (report_step after_apply).1

    report_step-Same : Same after_apply after_drift
    report_step-Same =
        Quiet-if (in_sync_at_generation meta claim) _ tt
          (report_drift-Quiet go env r claim applied_at.corrections) after_apply

    abbrev out : List Request
    out = (reconcile_objects go meta env r claim os h).1

    reconcile_objects-sent : sent out ≡ sent after_apply
    unfolding reconcile_objects
    reconcile_objects-sent =
        report_applied-sent (length os) applied_at after_drift ∙ report_step-Same.0

    -- From its objects on, a reconcile writes the claim's status at most once, and then with what
    -- it applied and read before.
    pub reconcile_objects-patches :
        (patches out ≡ patches h)
        ⊎ (patches out ≡ patch_at (length os) applied_at after_drift ∷ patches h)
    unfolding reconcile_objects
    reconcile_objects-patches =
        let kept = report_step-Same.1 ∙ apply_objects-patches os h in
        elim (report_applied-patches (length os) applied_at after_drift) [
          | inl e ↦ inl (e ∙ kept)
          | inr e ↦ inr (e ∙ ap (λ l. patch_at (length os) applied_at after_drift ∷ l) kept)
        ]

    pub written_patch :
        (p : StatusPatch)
        → patches out ≡ p ∷ patches h
        → p ≡ patch_at (length os) applied_at after_drift
    written_patch p e = elim reconcile_objects-patches [
      | inl same ↦ absurd (cons-ne_self p (patches h) (sym e ∙ same))
      | inr new ↦ head-eq p _ (sym e ∙ new)
    ]

    -- What was accepted when the Rollout is read is every object, if the loop ended without an error.
    accepted_before :
        applied_at.error ≡ none
        → accepted env.apply_answer (after_storage (length os) applied_at after_drift)
          ≡ accepted env.apply_answer h ++ os
    accepted_before fine =
        (storage_step-Same (length os) applied_at after_drift).2 env.apply_answer
        ∙ report_step-Same.2 env.apply_answer
        ∙ all_taken os h fine

    -- The last two requests of a reconcile that wrote its status.
    last_requests :
        (p : StatusPatch)
        → patches out ≡ p ∷ patches h
        → applied_at.error ≡ none
        → out
          ≡ apply_status p
            ∷ get_rollout (reader_of r) (namespace_name claim) claim.name
            ∷ after_storage (length os) applied_at after_drift
    unfolding reconcile_objects report_applied
    last_requests p e fine =
        let total = length os in
        let before =
          (before_status-Same total applied_at after_drift).1
          ∙ report_step-Same.1
          ∙ apply_objects-patches os h in
        send_status-last go env claim (patch_at total applied_at after_drift) p
          (after_rollout total applied_at after_drift) (e ∙ ap (λ l. p ∷ l) (sym before))
        ∙ ap (λ q. apply_status q ∷ after_rollout total applied_at after_drift)
            (sym (written_patch p e))
        ∙ ap (λ l. apply_status p ∷ l)
            (read_rollout-asks go meta env r claim applied_at.error
              (after_storage total applied_at after_drift) fine)

    -- A status that is written with Ready True was the last request of the reconcile, right behind the read of
    -- the Rollout, and that behind the apply of every object: all of them were sent and accepted by the API
    -- server, and the answer was a Rollout that is healthy at its current generation. If the claim asked for
    -- storage, its role and its bucket were read in between, and ACK had synced both.
    pub reconcile_objects-ready :
        (laws : MetaLaws meta) (p : StatusPatch)
        → patches (reconcile_objects go meta env r claim os h).1 ≡ p ∷ patches h
        → holds (meta.find p.conditions condition_ready) ≡ true
        → (sent (reconcile_objects go meta env r claim os h).1 ≡ sent h ++ os)
          × ((k : List Request) × (ro : Rollout) × ((reconcile_objects go meta env r claim os h).1
                ≡ apply_status p ∷ get_rollout (reader_of r) (namespace_name claim) claim.name ∷ k)
              × (accepted env.apply_answer k ≡ accepted env.apply_answer h ++ os)
              × (env.rollout_answer k (reader_of r) (namespace_name claim) claim.name ≡ ok ro)
              × (ro.observed_generation ≡ itoa ro.generation)
              × (ro.phase ≡ "Healthy")
              × IsStorageThere go env r claim k)
    unfolding status_patch
    reconcile_objects-ready laws p e on =
        let total = length os in
        let report = report_at total applied_at after_drift in
        let storage = storage_at total applied_at after_drift in
        let rollout = rollout_at total applied_at after_drift in
        let on' : holds
              (meta.find (patch_at total applied_at after_drift).conditions condition_ready)
            ≡ true =
          subst (λ (q : StatusPatch). holds (meta.find q.conditions condition_ready) ≡ true)
            (written_patch p e) on in
        let (synced, stored, fine, observed, healthy) =
          (ready_iff claim (synced_condition claim applied_at.count total applied_at.error)
              storage.condition rollout.rollout rollout.error).0
            (rw (written-ready go meta laws claim total applied_at report storage rollout) at
              on') in
        let applied = synced-error applied_at.count total applied_at.error synced in
        let (ro, answered, same) =
          rollout_was_read go meta env r claim applied_at.error
            (after_storage total applied_at after_drift) applied fine in
        (
          reconcile_objects-sent ∙ all_sent os h applied,
          (
            after_storage total applied_at after_drift,
            ro,
            last_requests p e applied,
            accepted_before applied,
            answered,
            rw same at observed,
            rw same at healthy,
            evaluate_storage-IsStorageThere go env r claim
                (after_report total applied_at after_drift) stored,
          ),
        )
