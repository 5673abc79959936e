-- ===== src/Controller/Reconcile/Laws/Asked.antt =====
-- What a reconcile asks at its end: the read of the Rollout and the apply of the status.
use paved.Base.{
  List, ◌∷◌, Option, none, Result, ok, err, Error, is_not_found, true, ◌≡◌, refl, sym, ◌⊎◌, inl,
  inr, arith, Option-cases, Result-cases, cons-ne_self,
}
use paved.Api.{ServiceClaim}
use paved.Api.Conditions.{Meta}
use paved.Runtime.{Runtime}
use paved.Builders.Names.{namespace_name}
use paved.Controller.Env.{Env, Reconciler, Request, StatusPatch, Rollout, apply_status, get_rollout}
use paved.Controller.Storage.{reader_of}
use paved.Controller.Status.{send_status, conversion_error}
use paved.Controller.Reconcile.{read_rollout, unless_not_found}
use paved.Controller.Reconcile.Quiet.{patches}

module _ (go : Runtime) (env : Env go) (claim : ServiceClaim) where
  -- A status that was written was the last request.
  pub send_status-last :
      (p q : StatusPatch) (h : List Request)
      → patches (send_status go env claim p h).1 ≡ q ∷ patches h
      → (send_status go env claim p h).1 ≡ apply_status p ∷ h
  unfolding send_status
  send_status-last p q h written = elim (Option-cases (conversion_error go env p.conditions)) [
    | inr (e, failed) ↦ absurd (
        let same : patches h ≡ q ∷ patches h = rw (failed, send_status) at written in
        cons-ne_self q (patches h) (sym same))
    | inl fine ↦ rw (fine, send_status) refl
  ]

  -- A status that was applied without an error.
  pub send_status-none :
      (p : StatusPatch) (h : List Request)
      → (send_status go env claim p h).0 ≡ none
      → ((send_status go env claim p h).1 ≡ apply_status p ∷ h) × (env.status_answer h ≡ none)
  unfolding send_status
  send_status-none p h fine = elim (Option-cases (conversion_error go env p.conditions)) [
    | inr (e, failed) ↦ absurd (ground (arith, failed))
    | inl converted ↦ (rw (converted, send_status) refl, ground (arith, converted))
  ]

module _ (go : Runtime) (meta : Meta) (env : Env go) (r : Reconciler) (claim : ServiceClaim)
    (e : Option Error) (k : List Request) (applied : e ≡ none) where
  abbrev pub rollout_request : Request
  rollout_request = get_rollout (reader_of r) (namespace_name claim) claim.name

  -- What the API server says of the claim's Rollout.
  abbrev pub rollout_said : Result Rollout
  rollout_said = env.rollout_answer k (reader_of r) (namespace_name claim) claim.name

  pub read_rollout-asks : (read_rollout go meta env r claim e k).1 ≡ rollout_request ∷ k
  unfolding read_rollout
  read_rollout-asks = ground (arith, applied)

  pub rollout_was_read :
      (read_rollout go meta env r claim e k).0.error ≡ none
      → (ro : Rollout) × (rollout_said ≡ ok ro)
        × ((read_rollout go meta env r claim e k).0.rollout ≡ ro)
  unfolding read_rollout
  rollout_was_read fine = elim (Result-cases rollout_said) [
    | inl (ro, answered) ↦ (ro, answered, ground (arith, applied))
    | inr (f, refused) ↦ absurd (ground (arith, applied))
  ]

  -- A read whose error does not count.
  pub rollout_or_missing :
      unless_not_found (read_rollout go meta env r claim e k).0.error ≡ none
      → ((ro : Rollout) × (rollout_said ≡ ok ro))
        ⊎ ((f : Error) × (rollout_said ≡ err f) × (is_not_found f ≡ true))
  unfolding read_rollout unless_not_found is_not_found
  rollout_or_missing fine = elim (Result-cases rollout_said) [
    | inl said ↦ inl said
    | inr (f, refused) ↦ inr (f, refused, ground (arith, applied, refused))
  ]
