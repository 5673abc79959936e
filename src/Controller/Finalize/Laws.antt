-- ===== src/Controller/Finalize/Laws.antt =====
-- What finalizing a claim may ask of the API server.
use paved.Base.{
  String, true, false, List, [], ◌∷◌, none, Result, ok, err, is_not_found, ◌≡◌, ◌⊎◌, inl, inr,
  arith, contains, Bool-cases, Result-cases,
}
use paved.Api.{ServiceClaim}
use paved.Runtime.{Runtime}
use paved.Builders.Names.{namespace_name}
use paved.Controller.Env.{Env, Request, Namespace, get_namespace, delete_namespace, apply_finalizer}
use paved.Controller.Status.{set_finalizer}
use paved.Controller.Watch.{belongs_to}
use paved.Controller.Finalize.{poll, finalizer, finalize}

-- The namespaces whose deletion was requested, and the claims whose finalizer was, newest first.
abbrev pub deletions : List Request → List String
deletions [] = []
deletions (delete_namespace n ∷ h) = n ∷ deletions h
deletions (_ ∷ h) = deletions h

abbrev pub releases : List Request → List (String × String)
releases [] = []
releases (apply_finalizer ns n false ∷ h) = (ns, n) ∷ releases h
releases (_ ∷ h) = releases h

module _ (go : Runtime) (env : Env go) (claim : ServiceClaim) (h : List Request) where
  -- The answer about the claim's namespace.
  abbrev pub namespace_seen : Result Namespace
  namespace_seen = env.namespace_answer h (namespace_name claim)

  -- At most one deletion is requested, of a namespace that carries the claim's labels and is not yet
  -- being deleted, while the claim still has the finalizer.
  pub finalize-deletions :
      (deletions (finalize go env claim h).1 ≡ deletions h)
      ⊎ ((ns : Namespace) × (namespace_seen ≡ ok ns)
          × (belongs_to ns.labels claim ≡ true)
          × (ns.deleting ≡ false)
          × (contains claim.finalizers finalizer ≡ true)
          × (deletions (finalize go env claim h).1 ≡ ns.name ∷ deletions h))
  unfolding finalize set_finalizer
  finalize-deletions = elim (Bool-cases (contains claim.finalizers finalizer)) [
    | inr free ↦ inl (ground arith)
    | inl held ↦ elim (Result-cases namespace_seen) [
      | inr (e, seen) ↦ inl (ground arith)
      | inl (ns, seen) ↦ elim (Bool-cases (belongs_to ns.labels claim)) [
        | inr other ↦ inl (ground arith)
        | inl mine ↦ elim (Bool-cases ns.deleting) [
          | inl going ↦ inl (ground arith)
          | inr stays ↦ inr (ns, seen, mine, stays, held, ground arith)
        ]
      ]
    ]
  ]

  -- The namespace is gone, or is labelled as another claim's.
  abbrev pub IsReleasable : Result Namespace → Type 0
  IsReleasable (ok ns) = belongs_to ns.labels claim ≡ false
  IsReleasable (err e) = is_not_found e ≡ true

  -- At most one release of the finalizer is requested, the claim's own, while it has the finalizer
  -- and its namespace is gone or belongs to another claim.
  pub finalize-releases :
      (releases (finalize go env claim h).1 ≡ releases h)
      ⊎ (IsReleasable namespace_seen
          × (contains claim.finalizers finalizer ≡ true)
          × (releases (finalize go env claim h).1 ≡ (claim.namespace, claim.name) ∷ releases h))
  unfolding finalize set_finalizer
  finalize-releases = elim (Bool-cases (contains claim.finalizers finalizer)) [
    | inr free ↦ inl (ground arith)
    | inl held ↦ elim (Result-cases namespace_seen) [
      | inr (e, seen) ↦ elim (Bool-cases (is_not_found e)) [
        | inl missing ↦ inr (rw seen missing, held, ground arith)
        | inr other ↦ inl (ground arith)
      ]
      | inl (ns, seen) ↦ elim (Bool-cases (belongs_to ns.labels claim)) [
        | inr other ↦ inr (rw seen other, held, ground arith)
        | inl mine ↦ inl (ground arith)
      ]
    ]
  ]

  -- While the namespace is the claim's own and still there, the claim is looked at again in 5
  -- seconds, unless its deletion fails; the deletion is requested on the first of these looks.
  pub finalize-polls :
      (ns : Namespace)
      → contains claim.finalizers finalizer ≡ true
      → namespace_seen ≡ ok ns
      → belongs_to ns.labels claim ≡ true
      → (ns.deleting ≡ true → (finalize go env claim h).0 ≡ poll)
        × (ns.deleting ≡ false
            → env.delete_answer (get_namespace (namespace_name claim) ∷ h) ns.name ≡ none
            → (finalize go env claim h).0 ≡ poll)
  unfolding finalize
  finalize-polls ns held seen mine = (λ d. ground arith, λ d a. ground arith)
