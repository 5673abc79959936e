-- ===== src/Controller/Storage/Provided.antt =====
-- What a claim's storage that is ready says of the answers of the API server.
use paved.Base.{
  String, true, false, List, ◌∷◌, Option, none, some, Result, ok, err, ◌≡◌, refl, sym, ap, ◌⊎◌, inl,
  inr, All, not, if_of_false, Bool-cases,
}
use mathlib.Core.Path.{subst}
use paved.Controller.Drift.{object_ref}
use paved.Api.{ServiceClaim, Status, condition_true, condition_false, condition_unknown}
use paved.Api.Conditions.{is_true}
use paved.Runtime.{Runtime}
use paved.Builders.Objects.{Kind, kind_name, ObjectMeta}
use paved.Builders.Names.{namespace_name}
use paved.Builders.Storage.{StorageConfig, storage_types}
use paved.Controller.Env.{Env, Reconciler, Request, get_storage, AckObject}
use paved.Controller.Freeze.Ready.{StorageAllows}
use paved.Controller.Storage.{
  ObservedAckObject, observed_of, reader_of, read_kinds, evaluate_linked, evaluate_storage,
  storage_condition, storage_decision,
}
use paved.Controller.Storage.Laws.{IsProvisioned, storage_decision-true}

is_true-eq : (s : Status) → is_true s ≡ true → s ≡ condition_true
is_true-eq condition_true h = refl
is_true-eq condition_false h = cc
is_true-eq condition_unknown h = cc

observed_of-IsProvisioned :
    (kind : Kind) (key : ObjectMeta) (answer : Result AckObject)
    → IsProvisioned (observed_of kind key answer)
    → (o : AckObject) × (ref : String) × (answer ≡ ok o)
      × IsProvisioned (record { kind = kind_name kind; ref = ref; object = o; read_error = none })
observed_of-IsProvisioned kind key (ok o) p = (o, object_ref key, refl, p)
observed_of-IsProvisioned kind key (err e) (failed, _) = absurd cc

module _ (go : Runtime) (env : Env go) (r : Reconciler) (claim : ServiceClaim) where
  abbrev asks : Kind → List Request → List Request
  asks kind h = get_storage (reader_of r) kind (namespace_name claim) claim.name ∷ h

  -- The API server's answer behind this history is an object that ACK has synced.
  abbrev pub IsSyncedAt : Kind → List Request → Type 0
  IsSyncedAt kind h =
      (o : AckObject) × (ref : String) × (env.storage_answer h (reader_of r) kind
          (namespace_name claim) claim.name
        ≡ ok o)
      × IsProvisioned (record { kind = kind_name kind; ref = ref; object = o; read_error = none })

  -- A claim that asked for no storage, or one whose role and bucket were just read and are synced.
  abbrev pub IsStorageThere : List Request → Type 0
  IsStorageThere k =
      (claim.spec.storage ≡ false)
      ⊎ ((h : List Request) × (k
            ≡ get_storage (reader_of r) Kind.bucket (namespace_name claim) claim.name
              ∷ get_storage (reader_of r) Kind.role (namespace_name claim) claim.name
              ∷ h)
          × IsSyncedAt Kind.role h
          × IsSyncedAt Kind.bucket
              (get_storage (reader_of r) Kind.role (namespace_name claim) claim.name ∷ h))

  abbrev observed : List Request → List ObservedAckObject
  observed h = (read_kinds go env r claim storage_types h).0

  observed-IsSyncedAt :
      (h : List Request)
      → All IsProvisioned (observed h)
      → IsSyncedAt Kind.role h × IsSyncedAt Kind.bucket (asks Kind.role h)
  unfolding read_kinds
  observed-IsSyncedAt h (role, (bucket, _)) = (
    observed_of-IsProvisioned Kind.role _ _ role,
    observed_of-IsProvisioned Kind.bucket _ _ bucket,
  )

  linked_is_there :
      (h : List Request) (storage : Option StorageConfig)
      → StorageAllows (evaluate_linked go env r claim storage h).0.condition
      → IsStorageThere (evaluate_linked go env r claim storage h).1
  unfolding evaluate_linked read_kinds storage_condition
  linked_is_there h none allowed = cc
  linked_is_there h (some storage) allowed =
      let decided = is_true-eq (storage_decision (observed h)).0 allowed in
      let (role, bucket) = observed-IsSyncedAt h ((storage_decision-true (observed h)).0 decided) in
      inr (h, refl, role, bucket)

  -- A StorageReady condition that lets a claim be Ready.
  pub evaluate_storage-IsStorageThere :
      (h : List Request)
      → StorageAllows (evaluate_storage go env r claim h).0.condition
      → IsStorageThere (evaluate_storage go env r claim h).1
  unfolding evaluate_storage
  evaluate_storage-IsStorageThere h allowed = elim (Bool-cases claim.spec.storage) [
    | inr off ↦ inl off
    | inl on ↦
        let same : evaluate_storage go env r claim ≡ evaluate_linked go env r claim r.storage =
          if_of_false _ _ (ap not on) in
        subst (λ m. IsStorageThere (m h).1) (sym same)
          (linked_is_there h r.storage (subst (λ m. StorageAllows (m h).0.condition) same allowed))
  ]
