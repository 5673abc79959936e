-- ===== src/Controller/Storage/Kinds.antt =====
-- internal/controller/storage.go: ServesStorageKinds. The API server's mapper is a parameter.
use paved.Base.{String, List, [], ◌∷◌, Option, none, some, wrap, Error, concat, ◌≡◌, ◌↔◌, arith}
use paved.Builders.Objects.{Kind, kind_name}
use paved.Builders.Storage.{storage_types}

-- A GroupVersionKind as text: RoleGVK's and BucketGVK's, and otherwise the kind alone.
abbrev gvk_text : Kind → String
gvk_text Kind.role = "iam.services.k8s.aws/v1alpha1, Kind=Role"
gvk_text Kind.bucket = "s3.services.k8s.aws/v1alpha1, Kind=Bucket"
gvk_text kind = kind_name kind

-- The loop, with the error of asking for a kind, if asking fails.
unfoldable pub served_kinds : (Kind → Option Error) → List Kind → Option Error
served_kinds mapping [] = none
served_kinds mapping (kind ∷ kinds) = elim (mapping kind) [
  | some e ↦ some (wrap (concat ("the API server doesn't serve " ∷ gvk_text kind ∷ ": " ∷ [])) e)
  | none ↦ served_kinds mapping kinds
]

unfoldable pub serves_storage_kinds : (Kind → Option Error) → Option Error
unfolding served_kinds
serves_storage_kinds mapping = served_kinds mapping storage_types

-- There is no error exactly if the API server serves both kinds.
pub serves_storage_kinds-none :
    (mapping : Kind → Option Error)
    → (serves_storage_kinds mapping ≡ none)
      ↔ ((mapping Kind.role ≡ none) × (mapping Kind.bucket ≡ none))
unfolding serves_storage_kinds
serves_storage_kinds-none mapping = ground arith
