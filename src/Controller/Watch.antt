-- ===== src/Controller/Watch.antt =====
-- The watches of internal/controller/serviceclaim_controller.go: which events requeue a claim, and
-- which claim a managed object leads to.
pub mod Laws
pub mod Kinds
use paved.Base.{
  String, Bool, true, false, ◌&&◌, ◌||◌, List, [], ◌∷◌, ◌++◌, Option, none, some, text_at,
  if◌then◌else◌, ◌==◌,
}
use paved.Api.{ServiceClaim}
use paved.Builders.Objects.{Kind}
use paved.Builders.Set.{managed_types}
use paved.Builders.Storage.{StorageConfig, storage_types, linked}
use paved.Builders.Names.{label_claim, label_claim_namespace}

-- claimForObject, from the object's labels: a claim's namespace and name.
unfoldable pub claim_for_object : List (String × String) → List (String × String)
claim_for_object labels =
    if text_at label_claim labels == "" || text_at label_claim_namespace labels == ""
    then []
    else (text_at label_claim_namespace labels, text_at label_claim labels) ∷ []

unfoldable pub belongs_to : List (String × String) → ServiceClaim → Bool
belongs_to labels claim =
    text_at label_claim labels == claim.name
    && text_at label_claim_namespace labels == claim.namespace

-- An update as the predicates of controller-runtime see it: whether the generation, the labels or
-- the annotations changed, and whether the new object is being deleted.
pub record Update : Type 0 where
  pub generation_changed : Bool
  pub labels_changed : Bool
  pub annotations_changed : Bool
  pub deleting : Bool

-- claimChanged on an update. Other events pass.
unfoldable pub claim_changed : Update → Bool
claim_changed u = u.generation_changed || u.labels_changed || u.annotations_changed || u.deleting

-- The kinds whose events lead back to a claim: ManagedTypes, and StorageTypes on a cluster that is
-- linked to AWS.
unfoldable pub watched_types : Bool → List Kind
watched_types linked = managed_types ++ (if linked then storage_types else [])

-- SetupWithManager: what it asks controller-runtime to watch, besides the claims.
unfoldable pub setup_with_manager : Option StorageConfig → List Kind
unfolding watched_types
setup_with_manager storage = watched_types (linked storage)
