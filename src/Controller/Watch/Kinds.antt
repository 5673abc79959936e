-- ===== src/Controller/Watch/Kinds.antt =====
-- Every object that a claim is built into is of a kind that the controller watches.
use paved.Base.{
  Bool, true, false, List, [], ◌∷◌, map, Option, ok, ◌≡◌, refl, arith, ◌==◌, ◌||◌, ◌&&◌, All,
}
use paved.Api.{ServiceClaim, tier_public}
use paved.Runtime.{Runtime}
use paved.Builders.Objects.{Object, Kind, kind_name}
use paved.Builders.Storage.{StorageConfig, linked, has_storage}
use paved.Builders.Workload.{has_autoscaling, has_canary_analysis}
use paved.Builders.Set.{build}
use paved.Builders.Set.Kinds.{object_kind, kinds, build-kinds}
use paved.Controller.Watch.{watched_types}

abbrev pub has_kind : List Kind → Kind → Bool
has_kind [] k = false
has_kind (j ∷ js) k = kind_name j == kind_name k || has_kind js k

all_watched : Bool → List Kind → Bool
all_watched linked [] = true
all_watched linked (k ∷ ks) = has_kind (watched_types linked) k && all_watched linked ks

kinds-watched :
    (linked with_storage with_canary with_scaling with_ingress : Bool)
    → (with_storage ≡ true → linked ≡ true)
    → all_watched linked (kinds with_storage with_canary with_scaling with_ingress) ≡ true
unfolding kinds all_watched watched_types
kinds-watched false true c s i h = cc (h refl)
kinds-watched true true c s i h = ground arith
kinds-watched l false c s i h = ground arith

all_watched-All :
    (linked : Bool) (os : List Object)
    → all_watched linked (map object_kind os) ≡ true
    → All (λ o. has_kind (watched_types linked) (object_kind o) ≡ true) os
unfolding all_watched
all_watched-All linked [] h = tt
all_watched-All linked (o ∷ os) h = (ground arith, all_watched-All linked os (ground arith))

linked_of_has_storage :
    (sc : ServiceClaim) (storage : Option StorageConfig)
    → has_storage sc storage ≡ true
    → linked storage ≡ true
unfolding has_storage
linked_of_has_storage sc storage h = ground arith

-- Every object that a claim is built into is of a kind that the controller watches.
pub build-watched :
    (go : Runtime) (sc : ServiceClaim) (storage : Option StorageConfig) (os : List Object)
    → build go sc storage ≡ ok os
    → All (λ o. has_kind (watched_types (linked storage)) (object_kind o) ≡ true) os
build-watched go sc storage os e = all_watched-All (linked storage) os (
    rw (build-kinds go sc storage os e) (
      kinds-watched (linked storage) (has_storage sc storage) (has_canary_analysis sc)
        (has_autoscaling sc) (sc.spec.tier == tier_public) (linked_of_has_storage sc storage)))
