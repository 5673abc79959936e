-- ===== src/Controller/Watch/Laws.antt =====
-- The watch on the managed objects leads back to their claim.
use paved.Base.{true, List, [], ◌∷◌, Option, ok, ◌≡◌, arith, All, eq_iff}
use paved.Api.{ServiceClaim}
use paved.Runtime.{Runtime}
use paved.Builders.Objects.{Object}
use paved.Builders.Storage.{StorageConfig}
use paved.Builders.Set.{build}
use paved.Builders.Set.Laws.{IsManaged, build-IsManaged}
use paved.Controller.Watch.{claim_for_object, belongs_to}

-- An event of the object requeues the claim and no other, and the finalizer takes the object for its own.
abbrev pub LeadsTo : ServiceClaim → Object → Type 0
LeadsTo claim o =
    (claim_for_object o.meta.labels ≡ (claim.namespace, claim.name) ∷ [])
    × (belongs_to o.meta.labels claim ≡ true)

managed-LeadsTo :
    (claim : ServiceClaim) (o : Object)
    → ¬ (claim.name ≡ "")
    → ¬ (claim.namespace ≡ "")
    → IsManaged claim o
    → LeadsTo claim o
unfolding claim_for_object belongs_to
managed-LeadsTo claim o named placed m = ground (
  arith,
  m.claim,
  m.claim_namespace,
  eq_iff claim.name "",
  eq_iff claim.namespace "",
  eq_iff claim.name claim.name,
  eq_iff claim.namespace claim.namespace,
)

All-LeadsTo :
    (claim : ServiceClaim) (os : List Object)
    → ¬ (claim.name ≡ "")
    → ¬ (claim.namespace ≡ "")
    → All (IsManaged claim) os
    → All (LeadsTo claim) os
All-LeadsTo claim [] named placed h = tt
All-LeadsTo claim (o ∷ os) named placed (m, h) =
    (managed-LeadsTo claim o named placed m, All-LeadsTo claim os named placed h)

-- Every object that a claim with a name and a namespace is built into leads the watches back to that
-- claim, and is recognized as the claim's.
pub build-LeadsTo :
    (go : Runtime) (claim : ServiceClaim) (storage : Option StorageConfig) (os : List Object)
    → ¬ (claim.name ≡ "")
    → ¬ (claim.namespace ≡ "")
    → build go claim storage ≡ ok os
    → All (LeadsTo claim) os
build-LeadsTo go claim storage os named placed e =
    All-LeadsTo claim os named placed (build-IsManaged go claim storage os e)
