-- ===== src/Builders/Workload/Laws.antt =====
-- The replicas of a claim's workload, and the security of its pods.
use paved.Base.{
  ◌≤◌, String, Bool, true, false, List, [], ◌∷◌, Option, none, some, ◌≡◌, refl, arith, eq_iff,
  if◌then◌else◌, All, ◌⊎◌,
}
use paved.Api.{ServiceClaim, tier_public}
use paved.Runtime.{Runtime}
use paved.Builders.Objects.{
  AutoscalerSpec, PodSpec, Container, EnvVar, VolumeMount, autoscaler_body,
}
use paved.Builders.Storage.{StorageConfig, with_env, with_storage_identity}
use paved.Builders.Workload.{
  min_replicas, has_autoscaling, base_pod_spec, pod_spec, build_hpa, resource_requests,
  resource_limits,
}

-- The autoscaler's bounds are in order whatever the spec says, its upper bound is at least the claim's,
-- its lower bound is at least 2 for a public claim, and at least the claim's for a public or internal one.
pub build_hpa-bounds :
    (sc : ServiceClaim)
    → (spec : AutoscalerSpec) × ((build_hpa sc).body ≡ autoscaler_body spec)
      × (spec.min_replicas ≤ spec.max_replicas)
      × (sc.spec.scale.max ≤ spec.max_replicas)
      × (¬ (sc.spec.tier ≡ tier_public) ⊎ (2 ≤ spec.min_replicas))
      × ((has_autoscaling sc ≡ false) ⊎ (sc.spec.scale.min ≤ spec.min_replicas))
unfolding build_hpa min_replicas has_autoscaling
build_hpa-bounds sc =
    let public = eq_iff sc.spec.tier tier_public in
    (_, refl, omega arith, omega arith, ground (arith, public), ground arith)

-- A container that runs the image without privileges, within its limits.
pub record IsHardened (image : String) (c : Container) : Type 0 where
  pub claims_image : c.image ≡ image
  pub unprivileged : c.allow_privilege_escalation ≡ false
  pub read_only : c.read_only_root_filesystem ≡ true
  pub without_capabilities : c.drop_capabilities ≡ "ALL" ∷ []
  pub cpu_limited : c.requests.cpu ≤ c.limits.cpu
  pub memory_limited : c.requests.memory ≤ c.limits.memory

abbrev pub PodIsHardened : String → PodSpec → Type 0
PodIsHardened image pod =
    (pod.run_as_non_root ≡ true) × ¬ (pod.run_as_user ≡ 0) × All (IsHardened image) pod.containers

base_pod_spec-IsHardened : (sc : ServiceClaim) → PodIsHardened sc.spec.image (base_pod_spec sc)
unfolding base_pod_spec resource_requests resource_limits
base_pod_spec-IsHardened sc = (
  refl,
  λ e. omega arith,
  (
    record {
      claims_image = refl;
      unprivileged = refl;
      read_only = refl;
      without_capabilities = refl;
      cpu_limited = omega arith;
      memory_limited = omega arith;
    },
    tt,
  ),
)

with_env-IsHardened :
    (image : String) (env : List EnvVar) (mount : VolumeMount) (cs : List Container)
    → All (IsHardened image) cs
    → All (IsHardened image) (with_env env mount cs)
unfolding with_env
with_env-IsHardened image env mount [] h = tt
with_env-IsHardened image env mount (c ∷ cs) (p, h) = (
  record {
    claims_image = p.claims_image;
    unprivileged = p.unprivileged;
    read_only = p.read_only;
    without_capabilities = p.without_capabilities;
    cpu_limited = p.cpu_limited;
    memory_limited = p.memory_limited;
  },
  with_env-IsHardened image env mount cs h,
)

module _ (go : Runtime) (sc : ServiceClaim) where
  with_storage_identity-IsHardened :
      (storage : StorageConfig) (image : String) (pod : PodSpec)
      → PodIsHardened image pod
      → PodIsHardened image (with_storage_identity go sc storage pod)
  unfolding with_storage_identity
  with_storage_identity-IsHardened storage image pod (user, uid, h) =
      (user, uid, with_env-IsHardened image _ _ pod.containers h)

  PodIsHardened-if :
      (b : Bool) (image : String) (pod other : PodSpec)
      → PodIsHardened image pod
      → PodIsHardened image other
      → PodIsHardened image (if b then pod else other)
  PodIsHardened-if true image pod other h k = h
  PodIsHardened-if false image pod other h k = k

  -- The pods of a claim run its image as a user that is not root, and every container is hardened,
  -- with a storage identity or without.
  pub pod_spec-IsHardened :
      (storage : Option StorageConfig) → PodIsHardened sc.spec.image (pod_spec go sc storage)
  unfolding pod_spec
  pod_spec-IsHardened none = base_pod_spec-IsHardened sc
  pod_spec-IsHardened (some storage) =
      PodIsHardened-if sc.spec.storage sc.spec.image _ _
        (with_storage_identity-IsHardened storage sc.spec.image (base_pod_spec sc)
          (base_pod_spec-IsHardened sc))
        (base_pod_spec-IsHardened sc)
