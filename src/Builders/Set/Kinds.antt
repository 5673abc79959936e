-- ===== src/Builders/Set/Kinds.antt =====
-- Which kinds of objects a claim is built into, and how many: the table in the comment of Build.
use mathlib.Core.Path.{subst}
use paved.Base.{
  ℕ, suc, ◌+◌, String, Bool, true, false, not, ◌||◌, List, [], ◌∷◌, ◌++◌, map, Option, none, some,
  ok, ◌≡◌, refl, ap, ◌∙◌, sym, arith, ◌⊎◌, inl, inr, ◌==◌, if◌then◌else◌, length,
}
use paved.Api.{ServiceClaim, tier_public, tier_internal, tier_batch}
use paved.Runtime.{Runtime}
use paved.Builders.Objects.{Object, Kind, kind_of}
use paved.Builders.Storage.{StorageConfig, has_storage, build_storage_role, build_storage_bucket}
use paved.Builders.Workload.{
  has_autoscaling, has_canary_analysis, build_rollout, build_hpa, build_pod_disruption_budget,
  build_service, build_namespace, build_service_account,
}
use paved.Builders.Network.{build_network_policy, build_ingress}
use paved.Builders.Monitoring.{
  build_service_monitor, build_analysis_template, build_prometheus_rule,
}
use paved.Builders.Dashboard.{build_dashboard}
use paved.Builders.Runbook.{build_runbook}
use paved.Builders.Set.{storage_objects, objects_of, build}
use paved.Builders.Set.Laws.{build-eq-ok}

abbrev pub object_kind : Object → Kind
object_kind o = kind_of o.body

-- The kinds of a claim with these answers to its three questions, in the order of application.
unfoldable pub kinds : Bool → Bool → Bool → Bool → List Kind
kinds with_storage with_canary with_scaling with_ingress =
    Kind.namespace
      ∷ Kind.service_account
      ∷ (if with_storage then Kind.role ∷ Kind.bucket ∷ [] else [])
    ++ ((if with_canary then Kind.analysis_template ∷ [] else [])
        ++ (Kind.rollout
              ∷ Kind.network_policy
              ∷ Kind.prometheus_rule
              ∷ Kind.service_monitor
              ∷ Kind.config_map
              ∷ Kind.config_map
              ∷ (if with_scaling
                  then Kind.service ∷ Kind.horizontal_pod_autoscaler ∷ Kind.pod_disruption_budget
                    ∷ []
                  else [])
            ++ (if with_ingress then Kind.ingress ∷ [] else [])))

module _ (go : Runtime) (sc : ServiceClaim) where
  prometheus_rule-kind :
      (o : Object) → build_prometheus_rule go sc ≡ ok o → object_kind o ≡ Kind.prometheus_rule
  unfolding build_prometheus_rule
  prometheus_rule-kind o e = ground arith

  dashboard-kind : (o : Object) → build_dashboard go sc ≡ ok o → object_kind o ≡ Kind.config_map
  unfolding build_dashboard
  dashboard-kind o e = ground arith

  runbook-kind : (o : Object) → build_runbook go sc ≡ ok o → object_kind o ≡ Kind.config_map
  unfolding build_runbook
  runbook-kind o e = ground arith

  objects_of-kinds :
      (storage : Option StorageConfig) (rule dashboard runbook : Object)
      → object_kind rule ≡ Kind.prometheus_rule
      → object_kind dashboard ≡ Kind.config_map
      → object_kind runbook ≡ Kind.config_map
      → map object_kind (objects_of go sc storage rule dashboard runbook)
        ≡ kinds
            (has_storage sc storage)
            (has_canary_analysis sc)
            (has_autoscaling sc)
            (sc.spec.tier == tier_public)
  unfolding objects_of storage_objects kinds has_storage build_namespace build_service_account
      build_storage_role build_storage_bucket build_analysis_template build_rollout
      build_network_policy build_service_monitor build_service build_hpa build_pod_disruption_budget
      build_ingress
  objects_of-kinds none rule dashboard runbook h k l = ground arith
  objects_of-kinds (some storage) rule dashboard runbook h k l = ground arith

  -- The kinds of the objects that a claim is built into, in order: its storage, canary, scaling
  -- and ingress each add theirs.
  pub build-kinds :
      (storage : Option StorageConfig) (os : List Object)
      → build go sc storage ≡ ok os
      → map object_kind os
        ≡ kinds
            (has_storage sc storage)
            (has_canary_analysis sc)
            (has_autoscaling sc)
            (sc.spec.tier == tier_public)
  build-kinds storage os e =
      let (rule, dashboard, runbook, made, shown, written, same) = build-eq-ok go sc storage os e in
      subst
        (λ o.
          map object_kind o
          ≡ kinds (has_storage sc storage) (has_canary_analysis sc) (has_autoscaling sc)
              (sc.spec.tier == tier_public))
        same
        (objects_of-kinds storage rule dashboard runbook (prometheus_rule-kind rule made)
          (dashboard-kind dashboard shown) (runbook-kind runbook written))

length-map : (os : List Object) → length (map object_kind os) ≡ length os
length-map [] = refl
length-map (o ∷ os) = ap suc (length-map os)

-- The table: the objects of each tier, without storage.
abbrev pub tier_size : String → ℕ
tier_size tier = if tier == tier_public then 13 else if tier == tier_internal then 12 else 8

abbrev pub IsTier : String → Type 0
IsTier tier = (tier ≡ tier_public) ⊎ (tier ≡ tier_internal) ⊎ (tier ≡ tier_batch)

size_of_tier :
    (tier : String) (b : Bool)
    → IsTier tier
    → length (
        kinds b
          (not (tier == tier_batch))
          (tier == tier_public || tier == tier_internal)
          (tier == tier_public))
      ≡ tier_size tier + (if b then 2 else 0)
unfolding kinds
size_of_tier tier true (inl e) = rw e
size_of_tier tier true (inr (inl e)) = rw e
size_of_tier tier true (inr (inr e)) = rw e
size_of_tier tier false (inl e) = rw e
size_of_tier tier false (inr (inl e)) = rw e
size_of_tier tier false (inr (inr e)) = rw e

size_of_kinds :
    (sc : ServiceClaim) (b : Bool)
    → IsTier sc.spec.tier
    → length (kinds b (has_canary_analysis sc) (has_autoscaling sc) (sc.spec.tier == tier_public))
      ≡ tier_size sc.spec.tier + (if b then 2 else 0)
unfolding has_canary_analysis has_autoscaling
size_of_kinds sc b h = size_of_tier sc.spec.tier b h

-- A claim of a known tier is built into 13, 12 or 8 objects, and two more with storage on a cluster
-- that is linked to AWS.
pub build-size :
    (go : Runtime) (sc : ServiceClaim) (storage : Option StorageConfig) (os : List Object)
    → IsTier sc.spec.tier
    → build go sc storage ≡ ok os
    → length os ≡ tier_size sc.spec.tier + (if has_storage sc storage then 2 else 0)
build-size go sc storage os tier e =
    sym (length-map os)
    ∙ ap length (build-kinds go sc storage os e)
    ∙ size_of_kinds sc (has_storage sc storage) tier
