-- ===== src/Builders/Set.antt =====
-- internal/builders/set.go: every object of a claim, in the order in which they are applied.
pub mod Laws
pub mod Kinds
pub mod Distinct
use paved.Base.{
  String, Bool, true, false, List, [], ◌∷◌, ◌++◌, Option, none, some, Result, ok, if◌then◌else◌,
  ◌==◌, ◌>>=◌,
}
use paved.Api.{ServiceClaim, tier_public}
use paved.Runtime.{Runtime}
use paved.Builders.Objects.{Object, Kind}
use paved.Builders.Storage.{StorageConfig, build_storage_role, build_storage_bucket}
use paved.Builders.Workload.{
  has_autoscaling, has_canary_analysis, build_rollout, build_hpa, build_pod_disruption_budget,
  build_service, build_namespace, build_service_account,
}
use paved.Builders.Network.{build_network_policy, build_ingress}
use paved.Builders.Monitoring.{
  build_service_monitor, build_analysis_template, build_prometheus_rule,
}
use paved.Builders.Dashboard.{build_dashboard}
use paved.Builders.Runbook.{build_runbook}

module _ (go : Runtime) where
  -- The role and the bucket, if HasStorage.
  unfoldable pub storage_objects : ServiceClaim → Option StorageConfig → List Object
  storage_objects sc none = []
  storage_objects sc (some storage) =
      if sc.spec.storage
      then build_storage_role go sc storage ∷ build_storage_bucket go sc storage ∷ []
      else []

  -- The objects, given those that can fail.
  unfoldable pub objects_of :
      ServiceClaim → Option StorageConfig → Object → Object → Object → List Object
  objects_of sc storage rule dashboard runbook =
      build_namespace sc ∷ build_service_account sc ∷ storage_objects sc storage
      ++ ((if has_canary_analysis sc then build_analysis_template go sc ∷ [] else [])
          ++ (build_rollout go sc storage
                ∷ build_network_policy sc
                ∷ rule
                ∷ build_service_monitor sc
                ∷ dashboard
                ∷ runbook
                ∷ (if has_autoscaling sc
                    then build_service sc ∷ build_hpa sc ∷ build_pod_disruption_budget sc ∷ []
                    else [])
              ++ (if sc.spec.tier == tier_public then build_ingress sc ∷ [] else [])))

  unfoldable pub build : ServiceClaim → Option StorageConfig → Result (List Object)
  build sc storage = do
    rule ← build_prometheus_rule go sc
    dashboard ← build_dashboard go sc
    runbook ← build_runbook go sc
    ok (objects_of sc storage rule dashboard runbook)

abbrev pub managed_types : List Kind
managed_types =
    Kind.namespace ∷ Kind.service_account ∷ Kind.rollout ∷ Kind.analysis_template
    ∷ Kind.network_policy ∷ Kind.prometheus_rule ∷ Kind.service_monitor ∷ Kind.config_map
    ∷ Kind.service ∷ Kind.horizontal_pod_autoscaler ∷ Kind.pod_disruption_budget ∷ Kind.ingress ∷ []
