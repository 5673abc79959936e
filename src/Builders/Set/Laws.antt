-- ===== src/Builders/Set/Laws.antt =====
-- What the objects of a claim have in common, and how many there are of them.
use paved.Base.{
  String, Bool, true, false, List, [], Option, none, some, ok, ◌≡◌, refl, All, All-append, lookup,
  insert, arith, ◌⊎◌, inl, inr, ◌==◌, if◌then◌else◌, chain-eq-ok,
}
use mathlib.Core.Path.{subst}
use paved.Api.{ServiceClaim, tier_public}
use paved.Runtime.{Runtime}
use paved.Builders.Objects.{Object, Kind, kind_of}
use paved.Builders.Names.{
  namespace_name, labels, label_claim, label_claim_namespace, label_owner, label_managed_by,
  managed_by, object_meta,
}
use paved.Builders.Storage.{StorageConfig, build_storage_role, build_storage_bucket}
use paved.Builders.Workload.{
  has_autoscaling, has_canary_analysis, build_rollout, build_hpa, build_pod_disruption_budget,
  build_service, build_namespace, build_service_account,
}
use paved.Builders.Network.{build_network_policy, build_ingress}
use paved.Builders.Monitoring.{
  build_service_monitor, build_analysis_template, build_prometheus_rule,
}
use paved.Builders.Dashboard.{build_dashboard}
use paved.Builders.Runbook.{build_runbook}
use paved.Builders.Set.{storage_objects, objects_of, build}

-- An object that leads back to the claim and lives in the claim's namespace, or is it.
pub record IsManaged (sc : ServiceClaim) (o : Object) : Type 0 where
  pub claim : lookup label_claim o.meta.labels ≡ some sc.name
  pub claim_namespace : lookup label_claim_namespace o.meta.labels ≡ some sc.namespace
  pub manager : lookup label_managed_by o.meta.labels ≡ some managed_by
  pub owner : lookup label_owner o.meta.labels ≡ some sc.spec.owner
  pub place :
      (o.meta.namespace ≡ namespace_name sc)
      ⊎ ((kind_of o.body ≡ Kind.namespace) × (o.meta.name ≡ namespace_name sc))

labels_lem :
    (sc : ServiceClaim)
    → (lookup label_claim (labels sc) ≡ some sc.name)
      × (lookup label_claim_namespace (labels sc) ≡ some sc.namespace)
      × (lookup label_owner (labels sc) ≡ some sc.spec.owner)
      × (lookup label_managed_by (labels sc) ≡ some managed_by)
unfolding labels lookup
labels_lem sc = (refl, refl, refl, refl)

-- An object in the claim's namespace with the claim's labels.
labelled :
    (sc : ServiceClaim) (o : Object)
    → o.meta.labels ≡ labels sc
    → o.meta.namespace ≡ namespace_name sc
    → IsManaged sc o
labelled sc o e n = record {
  claim = rw e (labels_lem sc).0;
  claim_namespace = rw e (labels_lem sc).1;
  owner = rw e (labels_lem sc).2;
  manager = rw e (labels_lem sc).3;
  place = inl n;
}

-- The same with one more label, such as the one that Grafana looks for.
labelled_more :
    (sc : ServiceClaim) (o : Object) (v : String)
    → o.meta.labels ≡ insert "grafana_dashboard" v (labels sc)
    → o.meta.namespace ≡ namespace_name sc
    → IsManaged sc o
unfolding labels lookup insert
labelled_more sc o v e n = record {
  claim = rw e;
  claim_namespace = rw e;
  owner = rw e;
  manager = rw e;
  place = inl n;
}

namespace-IsManaged : (sc : ServiceClaim) → IsManaged sc (build_namespace sc)
unfolding build_namespace
namespace-IsManaged sc = record {
  claim = (labels_lem sc).0;
  claim_namespace = (labels_lem sc).1;
  owner = (labels_lem sc).2;
  manager = (labels_lem sc).3;
  place = inr (refl, refl);
}

service_account-IsManaged : (sc : ServiceClaim) → IsManaged sc (build_service_account sc)
unfolding build_service_account object_meta
service_account-IsManaged sc = labelled sc _ refl refl

network_policy-IsManaged : (sc : ServiceClaim) → IsManaged sc (build_network_policy sc)
unfolding build_network_policy object_meta
network_policy-IsManaged sc = labelled sc _ refl refl

service_monitor-IsManaged : (sc : ServiceClaim) → IsManaged sc (build_service_monitor sc)
unfolding build_service_monitor object_meta
service_monitor-IsManaged sc = labelled sc _ refl refl

service-IsManaged : (sc : ServiceClaim) → IsManaged sc (build_service sc)
unfolding build_service object_meta
service-IsManaged sc = labelled sc _ refl refl

hpa-IsManaged : (sc : ServiceClaim) → IsManaged sc (build_hpa sc)
unfolding build_hpa object_meta
hpa-IsManaged sc = labelled sc _ refl refl

disruption_budget-IsManaged : (sc : ServiceClaim) → IsManaged sc (build_pod_disruption_budget sc)
unfolding build_pod_disruption_budget object_meta
disruption_budget-IsManaged sc = labelled sc _ refl refl

ingress-IsManaged : (sc : ServiceClaim) → IsManaged sc (build_ingress sc)
unfolding build_ingress object_meta
ingress-IsManaged sc = labelled sc _ refl refl

module _ (go : Runtime) (sc : ServiceClaim) where
  rollout-IsManaged : (storage : Option StorageConfig) → IsManaged sc (build_rollout go sc storage)
  unfolding build_rollout object_meta
  rollout-IsManaged storage = labelled sc _ refl refl

  analysis_template-IsManaged : IsManaged sc (build_analysis_template go sc)
  unfolding build_analysis_template object_meta
  analysis_template-IsManaged = labelled sc _ refl refl

  role-IsManaged : (storage : StorageConfig) → IsManaged sc (build_storage_role go sc storage)
  unfolding build_storage_role
  role-IsManaged storage = labelled sc _ refl refl

  bucket-IsManaged : (storage : StorageConfig) → IsManaged sc (build_storage_bucket go sc storage)
  unfolding build_storage_bucket
  bucket-IsManaged storage = labelled sc _ refl refl

  prometheus_rule-IsManaged : (o : Object) → build_prometheus_rule go sc ≡ ok o → IsManaged sc o
  unfolding build_prometheus_rule object_meta
  prometheus_rule-IsManaged o e = labelled sc o (ground arith) (ground arith)

  dashboard-IsManaged : (o : Object) → build_dashboard go sc ≡ ok o → IsManaged sc o
  unfolding build_dashboard
  dashboard-IsManaged o e = labelled_more sc o "1" (ground arith) (ground arith)

  runbook-IsManaged : (o : Object) → build_runbook go sc ≡ ok o → IsManaged sc o
  unfolding build_runbook object_meta
  runbook-IsManaged o e = labelled sc o (ground arith) (ground arith)

  All-if :
      (b : Bool) (os : List Object)
      → All (IsManaged sc) os
      → All (IsManaged sc) (if b then os else [])
  All-if true os h = h
  All-if false os h = tt

  storage_objects-IsManaged :
      (storage : Option StorageConfig) → All (IsManaged sc) (storage_objects go sc storage)
  unfolding storage_objects
  storage_objects-IsManaged none = tt
  storage_objects-IsManaged (some storage) =
      All-if sc.spec.storage _ (role-IsManaged storage, (bucket-IsManaged storage, tt))

  objects_of-IsManaged :
      (storage : Option StorageConfig) (rule dashboard runbook : Object)
      → IsManaged sc rule
      → IsManaged sc dashboard
      → IsManaged sc runbook
      → All (IsManaged sc) (objects_of go sc storage rule dashboard runbook)
  unfolding objects_of
  objects_of-IsManaged storage rule dashboard runbook h k l = (
    namespace-IsManaged sc,
    (
      service_account-IsManaged sc,
      All-append (IsManaged sc) (storage_objects go sc storage) _
          (storage_objects-IsManaged storage)
          (All-append (IsManaged sc) _ _
            (All-if (has_canary_analysis sc) _ (analysis_template-IsManaged, tt))
            (
              rollout-IsManaged storage,
              (
                network_policy-IsManaged sc,
                (
                  h,
                  (
                    service_monitor-IsManaged sc,
                    (
                      k,
                      (
                        l,
                        All-append (IsManaged sc) _ _
                            (All-if (has_autoscaling sc) _ (
                              service-IsManaged sc,
                              (hpa-IsManaged sc, (disruption_budget-IsManaged sc, tt)),
                            ))
                            (All-if (sc.spec.tier == tier_public) _ (ingress-IsManaged sc, tt)),
                      ),
                    ),
                  ),
                ),
              ),
            )),
    ),
  )

  pub build-eq-ok :
      (storage : Option StorageConfig) (os : List Object)
      → build go sc storage ≡ ok os
      → (rule : Object) × (dashboard : Object) × (runbook : Object) × (build_prometheus_rule go sc
          ≡ ok rule)
        × (build_dashboard go sc ≡ ok dashboard)
        × (build_runbook go sc ≡ ok runbook)
        × (objects_of go sc storage rule dashboard runbook ≡ os)
  unfolding build
  build-eq-ok storage os e =
      chain-eq-ok (build_prometheus_rule go sc) (build_dashboard go sc) (build_runbook go sc)
        (objects_of go sc storage) e

  -- Every object that a claim is built into carries the claim's name, namespace and owner in its
  -- labels, and is the claim's namespace or lives in it.
  pub build-IsManaged :
      (storage : Option StorageConfig) (os : List Object)
      → build go sc storage ≡ ok os
      → All (IsManaged sc) os
  unfolding build
  build-IsManaged storage os e =
      let (rule, dashboard, runbook, made, shown, written, same) = build-eq-ok storage os e in
      subst (All (IsManaged sc)) same (
        objects_of-IsManaged storage rule dashboard runbook (prometheus_rule-IsManaged rule made)
          (dashboard-IsManaged dashboard shown) (runbook-IsManaged runbook written))
