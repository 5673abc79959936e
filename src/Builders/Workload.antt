-- ===== src/Builders/Workload.antt =====
-- internal/builders: rollout.go, hpa.go, pdb.go, service.go, namespace.go and serviceaccount.go.
pub mod Laws
use Prim.Native.Nat.{max}
use paved.Base.{
  ℕ, String, Bool, true, false, not, ◌||◌, List, [], ◌∷◌, Option, none, some, concat, ◌*◌,
  if◌then◌else◌, ◌==◌,
}
use paved.Api.{ServiceClaim, tier_public, tier_internal, tier_batch}
use paved.Runtime.{Runtime}
use paved.Builders.Objects.{
  Object, Body, namespace_body, service_account_body, rollout_body, service_body, autoscaler_body,
  disruption_body, RolloutSpec, PodSpec, Container, Resources, Probe, CanaryStep, set_weight, pause,
  Analysis, Kind,
}
use paved.Builders.Names.{port_name, namespace_name, labels, selector_labels, object_meta}
use paved.Builders.Storage.{StorageConfig, with_storage_identity}

abbrev public_min_replicas : ℕ
public_min_replicas = 2

abbrev mebibyte : ℕ
mebibyte = 1048576

unfoldable pub min_replicas : ServiceClaim → ℕ
min_replicas sc =
    if sc.spec.tier == tier_public
    then max sc.spec.scale.min public_min_replicas
    else if sc.spec.tier == tier_internal
    then sc.spec.scale.min
    else 1

unfoldable pub has_autoscaling : ServiceClaim → Bool
has_autoscaling sc = sc.spec.tier == tier_public || sc.spec.tier == tier_internal

unfoldable pub has_canary_analysis : ServiceClaim → Bool
has_canary_analysis sc = not (sc.spec.tier == tier_batch)

unfoldable pub canary_analysis_name : ServiceClaim → String
canary_analysis_name sc = concat (sc.name ∷ "-canary" ∷ [])

unfoldable pub canary_analysis : ServiceClaim → Analysis
canary_analysis sc = record { templates = canary_analysis_name sc ∷ []; starting_step = 1 }

unfoldable pub canary_steps : List CanaryStep
canary_steps = set_weight 20 ∷ pause "2m" ∷ set_weight 50 ∷ pause "2m" ∷ set_weight 100 ∷ []

unfoldable pub http_probe : String → ℕ → Probe
http_probe path initial_delay_seconds = record {
  path = path;
  port = port_name;
  initial_delay_seconds = initial_delay_seconds;
  period_seconds = 10;
  failure_threshold = 3;
}

-- containerResources: the requests and the limits.
unfoldable pub resource_requests : Resources
resource_requests = record { cpu = 50; memory = 64 * mebibyte }

unfoldable pub resource_limits : Resources
resource_limits = record { cpu = 250; memory = 128 * mebibyte }

-- podSpec before the storage identity is added.
unfoldable pub base_pod_spec : ServiceClaim → PodSpec
base_pod_spec sc = record {
  service_account_name = sc.name;
  run_as_non_root = true;
  run_as_user = 65532;
  seccomp_profile = "RuntimeDefault";
  containers =
      record {
        name = "app";
        image = sc.spec.image;
        port_name = port_name;
        port = sc.spec.port;
        requests = resource_requests;
        limits = resource_limits;
        allow_privilege_escalation = false;
        read_only_root_filesystem = true;
        drop_capabilities = "ALL" ∷ [];
        readiness_probe = http_probe "/readyz" 0;
        liveness_probe = http_probe "/healthz" 10;
        volume_mounts = [];
        env = [];
      }
      ∷ [];
  volumes = [];
}

module _ (go : Runtime) where
  -- HasStorage, whose second half is that there is a configuration.
  unfoldable pub pod_spec : ServiceClaim → Option StorageConfig → PodSpec
  pod_spec sc none = base_pod_spec sc
  pod_spec sc (some storage) =
      if sc.spec.storage
      then with_storage_identity go sc storage (base_pod_spec sc)
      else base_pod_spec sc

  unfoldable pub build_rollout : ServiceClaim → Option StorageConfig → Object
  build_rollout sc storage = record {
    meta = object_meta sc sc.name;
    body = rollout_body (record {
      replicas = if has_autoscaling sc then none else some (min_replicas sc);
      selector = selector_labels sc;
      pod_labels = labels sc;
      pod = pod_spec sc storage;
      steps = canary_steps;
      analysis = if has_canary_analysis sc then some (canary_analysis sc) else none;
    });
  }

unfoldable pub build_hpa : ServiceClaim → Object
build_hpa sc = record {
  meta = object_meta sc sc.name;
  body = autoscaler_body (record {
    target_kind = Kind.rollout;
    target_name = sc.name;
    min_replicas = min_replicas sc;
    max_replicas = max sc.spec.scale.max (min_replicas sc);
    cpu_utilization = 70;
  });
}

unfoldable pub build_pod_disruption_budget : ServiceClaim → Object
build_pod_disruption_budget sc = record {
  meta = object_meta sc sc.name;
  body = disruption_body (record { max_unavailable = 1; selector = selector_labels sc });
}

unfoldable pub build_service : ServiceClaim → Object
build_service sc = record {
  meta = object_meta sc sc.name;
  body = service_body (record {
    type = "ClusterIP";
    selector = selector_labels sc;
    port_name = port_name;
    protocol = "TCP";
    port = 80;
    target_port = port_name;
  });
}

-- A Namespace has no namespace of its own.
unfoldable pub build_namespace : ServiceClaim → Object
build_namespace sc = record {
  meta = record { name = namespace_name sc; namespace = ""; labels = labels sc; annotations = [] };
  body = namespace_body;
}

unfoldable pub build_service_account : ServiceClaim → Object
build_service_account sc = record { meta = object_meta sc sc.name; body = service_account_body }
