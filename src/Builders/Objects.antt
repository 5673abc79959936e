-- ===== src/Builders/Objects.antt =====
-- The Kubernetes objects that the builders fill in: of each kind, the fields that the program sets.
-- The API version of a kind is a constant of the kind's own library and is left out.
use paved.Base.{ℕ, String, Bool, List, Option}
use paved.Slo.Rules.{Rule}

pub data Kind : Type 0 where
  namespace service_account rollout analysis_template network_policy prometheus_rule : Kind
  service_monitor config_map service horizontal_pod_autoscaler pod_disruption_budget ingress : Kind
  role bucket : Kind

pub Kind-discrete : Discrete Kind
Kind-discrete = hlevel

pub record ObjectMeta : Type 0 where
  pub name : String
  pub namespace : String
  pub labels : List (String × String)
  pub annotations : List (String × String)

pub record EnvVar : Type 0 where
  pub name : String
  pub value : String

-- A volume with one projected service account token.
pub record Volume : Type 0 where
  pub name : String
  pub audience : String
  pub expiration_seconds : ℕ
  pub path : String

pub record VolumeMount : Type 0 where
  pub name : String
  pub mount_path : String
  pub read_only : Bool

-- CPU in thousandths of a core, memory in bytes.
pub record Resources : Type 0 where
  pub cpu : ℕ
  pub memory : ℕ

-- An HTTP GET on a named port.
pub record Probe : Type 0 where
  pub path : String
  pub port : String
  pub initial_delay_seconds : ℕ
  pub period_seconds : ℕ
  pub failure_threshold : ℕ

pub record Container : Type 0 where
  pub name : String
  pub image : String
  pub port_name : String
  pub port : ℕ
  pub requests : Resources
  pub limits : Resources
  pub allow_privilege_escalation : Bool
  pub read_only_root_filesystem : Bool
  pub drop_capabilities : List String
  pub readiness_probe : Probe
  pub liveness_probe : Probe
  pub volume_mounts : List VolumeMount
  pub env : List EnvVar

pub record PodSpec : Type 0 where
  pub service_account_name : String
  pub run_as_non_root : Bool
  pub run_as_user : ℕ
  pub seccomp_profile : String
  pub containers : List Container
  pub volumes : List Volume

pub data CanaryStep : Type 0 where
  set_weight : ℕ → CanaryStep
  pause : String → CanaryStep

pub record Analysis : Type 0 where
  pub templates : List String
  pub starting_step : ℕ

pub record RolloutSpec : Type 0 where
  pub replicas : Option ℕ
  pub selector : List (String × String)
  pub pod_labels : List (String × String)
  pub pod : PodSpec
  pub steps : List CanaryStep
  pub analysis : Option Analysis

pub record Metric : Type 0 where
  pub name : String
  pub interval : String
  pub failure_condition : String
  pub failure_limit : ℕ
  pub address : String
  pub query : String

-- Every pod of the policy's own namespace, or the pods of the namespaces with these labels.
pub data Peer : Type 0 where
  same_namespace : Peer
  namespaces : List (String × String) → Peer

-- `ports` holds TCP ports; none of them means every port.
pub record IngressRule : Type 0 where
  pub peers : List Peer
  pub ports : List ℕ

pub record RuleGroup : Type 0 where
  pub name : String
  pub rules : List Rule

pub record ServiceMonitorSpec : Type 0 where
  pub selector : List (String × String)
  pub port : String
  pub path : String
  pub interval : String

pub record ServiceSpec : Type 0 where
  pub type : String
  pub selector : List (String × String)
  pub port_name : String
  pub protocol : String
  pub port : ℕ
  pub target_port : String

pub record AutoscalerSpec : Type 0 where
  pub target_kind : Kind
  pub target_name : String
  pub min_replicas : ℕ
  pub max_replicas : ℕ
  pub cpu_utilization : ℕ

pub record DisruptionSpec : Type 0 where
  pub max_unavailable : ℕ
  pub selector : List (String × String)

pub record IngressSpec : Type 0 where
  pub class_name : String
  pub host : String
  pub path : String
  pub path_type : String
  pub service_name : String
  pub service_port : String

pub record RoleSpec : Type 0 where
  pub name : String
  pub path : String
  pub description : String
  pub assume_role_policy_document : String
  pub inline_policies : List (String × String)
  pub permissions_boundary : String
  pub max_session_duration : ℕ
  pub tags : List (String × String)

pub record BucketSpec : Type 0 where
  pub name : String
  pub block_public_acls : Bool
  pub block_public_policy : Bool
  pub ignore_public_acls : Bool
  pub restrict_public_buckets : Bool
  pub tag_set : List (String × String)
  pub location_constraint : Option String

pub data Body : Type 0 where
  namespace_body : Body
  service_account_body : Body
  rollout_body : RolloutSpec → Body
  analysis_template_body : List Metric → Body
  network_policy_body : List IngressRule → Body
  prometheus_rule_body : List RuleGroup → Body
  service_monitor_body : ServiceMonitorSpec → Body
  config_map_body : List (String × String) → Body
  service_body : ServiceSpec → Body
  autoscaler_body : AutoscalerSpec → Body
  disruption_body : DisruptionSpec → Body
  ingress_body : IngressSpec → Body
  role_body : RoleSpec → Body
  bucket_body : BucketSpec → Body

pub record Object : Type 0 where
  pub meta : ObjectMeta
  pub body : Body

abbrev pub kind_of : Body → Kind
kind_of namespace_body = Kind.namespace
kind_of service_account_body = Kind.service_account
kind_of (rollout_body s) = Kind.rollout
kind_of (analysis_template_body s) = Kind.analysis_template
kind_of (network_policy_body s) = Kind.network_policy
kind_of (prometheus_rule_body s) = Kind.prometheus_rule
kind_of (service_monitor_body s) = Kind.service_monitor
kind_of (config_map_body s) = Kind.config_map
kind_of (service_body s) = Kind.service
kind_of (autoscaler_body s) = Kind.horizontal_pod_autoscaler
kind_of (disruption_body s) = Kind.pod_disruption_budget
kind_of (ingress_body s) = Kind.ingress
kind_of (role_body s) = Kind.role
kind_of (bucket_body s) = Kind.bucket

-- The kind's name, as GetKind returns it.
abbrev pub kind_name : Kind → String
kind_name Kind.namespace = "Namespace"
kind_name Kind.service_account = "ServiceAccount"
kind_name Kind.rollout = "Rollout"
kind_name Kind.analysis_template = "AnalysisTemplate"
kind_name Kind.network_policy = "NetworkPolicy"
kind_name Kind.prometheus_rule = "PrometheusRule"
kind_name Kind.service_monitor = "ServiceMonitor"
kind_name Kind.config_map = "ConfigMap"
kind_name Kind.service = "Service"
kind_name Kind.horizontal_pod_autoscaler = "HorizontalPodAutoscaler"
kind_name Kind.pod_disruption_budget = "PodDisruptionBudget"
kind_name Kind.ingress = "Ingress"
kind_name Kind.role = "Role"
kind_name Kind.bucket = "Bucket"
