-- ===== src/Api.antt =====
-- api/v1alpha1/serviceclaim_types.go: the ServiceClaim resource, and metav1.Condition. Whether an
-- object is being deleted stands for its deletion timestamp. int32 fields that the API server
-- validates to be positive are numbers.
pub mod Conditions
use paved.Base.{ℕ, String, Bool, List, ◌∷◌, [], Option}

pub data Status : Type 0 where
  condition_true condition_false condition_unknown : Status

pub Status-discrete : Discrete Status
Status-discrete = hlevel

-- metav1.Condition, without the transition time, which the API's library keeps.
pub record Condition : Type 0 where
  pub type : String
  pub status : Status
  pub reason : String
  pub message : String
  pub observed_generation : ℕ

abbrev pub condition_resources_synced : String
condition_resources_synced = "ResourcesSynced"

abbrev pub condition_slo_healthy : String
condition_slo_healthy = "SLOHealthy"

abbrev pub condition_deploys_frozen : String
condition_deploys_frozen = "DeploysFrozen"

abbrev pub condition_storage_ready : String
condition_storage_ready = "StorageReady"

abbrev pub condition_ready : String
condition_ready = "Ready"

abbrev pub sli_http_availability : String
sli_http_availability = "http-availability"

abbrev pub sli_http_latency : String
sli_http_latency = "http-latency"

abbrev pub tier_public : String
tier_public = "public"

abbrev pub tier_internal : String
tier_internal = "internal"

abbrev pub tier_batch : String
tier_batch = "batch"

pub record SliSpec : Type 0 where
  pub type : String
  pub good_statuses : List ℕ
  pub latency_threshold : String

pub record SloSpec : Type 0 where
  pub objective : String
  pub window : String

pub record ScaleSpec : Type 0 where
  pub min : ℕ
  pub max : ℕ

pub record ServiceClaimSpec : Type 0 where
  pub owner : String
  pub image : String
  pub port : ℕ
  pub tier : String
  pub sli : SliSpec
  pub slo : SloSpec
  pub scale : ScaleSpec
  pub storage : Bool

pub record StorageStatus : Type 0 where
  pub bucket : String
  pub role_arn : String

pub record ServiceClaimStatus : Type 0 where
  pub conditions : List Condition
  pub error_budget_remaining : String
  pub burn_rate_1h : String
  pub managed_resources : ℕ
  pub observed_generation : ℕ
  pub storage : Option StorageStatus

pub record ServiceClaim : Type 0 where
  pub name : String
  pub namespace : String
  pub annotations : List (String × String)
  pub finalizers : List String
  pub generation : ℕ
  pub deleting : Bool
  pub spec : ServiceClaimSpec
  pub status : ServiceClaimStatus
