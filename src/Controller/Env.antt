-- ===== src/Controller/Env.antt =====
-- What the reconciler talks to: the API server through its clients, Prometheus, and the event
-- recorder. A step of the reconciler takes the requests made so far and gives them back, with its
-- own in front; the answers are an arbitrary function of the requests before them, so that other
-- writers and failures may show in any answer.
use paved.Base.{ℕ, String, Bool, List, ◌∷◌, Option, Result, Error}
use paved.Api.{ServiceClaim, Condition, StorageStatus}
use paved.Runtime.{Runtime}
use paved.Builders.Objects.{Object, Kind}
use paved.Builders.Storage.{StorageConfig}

-- metav1.ManagedFieldsEntry: a time by its number, and the raw bytes of the fields.
pub record ManagedFieldsEntry : Type 0 where
  pub manager : String
  pub operation : String
  pub subresource : String
  pub time : Option ℕ
  pub fields : Option String

pub record Namespace : Type 0 where
  pub name : String
  pub labels : List (String × String)
  pub deleting : Bool

-- The parts of a Rollout that the reconciler reads.
pub record Rollout : Type 0 where
  pub generation : ℕ
  pub observed_generation : String
  pub phase : String
  pub message : String

-- ackCondition.
pub record AckCondition : Type 0 where
  pub type : String
  pub status : String
  pub message : String

-- The status of an ACK object as the API's library decodes it: none, or one that is no map, or one
-- whose conditions do not decode, each with the error, or its conditions.
pub data AckObject : Type 0 where
  no_status : AckObject
  bad_status : Error → AckObject
  bad_conditions : Error → AckObject
  decoded : List AckCondition → AckObject

-- The body of the apply of a claim's status, without the time of the reconcile.
pub record StatusPatch : Type 0 where
  pub name : String
  pub namespace : String
  pub conditions : List Condition
  pub observed_generation : ℕ
  pub managed_resources : Option ℕ
  pub error_budget_remaining : Option String
  pub burn_rate_1h : Option String
  pub storage : Option StorageStatus

-- The client that a read goes through: the cached one, or straight to the API server.
pub data Reader : Type 0 where
  cached direct : Reader

-- Namespaces stand in front of names.
pub data Request : Type 0 where
  get_claim : String → String → Request
  apply_finalizer : String → String → Bool → Request
  get_namespace : String → Request
  delete_namespace : String → Request
  get_live : Kind → String → String → Request
  apply_object : Object → Request
  query : String → Request
  get_rollout : Reader → String → String → Request
  get_storage : Reader → Kind → String → String → Request
  apply_status : StatusPatch → Request
  record_drift : String → String → Request

-- The answers. An error that is not there is `none`.
pub record Env (go : Runtime) : Type 0 where
  pub claim_answer : List Request → String → String → Result ServiceClaim
  pub finalizer_answer : List Request → Bool → Option Error
  pub namespace_answer : List Request → String → Result Namespace
  pub delete_answer : List Request → String → Option Error
  pub live_answer : List Request → Kind → String → String → Result (List ManagedFieldsEntry)
  pub apply_answer : List Request → Object → Result (List ManagedFieldsEntry)
  pub query_answer : List Request → String → Result go.Float
  -- Through the client that is asked, of a namespace and a name.
  pub rollout_answer : List Request → Reader → String → String → Result Rollout
  pub storage_answer : List Request → Reader → Kind → String → String → Result AckObject
  pub status_answer : List Request → Option Error
  -- runtime.DefaultUnstructuredConverter on an object and on a condition.
  pub object_error : Object → Option Error
  pub condition_error : Condition → Option Error

-- ServiceClaimReconciler: whether it has a Prometheus client, an APIReader and a Recorder, and the
-- cluster's AWS account.
pub record Reconciler : Type 0 where
  pub prometheus : Bool
  pub api_reader : Bool
  pub recorder : Bool
  pub storage : Option StorageConfig

-- A step that makes requests.
abbrev pub M {ℓ} : Type ℓ → Type ℓ
M A = List Request → A × List Request

infixl 5 ◌>>=◌
abbrev pub ◌>>=◌ {ℓ κ} : {A : Type ℓ} {B : Type κ} → M A → (A → M B) → M B
◌>>=◌ m f h = let (a, h') = m h in f a h'

abbrev pub pure {ℓ} : {A : Type ℓ} → A → M A
pure a h = (a, h)

-- A request, with an answer that depends on the requests before it.
abbrev pub call {ℓ} : {A : Type ℓ} → Request → (List Request → A) → M A
call r answer h = (answer h, r ∷ h)
