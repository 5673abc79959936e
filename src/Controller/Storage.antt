-- ===== src/Controller/Storage.antt =====
-- internal/controller/storage.go: whether a claim's storage is there. Settings has the link to an AWS account.
pub mod Settings
pub mod Laws
pub mod Provided
pub mod Kinds
use paved.Base.{
  ℕ, suc, String, Bool, true, false, not, List, [], ◌∷◌, Option, none, some, Result, ok, err, plain,
  wrap, Error, message, is_not_found, concat, lookup, insert, if◌then◌else◌, ◌==◌, nat_eq,
}
use paved.Api.{
  ServiceClaim, Condition, Status, condition_true, condition_false, condition_unknown,
  condition_storage_ready, StorageStatus,
}
use paved.Runtime.{Runtime}
use paved.Builders.Objects.{Kind, kind_name, ObjectMeta}
use paved.Controller.Drift.{object_ref}
use paved.Builders.Names.{namespace_name}
use paved.Builders.Storage.{
  StorageConfig, validate, storage_types, storage_bucket_name, storage_role_arn,
}
use paved.Controller.Env.{
  Env, Reconciler, M, call, pure, ◌>>=◌, get_storage, Reader, cached, direct, AckCondition,
  AckObject, no_status, bad_status, bad_conditions, decoded,
}

abbrev pub reason_storage_provisioned : String
reason_storage_provisioned = "Provisioned"

abbrev pub reason_storage_provisioning : String
reason_storage_provisioning = "Provisioning"

abbrev pub reason_storage_failed : String
reason_storage_failed = "ProvisioningFailed"

abbrev pub reason_storage_unavailable : String
reason_storage_unavailable = "StorageUnavailable"

abbrev pub reason_storage_unreadable : String
reason_storage_unreadable = "StorageUnreadable"

abbrev pub ack_resource_synced : String
ack_resource_synced = "ACK.ResourceSynced"

abbrev pub ack_terminal : String
ack_terminal = "ACK.Terminal"

abbrev pub ack_recoverable : String
ack_recoverable = "ACK.Recoverable"

abbrev pub ack_true : String
ack_true = "True"

-- observedACKObject, with the objectRef of its object.
pub record ObservedAckObject : Type 0 where
  pub kind : String
  pub ref : String
  pub object : AckObject
  pub read_error : Option Error

-- conditions[c.Type] = c, in order.
unfoldable pub by_type :
    List (String × AckCondition) → List AckCondition → List (String × AckCondition)
by_type m [] = m
by_type m (c ∷ cs) = by_type (insert c.type c m) cs

-- Of an object of this kind, with this objectRef.
unfoldable pub ack_conditions : String → String → AckObject → Result (List (String × AckCondition))
unfolding by_type
ack_conditions kind ref no_status = ok []
ack_conditions kind ref (bad_status e) =
    err (wrap (concat ("status of " ∷ kind ∷ " " ∷ ref ∷ ": " ∷ [])) e)
ack_conditions kind ref (bad_conditions e) =
    err (wrap (concat ("conditions of " ∷ kind ∷ " " ∷ ref ∷ ": " ∷ [])) e)
ack_conditions kind ref (decoded cs) = ok (by_type [] cs)

-- A missing key of the map reads as the zero value.
abbrev pub ack_condition : String → List (String × AckCondition) → AckCondition
ack_condition type m = elim (lookup type m) [
  | none ↦ record { type = ""; status = ""; message = "" }
  | some c ↦ c
]

abbrev first_non_empty : String → String → String
first_non_empty a b = if a == "" then b else a

abbrev with_detail : String → String → String
with_detail text detail = if detail == "" then text else concat (text ∷ ": " ∷ detail ∷ [])

-- What one object says: nothing if ACK has synced it.
unfoldable pub decoded_verdict :
    String → List (String × AckCondition) → Option (Status × String × String)
decoded_verdict kind conditions =
    let terminal = ack_condition ack_terminal conditions in
    let synced = ack_condition ack_resource_synced conditions in
    let recoverable = ack_condition ack_recoverable conditions in
    if terminal.status == ack_true
    then some (
      condition_false,
      reason_storage_failed,
      concat ("ACK can't create the " ∷ kind ∷ " in AWS: " ∷ terminal.message ∷ []),
    )
    else if not (synced.status == ack_true)
    then some (
      condition_false,
      reason_storage_provisioning,
      with_detail (concat ("ACK has not synced the " ∷ kind ∷ " with AWS yet" ∷ []))
          (first_non_empty recoverable.message synced.message),
    )
    else none

unfoldable pub unreadable : String → Error → Option (Status × String × String)
unreadable kind e = some (
  condition_unknown,
  reason_storage_unreadable,
  concat ("Reading the ACK " ∷ kind ∷ ": " ∷ message e ∷ []),
)

unfoldable pub verdict : ObservedAckObject → Option (Status × String × String)
unfolding unreadable
verdict o = elim o.read_error [
  | some e ↦
      if is_not_found e
      then some (
        condition_false,
        reason_storage_provisioning,
        concat ("The ACK " ∷ o.kind ∷ " does not exist yet" ∷ []),
      )
      else unreadable o.kind e
  | none ↦ elim (ack_conditions o.kind o.ref o.object) [
    | err e ↦ unreadable o.kind e
    | ok conditions ↦ decoded_verdict o.kind conditions
  ]
]

-- The first object that says something decides.
unfoldable pub storage_decision : List ObservedAckObject → Status × String × String
storage_decision [] = (
  condition_true, reason_storage_provisioned, "ACK has created the claim's role and bucket in AWS",
)
storage_decision (o ∷ os) = elim (verdict o) [ none ↦ storage_decision os | some v ↦ v ]

abbrev storage_condition_of : ServiceClaim → Status × String × String → Condition
storage_condition_of claim (status, reason, text) = record {
  type = condition_storage_ready;
  status = status;
  reason = reason;
  message = text;
  observed_generation = claim.generation;
}

unfoldable pub storage_condition : ServiceClaim → List ObservedAckObject → Condition
unfolding storage_decision
storage_condition claim observed = storage_condition_of claim (storage_decision observed)

-- storageReport.
pub record StorageReport : Type 0 where
  pub condition : Option Condition
  pub status : Option StorageStatus

-- The object that the API server gave has the key's namespace and name; one that could not be read
-- has neither.
abbrev observed_of : Kind → ObjectMeta → Result AckObject → ObservedAckObject
observed_of kind key (ok o) = record {
  kind = kind_name kind;
  ref = object_ref key;
  object = o;
  read_error = none;
}
observed_of kind key (err e) = record {
  kind = kind_name kind;
  ref = "";
  object = no_status;
  read_error = some e;
}

abbrev pub reader_of : Reconciler → Reader
reader_of r = if r.api_reader then direct else cached

module _ (go : Runtime) (env : Env go) (r : Reconciler) (claim : ServiceClaim) where
  unfoldable pub read_kinds : List Kind → M (List ObservedAckObject)
  read_kinds [] = pure []
  read_kinds (kind ∷ kinds) =
      call (get_storage (reader_of r) kind (namespace_name claim) claim.name)
        (λ h. env.storage_answer h (reader_of r) kind (namespace_name claim) claim.name)
      >>= λ answer. read_kinds kinds >>= λ rest. pure (
          observed_of kind
            (record {
              name = claim.name;
              namespace = namespace_name claim;
              labels = [];
              annotations = [];
            })
            answer
          ∷ rest)

  unfoldable pub evaluate_linked : Option StorageConfig → M StorageReport
  unfolding read_kinds
  evaluate_linked none = pure (record {
    condition = some (
        storage_condition_of claim (
          condition_false, reason_storage_unavailable,
          "This cluster isn't linked to an AWS account, so the claim's bucket and role can't be created",
        ));
    status = none;
  })
  evaluate_linked (some storage) = read_kinds storage_types >>= λ observed. pure (record {
    condition = some (storage_condition claim observed);
    status = some (record {
      bucket = storage_bucket_name go claim storage;
      role_arn = storage_role_arn claim storage;
    });
  })

  unfoldable pub evaluate_storage : M StorageReport
  unfolding evaluate_linked
  evaluate_storage =
      if not claim.spec.storage
      then pure (record { condition = none; status = none })
      else evaluate_linked r.storage
