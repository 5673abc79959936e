-- ===== src/Controller/Drift.antt =====
-- internal/controller/drift.go and apply.go, and applyObjects: which managed objects an apply had to
-- put back. What toApplyObject removes from an object before it is sent, fields that the builders
-- never set, is no part of an object here.
pub mod Laws
use paved.Base.{
  ℕ, zero, suc, String, Bool, true, false, not, ◌&&◌, ◌||◌, List, [], ◌∷◌, ◌++◌, Option, none, some,
  Result, ok, err, wrap, Error, is_not_found, concat, if◌then◌else◌, ◌==◌, nat_eq,
}
use paved.Api.{ServiceClaim, condition_resources_synced}
use paved.Api.Conditions.{Meta, is_true}
use paved.Runtime.{Runtime}
use paved.Builders.Objects.{Object, ObjectMeta, Kind, kind_of, kind_name}
use paved.Controller.Env.{
  Env, Reconciler, M, call, pure, ◌>>=◌, get_live, apply_object, record_drift, Request,
  ManagedFieldsEntry,
}

pub record Correction : Type 0 where
  pub kind : String
  pub ref : String
  pub recreated : Bool

abbrev pub field_owner : String
field_owner = "paved-controller"

-- objectRef.
unfoldable pub object_ref : ObjectMeta → String
object_ref m = if m.namespace == "" then m.name else concat (m.namespace ∷ "/" ∷ m.name ∷ [])

-- client.ObjectKeyFromObject in a message, which has the slash for a Namespace too.
abbrev object_key : ObjectMeta → String
object_key m = concat (m.namespace ∷ "/" ∷ m.name ∷ [])

-- %T of the object that a builder returned.
abbrev go_type : Kind → String
go_type Kind.namespace = "*v1.Namespace"
go_type Kind.service_account = "*v1.ServiceAccount"
go_type Kind.rollout = "*v1alpha1.Rollout"
go_type Kind.analysis_template = "*v1alpha1.AnalysisTemplate"
go_type Kind.network_policy = "*v1.NetworkPolicy"
go_type Kind.prometheus_rule = "*v1.PrometheusRule"
go_type Kind.service_monitor = "*v1.ServiceMonitor"
go_type Kind.config_map = "*v1.ConfigMap"
go_type Kind.service = "*v1.Service"
go_type Kind.horizontal_pod_autoscaler = "*v2.HorizontalPodAutoscaler"
go_type Kind.pod_disruption_budget = "*v1.PodDisruptionBudget"
go_type Kind.ingress = "*v1.Ingress"
go_type Kind.role = "*unstructured.Unstructured"
go_type Kind.bucket = "*unstructured.Unstructured"

-- toApplyObject: the error of the API library's conversion, if it fails.
unfoldable to_apply_object : Option Error → Object → Option Error
to_apply_object none obj = none
to_apply_object (some e) obj = some (
    wrap
      (concat (
        "converting "
        ∷ go_type (kind_of obj.body)
        ∷ " "
        ∷ object_key obj.meta
        ∷ " to unstructured: "
        ∷ []))
      e)

abbrev is_controller_entry : ManagedFieldsEntry → Bool
is_controller_entry e = e.manager == field_owner && e.operation == "Apply" && e.subresource == ""

unfoldable pub controller_ownership : List ManagedFieldsEntry → Option ManagedFieldsEntry
controller_ownership [] = none
controller_ownership (e ∷ es) = if is_controller_entry e then some e else controller_ownership es

-- metav1.Time.Equal on pointers.
abbrev same_time : Option ℕ → Option ℕ → Bool
same_time none none = true
same_time none (some t) = false
same_time (some t) none = false
same_time (some t) (some u) = nat_eq t u

-- The raw bytes, none if the field set is nil.
abbrev raw_bytes : Option String → String
raw_bytes none = ""
raw_bytes (some s) = s

unfoldable pub same_ownership : Option ManagedFieldsEntry → Option ManagedFieldsEntry → Bool
same_ownership none none = true
same_ownership none (some after) = false
same_ownership (some before) none = false
same_ownership (some before) (some after) =
    same_time before.time after.time && raw_bytes before.fields == raw_bytes after.fields

unfoldable pub in_sync_at_generation : Meta → ServiceClaim → Bool
in_sync_at_generation meta claim =
    elim (meta.find claim.status.conditions condition_resources_synced) [
      | none ↦ false
      | some synced ↦ is_true synced.status && nat_eq synced.observed_generation claim.generation
    ]

-- What liveOwnership returns when nothing went wrong.
pub record Ownership : Type 0 where
  pub entry : Option ManagedFieldsEntry
  pub existed : Bool

abbrev kind_text : Object → String
kind_text obj = kind_name (kind_of obj.body)

unfoldable pub ownership_of : Object → Result (List ManagedFieldsEntry) → Result Ownership
unfolding controller_ownership object_ref
ownership_of obj (ok fields) = ok (record { entry = controller_ownership fields; existed = true })
ownership_of obj (err e) =
    if is_not_found e
    then ok (record { entry = none; existed = false })
    else err (wrap (concat ("reading " ∷ kind_text obj ∷ " " ∷ object_ref obj.meta ∷ ": " ∷ [])) e)

-- The correction that an apply shows, if it shows one.
unfoldable pub correction_of : Bool → Object → Ownership → List ManagedFieldsEntry → List Correction
unfolding same_ownership controller_ownership object_ref
correction_of tracked obj before after =
    if tracked
      && (not before.existed || not (same_ownership before.entry (controller_ownership after)))
    then record { kind = kind_text obj; ref = object_ref obj.meta; recreated = not before.existed }
      ∷ []
    else []

-- How many objects were applied, what was put back, and the error that stopped the loop.
pub record Applied : Type 0 where
  pub count : ℕ
  pub corrections : List Correction
  pub error : Option Error

abbrev stopped : Error → Applied
stopped e = record { count = 0; corrections = []; error = some e }

-- One object was applied before the rest.
abbrev pub after_one : List Correction → Applied → Applied
after_one cs a = record a { count = suc a.count; corrections = cs ++ a.corrections }

module _ (go : Runtime) (env : Env go) (r : Reconciler) where
  unfoldable pub live_ownership : Object → M (Result Ownership)
  live_ownership obj =
      if not r.api_reader
      then pure (ok (record { entry = none; existed = true }))
      else (call (get_live (kind_of obj.body) obj.meta.namespace obj.meta.name)
            (λ h. env.live_answer h (kind_of obj.body) obj.meta.namespace obj.meta.name)
          >>= λ answer. pure (ownership_of obj answer))

  -- The apply of one object whose ownership was read, and the rest of the loop after it.
  unfoldable pub apply_one : Object → M Applied → Result Ownership → M Applied
  unfolding correction_of
  apply_one obj rest (err e) = pure (stopped e)
  apply_one obj rest (ok before) = call (apply_object obj) (λ h. env.apply_answer h obj) >>= elim [
    | err e ↦ pure (
        stopped
          (wrap (concat ("applying " ∷ kind_text obj ∷ " " ∷ object_key obj.meta ∷ ": " ∷ [])) e))
    | ok after ↦ rest >>= λ a. pure (after_one (correction_of r.api_reader obj before after) a)
  ]

  unfoldable pub apply_objects : List Object → M Applied
  unfolding live_ownership apply_one to_apply_object
  apply_objects [] = pure (record { count = 0; corrections = []; error = none })
  apply_objects (obj ∷ rest) =
      let later = apply_objects rest in
      elim (to_apply_object (env.object_error obj) obj) [
        | some e ↦ pure (stopped e)
        | none ↦ live_ownership obj >>= apply_one obj later
      ]

  -- Recording an Event gives nothing back.
  abbrev no_answer : List Request → Unit {0}
  no_answer h = tt

  abbrev pub action_of : Correction → String
  action_of c = if c.recreated then "Recreated" else "Reverted changes to"

  -- An Event for each correction, if there is a recorder.
  unfoldable pub report_drift : List Correction → M (Unit {0})
  report_drift [] = pure tt
  report_drift (c ∷ cs) =
      if r.recorder
      then (call (record_drift (action_of c) (concat (c.kind ∷ " " ∷ c.ref ∷ []))) no_answer
          >>= λ _. report_drift cs)
      else report_drift cs
