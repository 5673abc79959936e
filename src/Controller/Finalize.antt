-- ===== src/Controller/Finalize.antt =====
-- finalize of internal/controller/serviceclaim_controller.go.
pub mod Laws
use paved.Base.{
  ℕ, String, Bool, true, false, not, List, [], ◌∷◌, Option, none, some, Result, ok, err, wrap,
  Error, is_not_found, concat, if◌then◌else◌, contains,
}
use paved.Api.{ServiceClaim}
use paved.Runtime.{Runtime}
use paved.Builders.Names.{namespace_name}
use paved.Controller.Env.{Env, M, call, pure, ◌>>=◌, get_namespace, delete_namespace, Namespace}
use paved.Controller.Status.{set_finalizer}
use paved.Controller.Watch.{belongs_to}

abbrev pub finalizer : String
finalizer = "paved.dev/finalizer"

-- ctrl.Result: the seconds after which to requeue, if there are any; with the error, if any.
pub record Outcome : Type 0 where
  pub requeue_after : Option ℕ
  pub error : Option Error

abbrev pub done : Outcome
done = record { requeue_after = none; error = none }

abbrev pub failed : Error → Outcome
failed e = record { requeue_after = none; error = some e }

-- namespaceDeletionPoll.
abbrev pub poll : Outcome
poll = record { requeue_after = some 5; error = none }

module _ (go : Runtime) (env : Env go) (claim : ServiceClaim) where
  release : M Outcome
  release =
      set_finalizer go env claim false >>= λ e. pure (record { requeue_after = none; error = e })

  -- client.IgnoreNotFound on the error of the deletion.
  unfoldable pub after_delete : Namespace → Option Error → Outcome
  after_delete ns none = poll
  after_delete ns (some e) =
      if is_not_found e
      then poll
      else failed (wrap (concat ("deleting namespace " ∷ ns.name ∷ ": " ∷ [])) e)

  unfoldable pub finalize_namespace : Namespace → M Outcome
  unfolding release after_delete
  finalize_namespace ns =
      if not (belongs_to ns.labels claim)
      then release
      else if ns.deleting
      then pure poll
      else (call (delete_namespace ns.name) (λ h. env.delete_answer h ns.name) >>= λ answer.
          pure (after_delete ns answer))

  unfoldable pub after_get : Result Namespace → M Outcome
  unfolding release finalize_namespace
  after_get (ok ns) = finalize_namespace ns
  after_get (err e) =
      if is_not_found e
      then release
      else pure (failed (wrap (concat ("getting namespace " ∷ namespace_name claim ∷ ": " ∷ [])) e))

  unfoldable pub finalize : M Outcome
  unfolding after_get
  finalize =
      if not (contains claim.finalizers finalizer)
      then pure done
      else (call (get_namespace (namespace_name claim))
            (λ h. env.namespace_answer h (namespace_name claim))
          >>= after_get)
