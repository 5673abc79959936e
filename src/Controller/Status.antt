-- ===== src/Controller/Status.antt =====
-- applyStatus and applyFinalizer of internal/controller/serviceclaim_controller.go.
use paved.Base.{
  ℕ, zero, suc, String, Bool, List, [], ◌∷◌, Option, none, some, wrap, Error, concat, if◌then◌else◌,
  ◌==◌,
}
use paved.Api.{ServiceClaim, Condition, StorageStatus}
use paved.Api.Conditions.{Meta}
use paved.Runtime.{Runtime}
use paved.Controller.Env.{Env, M, call, pure, ◌>>=◌, apply_finalizer, apply_status, StatusPatch}
use paved.Controller.Freeze.{SloReport}

-- meta.SetStatusCondition for each condition in turn.
unfoldable pub set_conditions : Meta → List Condition → List Condition → List Condition
set_conditions meta conditions [] = conditions
set_conditions meta conditions (c ∷ cs) = set_conditions meta (meta.set_condition conditions c) cs

-- A field that is left out when it is empty.
abbrev text_unless_empty : String → Option String
text_unless_empty s = if s == "" then none else some s

abbrev count_unless_zero : ℕ → Option ℕ
count_unless_zero zero = none
count_unless_zero (suc n) = some (suc n)

abbrev claim_key : ServiceClaim → String
claim_key claim = concat (claim.namespace ∷ "/" ∷ claim.name ∷ [])

abbrev wrap_option : String → Option Error → Option Error
wrap_option s none = none
wrap_option s (some e) = some (wrap s e)

module _ (go : Runtime) where
  unfoldable pub status_patch :
      Meta → ServiceClaim → ℕ → SloReport go → Option StorageStatus → List Condition → StatusPatch
  unfolding set_conditions
  status_patch meta claim managed report storage set = record {
    name = claim.name;
    namespace = claim.namespace;
    conditions = set_conditions meta claim.status.conditions set;
    observed_generation = claim.generation;
    managed_resources = count_unless_zero managed;
    error_budget_remaining = text_unless_empty report.budget_remaining;
    burn_rate_1h = text_unless_empty report.burn_rate_1h;
    storage = storage;
  }

  module _ (env : Env go) where
    -- The error of the first condition that cannot be converted.
    unfoldable pub conversion_error : List Condition → Option Error
    conversion_error [] = none
    conversion_error (c ∷ cs) = elim (env.condition_error c) [
      | none ↦ conversion_error cs
      | some e ↦ some (wrap (concat ("converting condition " ∷ go.quote c.type ∷ ": " ∷ [])) e)
    ]

    unfoldable pub send_status : ServiceClaim → StatusPatch → M (Option Error)
    unfolding conversion_error
    send_status claim patch = elim (conversion_error patch.conditions) [
      | some e ↦ pure (some e)
      | none ↦ call (apply_status patch) env.status_answer >>= λ answer. pure (
          wrap_option (concat ("applying status to ServiceClaim " ∷ claim_key claim ∷ ": " ∷ []))
            answer)
    ]

    unfoldable pub set_finalizer : ServiceClaim → Bool → M (Option Error)
    set_finalizer claim present =
        call (apply_finalizer claim.namespace claim.name present)
          (λ h. env.finalizer_answer h present)
        >>= λ answer. pure (
            wrap_option
              (concat (
                "setting finalizer present="
                ∷ (if present then "true" else "false")
                ∷ " on ServiceClaim "
                ∷ claim_key claim
                ∷ ": "
                ∷ []))
              answer)
