-- ===== src/Controller/Reconcile/Conditions.antt =====
-- What the status that a reconcile writes says, read back through the conditions' library.
use paved.Base.{ℕ, String, List, [], ◌∷◌, ◌++◌, Option, none, some, ◌≡◌, ◌∙◌, if◌then◌else◌, ◌==◌}
use paved.Api.{
  ServiceClaim, Condition, condition_ready, condition_deploys_frozen, condition_storage_ready,
}
use paved.Api.Conditions.{Meta, MetaLaws}
use paved.Runtime.{Runtime}
use paved.Controller.Freeze.{SloReport, freeze_condition, ready_condition}
use paved.Controller.Storage.{StorageReport}
use paved.Controller.Drift.{Applied}
use paved.Controller.Status.{set_conditions}
use paved.Controller.Reconcile.{synced_condition, conditions_of, option_list, RolloutRead}

-- A report's StorageReady condition, if there is one, has its type.
abbrev pub TypedStorage : Option Condition → Type 0
TypedStorage none = Unit
TypedStorage (some c) = c.type ≡ condition_storage_ready

module _ (go : Runtime) (meta : Meta) (laws : MetaLaws meta) (claim : ServiceClaim) where
  pub find-set_conditions :
      (cs ds : List Condition) (c : Condition) (t : String)
      → meta.find (set_conditions meta cs (ds ++ c ∷ [])) t
        ≡ (if c.type == t then some c else meta.find (set_conditions meta cs ds) t)
  unfolding set_conditions
  find-set_conditions cs [] c t = laws.find-set_condition cs c t
  find-set_conditions cs (d ∷ ds) c t = find-set_conditions (meta.set_condition cs d) ds c t

  module _ (total : ℕ) (applied : Applied) (report : SloReport go) (storage : StorageReport)
      (rollout : RolloutRead) where
    -- The conditions of the claim after the reconcile.
    abbrev pub written : List Condition
    written =
        set_conditions meta claim.status.conditions
          (conditions_of go meta claim total applied report storage rollout)

    abbrev pub ready : Condition
    ready =
        ready_condition claim (synced_condition claim applied.count total applied.error)
          storage.condition rollout.rollout rollout.error

    abbrev synced : Condition
    synced = synced_condition claim applied.count total applied.error

    abbrev frozen : Condition
    frozen = freeze_condition go meta claim report

    abbrev front : List Condition
    front = synced ∷ report.condition ∷ frozen ∷ []

    abbrev before : List Condition
    before = claim.status.conditions

    pub written-ready : meta.find written condition_ready ≡ some ready
    unfolding conditions_of ready_condition
    written-ready =
        find-set_conditions before (front ++ option_list storage.condition) ready condition_ready

    -- What comes before the last condition.
    FrontFound : Condition → Option Condition → Type 0
    FrontFound c sc =
        meta.find (set_conditions meta before (front ++ option_list sc)) c.type ≡ some c

    front-frozen : (sc : Option Condition) → TypedStorage sc → FrontFound frozen sc
    unfolding FrontFound freeze_condition
    front-frozen none h =
        find-set_conditions before (synced ∷ report.condition ∷ []) frozen condition_deploys_frozen
    front-frozen (some c) h =
        find-set_conditions before front c condition_deploys_frozen
        ∙ rw h (
            find-set_conditions before (synced ∷ report.condition ∷ []) frozen
              condition_deploys_frozen)

    pub written-frozen :
        TypedStorage storage.condition → meta.find written condition_deploys_frozen ≡ some frozen
    unfolding conditions_of ready_condition FrontFound freeze_condition
    written-frozen h =
        find-set_conditions before (front ++ option_list storage.condition) ready
          condition_deploys_frozen
        ∙ front-frozen storage.condition h
