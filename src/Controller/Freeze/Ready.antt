-- ===== src/Controller/Freeze/Ready.antt =====
-- When a claim is Ready.
use paved.Base.{true, false, Option, none, some, Error, ◌≡◌, ◌↔◌, arith, itoa, eq_iff}
use paved.Api.{ServiceClaim, Condition}
use paved.Api.Conditions.{is_true}
use paved.Controller.Env.{Rollout}
use paved.Controller.Freeze.{ready_condition}

-- A claim's StorageReady condition lets it be Ready if it is True, or if there is none.
abbrev pub StorageAllows : Option Condition → Type 0
StorageAllows none = Unit
StorageAllows (some c) = is_true c.status ≡ true

-- Ready is True exactly when all managed resources are applied, the storage is there if it was
-- asked for, and the Rollout was read, reports on its current generation, and is healthy.
pub ready_iff :
    (claim : ServiceClaim) (synced : Condition) (storage : Option Condition) (rollout : Rollout)
    (get_err : Option Error)
    → (is_true (ready_condition claim synced storage rollout get_err).status ≡ true) ↔ (
        (is_true synced.status ≡ true)
        × StorageAllows storage
        × (get_err ≡ none)
        × (rollout.observed_generation ≡ itoa rollout.generation)
        × (rollout.phase ≡ "Healthy"))
unfolding ready_condition
ready_iff claim synced none rollout (some e) = (λ h. ground arith, λ h. ground arith)
ready_iff claim synced (some s) rollout (some e) = (λ h. ground arith, λ h. ground arith)
ready_iff claim synced none rollout none =
    let observed = eq_iff rollout.observed_generation (itoa rollout.generation) in
    let healthy = eq_iff rollout.phase "Healthy" in (λ h. ground arith, λ h. ground arith)
ready_iff claim synced (some s) rollout none =
    let observed = eq_iff rollout.observed_generation (itoa rollout.generation) in
    let healthy = eq_iff rollout.phase "Healthy" in (λ h. ground arith, λ h. ground arith)

-- A Rollout is not looked at while the resources are not synced.
pub ready_condition-not_synced :
    (claim : ServiceClaim) (synced : Condition) (storage : Option Condition) (p q : Rollout)
    → is_true synced.status ≡ false
    → ready_condition claim synced storage p none ≡ ready_condition claim synced storage q none
unfolding ready_condition
ready_condition-not_synced claim synced none p q h = rw h
ready_condition-not_synced claim synced (some s) p q h = rw h
