-- ===== src/Controller/Storage/Laws.antt =====
-- When a claim's storage is there, and when a cluster is linked to an AWS account.
use paved.Base.{
  String, List, [], ◌∷◌, Option, none, some, ok, Error, ◌≡◌, refl, sym, ◌∙◌, ◌↔◌, inl, inr, arith,
  eq_iff, All, Option-cases, Result-cases,
}
use mathlib.Core.Path.{subst}
use paved.Api.{Status, condition_true}
use paved.Runtime.{Runtime}
use paved.Builders.Storage.{StorageConfig, validate}
use paved.Controller.Env.{AckObject, AckCondition}
use paved.Controller.Storage.{
  ObservedAckObject, ack_conditions, ack_condition, ack_terminal, ack_resource_synced, ack_true,
  decoded_verdict, verdict, unreadable, storage_decision,
}
use paved.Controller.Storage.Settings.{
  storage_config_from_env, env_aws_account_id, env_aws_region, env_aws_oidc_issuer,
  env_aws_permissions_boundary_arn,
}

some-none {ℓ} : {A : Type ℓ} (a : A) → some a ≡ none → ⊥
some-none a e = absurd cc

-- An object that was read, whose conditions say that ACK has synced it and has not given up.
abbrev pub IsProvisioned : ObservedAckObject → Type 0
IsProvisioned o =
    (o.read_error ≡ none)
    × ((conditions : List (String × AckCondition)) × (ack_conditions o.kind o.ref o.object
          ≡ ok conditions)
        × ((ack_condition ack_resource_synced conditions).status ≡ ack_true)
        × ¬ ((ack_condition ack_terminal conditions).status ≡ ack_true))

decoded_verdict-none :
    (kind : String) (conditions : List (String × AckCondition))
    → (decoded_verdict kind conditions ≡ none) ↔ (
        ((ack_condition ack_resource_synced conditions).status ≡ ack_true)
        × ¬ ((ack_condition ack_terminal conditions).status ≡ ack_true))
unfolding decoded_verdict
decoded_verdict-none kind conditions = ground (
  arith,
  eq_iff (ack_condition ack_resource_synced conditions).status ack_true,
  eq_iff (ack_condition ack_terminal conditions).status ack_true,
)

verdict-parts :
    (kind ref : String) (object : AckObject) (e : Option Error)
    → let o : ObservedAckObject = record {
      kind = kind;
      ref = ref;
      object = object;
      read_error = e;
    } in
      (verdict o ≡ none) ↔ IsProvisioned o
unfolding verdict unreadable
verdict-parts kind ref object (some e) = (λ p. absurd (ground arith), λ (p, _). absurd cc)
verdict-parts kind ref object none = elim (Result-cases (ack_conditions kind ref object)) [
  | inr (e, failed) ↦ (
    λ p. absurd (some-none _ (rw (failed, verdict) at p)),
    λ (_, (conditions, read, _, _)). absurd (let no_way = sym failed ∙ read in cc),
  )
  | inl (conditions, read) ↦ (
    λ p.
        let shown = (decoded_verdict-none kind conditions).0 (rw (read, verdict) at p) in
        (refl, (conditions, read, shown.0, shown.1)),
    λ (_, (others, read', synced, living)).
        let same : others ≡ conditions = let e = sym read' ∙ read in cc in
        rw (read, verdict)
          ((decoded_verdict-none kind conditions).1 (
            subst
              (λ (cs : List (String × AckCondition)).
                ((ack_condition ack_resource_synced cs).status ≡ ack_true)
                × ¬ ((ack_condition ack_terminal cs).status ≡ ack_true))
              same (synced, living))),
  )
]

verdict-none : (o : ObservedAckObject) → (verdict o ≡ none) ↔ IsProvisioned o
verdict-none o = verdict-parts o.kind o.ref o.object o.read_error

verdict-false :
    (o : ObservedAckObject) (v : Status × String × String)
    → verdict o ≡ some v
    → ¬ (v.0 ≡ condition_true)
unfolding verdict unreadable decoded_verdict
verdict-false o v e = ground arith

-- A claim's storage is ready exactly if each of its objects was read, is synced by ACK, and is not
-- terminal.
pub storage_decision-true :
    (os : List ObservedAckObject)
    → ((storage_decision os).0 ≡ condition_true) ↔ All IsProvisioned os
unfolding storage_decision
storage_decision-true [] = (λ _. tt, λ _. refl)
storage_decision-true (o ∷ os) = elim (Option-cases (verdict o)) [
  | inl fine ↦ (
    λ p. ((verdict-none o).0 fine, (storage_decision-true os).0 (rw (fine, storage_decision) at p)),
    λ (_, rest). rw (fine, storage_decision) ((storage_decision-true os).1 rest),
  )
  | inr (v, bad) ↦ (
    λ p. absurd (verdict-false o v bad (rw (bad, storage_decision) at p)),
    λ (good, _). absurd (let no_way = sym bad ∙ (verdict-none o).1 good in cc),
  )
]

-- The settings of a link to AWS, which the program reads from its environment.
abbrev pub settings : (String → String) → StorageConfig
settings getenv = record {
  account_id = getenv env_aws_account_id;
  region = getenv env_aws_region;
  issuer = getenv env_aws_oidc_issuer;
  permissions_boundary_arn = getenv env_aws_permissions_boundary_arn;
}

-- A cluster counts as not linked exactly if all four settings are empty.
pub storage_config_from_env-none :
    (go : Runtime) (getenv : String → String)
    → (storage_config_from_env go getenv ≡ ok none) ↔ (
        (getenv env_aws_account_id ≡ "")
        × (getenv env_aws_region ≡ "")
        × (getenv env_aws_oidc_issuer ≡ "")
        × (getenv env_aws_permissions_boundary_arn ≡ ""))
unfolding storage_config_from_env
storage_config_from_env-none go getenv = ground (
  arith,
  eq_iff (getenv env_aws_account_id) "",
  eq_iff (getenv env_aws_region) "",
  eq_iff (getenv env_aws_oidc_issuer) "",
  eq_iff (getenv env_aws_permissions_boundary_arn) "",
)

-- A cluster is linked to an AWS account exactly if all four settings are there and valid, and then
-- with those settings.
pub storage_config_from_env-some :
    (go : Runtime) (getenv : String → String) (c : StorageConfig)
    → (storage_config_from_env go getenv ≡ ok (some c)) ↔ (
        ¬ (getenv env_aws_account_id ≡ "")
        × ¬ (getenv env_aws_region ≡ "")
        × ¬ (getenv env_aws_oidc_issuer ≡ "")
        × ¬ (getenv env_aws_permissions_boundary_arn ≡ "")
        × (validate go (settings getenv) ≡ none)
        × (settings getenv ≡ c))
unfolding storage_config_from_env
storage_config_from_env-some go getenv c = ground (
  arith,
  eq_iff (getenv env_aws_account_id) "",
  eq_iff (getenv env_aws_region) "",
  eq_iff (getenv env_aws_oidc_issuer) "",
  eq_iff (getenv env_aws_permissions_boundary_arn) "",
)
