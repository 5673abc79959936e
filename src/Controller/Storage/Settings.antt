-- ===== src/Controller/Storage/Settings.antt =====
-- internal/controller/storage.go: the link of a cluster to an AWS account, from its environment.
use paved.Base.{
  ℕ, suc, String, List, [], ◌∷◌, Option, none, some, Result, ok, err, plain, wrap, Error, concat,
  if◌then◌else◌, ◌==◌, nat_eq,
}
use paved.Runtime.{Runtime}
use paved.Builders.Storage.{StorageConfig, validate}

abbrev pub env_aws_account_id : String
env_aws_account_id = "PAVED_AWS_ACCOUNT_ID"

abbrev pub env_aws_region : String
env_aws_region = "PAVED_AWS_REGION"

abbrev pub env_aws_oidc_issuer : String
env_aws_oidc_issuer = "PAVED_AWS_OIDC_ISSUER"

abbrev pub env_aws_permissions_boundary_arn : String
env_aws_permissions_boundary_arn = "PAVED_AWS_PERMISSIONS_BOUNDARY_ARN"

-- How many of the values are set.
abbrev count_set : List String → ℕ
count_set [] = 0
count_set (v ∷ vs) = if v == "" then count_set vs else suc (count_set vs)

abbrev config_or_error : StorageConfig → Option Error → Result (Option StorageConfig)
config_or_error c none = ok (some c)
config_or_error c (some e) = err (wrap "invalid AWS storage settings: " e)

unfoldable pub storage_config_from_env : Runtime → (String → String) → Result (Option StorageConfig)
storage_config_from_env go getenv =
    let storage : StorageConfig = record {
      account_id = getenv env_aws_account_id;
      region = getenv env_aws_region;
      issuer = getenv env_aws_oidc_issuer;
      permissions_boundary_arn = getenv env_aws_permissions_boundary_arn;
    } in
    let set = count_set (
      getenv env_aws_account_id
      ∷ getenv env_aws_region
      ∷ getenv env_aws_oidc_issuer
      ∷ getenv env_aws_permissions_boundary_arn
      ∷ []) in
    if nat_eq set 0
    then ok none
    else if nat_eq set 4
    then config_or_error storage (validate go storage)
    else err (
        plain (
          concat (
            "set all of " ∷ env_aws_account_id ∷ ", " ∷ env_aws_region ∷ ", " ∷ env_aws_oidc_issuer
            ∷ " and " ∷ env_aws_permissions_boundary_arn ∷ ", or none of them" ∷ [])))
