-- ===== src/Examples/Operators.antt =====
-- A start of the operator on a cluster without AWS, where everything that it asks for succeeds.
use paved.Base.{false, Option, none, some, ok, ◌≡◌, refl, ◌↔◌, All}
use paved.Builders.Objects.{Kind}
use paved.Builders.Storage.{StorageConfig, validate}
use paved.Slo.Prometheus.{PrometheusClient, new_prometheus_client, new_client}
use paved.Controller.Storage.Settings.{
  storage_config_from_env, env_aws_account_id, env_aws_region, env_aws_oidc_issuer,
  env_aws_permissions_boundary_arn,
}
use paved.Controller.Storage.Laws.{settings}
use paved.Operator.{default_flags}
use paved.Operator.Start.{
  Cluster, Manager, goes_on, set_up, main, add_to_scheme, storage_for_cluster,
}
use paved.Operator.Steps.{manager_of}
use paved.Operator.Answers.{AnswersWell, main-goes_on_iff}
use paved.Operator.Laws.{IsSeen, set_up-IsSeen, storage_for_cluster-some}
use paved.Examples.Numbers.{go}
use paved.Examples.Claims.{shortlink, built, built_lem}

abbrev cluster : Cluster
cluster = record {
  getenv = λ key. "";
  scheme_error = λ group. none;
  config_text = "no config";
  config_error = none;
  client_error = none;
  mapping_error = λ kind. none;
  is_no_match = λ e. false;
  manager_error = λ options. none;
  prometheus_error = λ address. none;
  controller_error = λ kinds. none;
  webhook_error = none;
  healthz_error = none;
  readyz_error = none;
  run_error = none;
}

abbrev client : PrometheusClient
client = record { address = default_flags.prometheus_url; timeout = 5 }

abbrev manager : Manager
manager = manager_of go cluster default_flags none client

manager_made : set_up go cluster default_flags ≡ goes_on manager
unfolding set_up add_to_scheme storage_for_cluster storage_config_from_env new_prometheus_client
    new_client
manager_made = refl

set_up-IsSeen_example : All (IsSeen manager) built
set_up-IsSeen_example =
    set_up-IsSeen go cluster default_flags manager manager_made shortlink built built_lem

main-goes_on_iff_example :
    (main go cluster default_flags ≡ goes_on tt)
    ↔ ((storage : Option StorageConfig) × AnswersWell go cluster default_flags storage)
main-goes_on_iff_example = main-goes_on_iff go cluster default_flags

abbrev account : StorageConfig
account = record { account_id = ""; region = ""; issuer = ""; permissions_boundary_arn = "" }

storage_for_cluster-some_example : (storage_for_cluster go cluster ≡ ok (some account)) ↔ (
    ¬ (cluster.getenv env_aws_account_id ≡ "")
    × ¬ (cluster.getenv env_aws_region ≡ "")
    × ¬ (cluster.getenv env_aws_oidc_issuer ≡ "")
    × ¬ (cluster.getenv env_aws_permissions_boundary_arn ≡ "")
    × (validate go (settings cluster.getenv) ≡ none)
    × (settings cluster.getenv ≡ account)
    × (cluster.client_error ≡ none)
    × (cluster.mapping_error Kind.role ≡ none)
    × (cluster.mapping_error Kind.bucket ≡ none))
storage_for_cluster-some_example = storage_for_cluster-some go cluster account
