-- ===== src/Operator/Start.antt =====
-- cmd/main.go: the steps of main, each of which may end the program. What the libraries answer is a
-- parameter.
use paved.Base.{
  String, Bool, true, not, List, [], ◌∷◌, Option, none, some, Result, ok, err, wrap, Error,
  if◌then◌else◌, ◌==◌,
}
use paved.Runtime.{Runtime}
use paved.Builders.Objects.{Kind}
use paved.Builders.Storage.{StorageConfig, linked}
use paved.Slo.Prometheus.{PrometheusClient, new_prometheus_client}
use paved.Controller.Env.{Reconciler}
use paved.Controller.Storage.Settings.{storage_config_from_env}
use paved.Controller.Storage.Kinds.{serves_storage_kinds}
use paved.Controller.Watch.{setup_with_manager}
use paved.Operator.{Flags, ManagerOptions, manager_options}

-- The APIs that are registered with the scheme.
pub data ApiGroup : Type 0 where
  clientgo platform rollouts monitoring : ApiGroup

-- The environment variables, and the errors of the libraries' steps, if they fail.
pub record Cluster : Type 0 where
  pub getenv : String → String
  pub scheme_error : ApiGroup → Option Error
  -- ctrl.GetConfigOrDie ends the program itself, with a text of its own.
  pub config_text : String
  pub config_error : Option Error
  pub client_error : Option Error
  -- RESTMapping, and meta.IsNoMatchError on what it came to.
  pub mapping_error : Kind → Option Error
  pub is_no_match : Error → Bool
  pub manager_error : ManagerOptions → Option Error
  pub prometheus_error : String → Option Error
  pub controller_error : List Kind → Option Error
  pub webhook_error : Option Error
  pub healthz_error : Option Error
  pub readyz_error : Option Error
  pub run_error : Option Error

-- A step that went well, or the text that is logged with the error before the program exits.
pub data Boot {ℓ} (Value : Type ℓ) : Type ℓ where
  exits : String → Error → Boot Value
  goes_on : Value → Boot Value

infixl 5 ◌>>=◌
abbrev pub ◌>>=◌ {ℓ κ} :
    {First : Type ℓ} {Second : Type κ} → Boot First → (First → Boot Second) → Boot Second
exits text e >>= next = exits text e
goes_on value >>= next = next value

-- if err != nil { setupLog.Error(err, text); os.Exit(1) }
abbrev pub unless_error : String → Option Error → Boot (Unit {0})
unless_error text none = goes_on tt
unless_error text (some e) = exits text e

abbrev pub of_result {ℓ} : {Value : Type ℓ} → String → Result Value → Boot Value
of_result text (ok value) = goes_on value
of_result text (err e) = exits text e

unfoldable pub add_to_scheme : (ApiGroup → Option Error) → List ApiGroup → Option Error
add_to_scheme add [] = none
add_to_scheme add (group ∷ groups) = elim (add group) [
  | some e ↦ some e
  | none ↦ add_to_scheme add groups
]

abbrev pub api_groups : List ApiGroup
api_groups = clientgo ∷ platform ∷ rollouts ∷ monitoring ∷ []

-- What main has set up when it starts the manager.
pub record Manager : Type 0 where
  pub options : ManagerOptions
  pub prometheus : PrometheusClient
  pub reconciler : Reconciler
  pub watched : List Kind
  pub webhook : Bool

module _ (go : Runtime) (cluster : Cluster) where
  -- The settings are there: the kinds decide.
  abbrev storage_if_served : StorageConfig → Option Error → Result (Option StorageConfig)
  storage_if_served storage none = ok (some storage)
  storage_if_served storage (some e) = if not (cluster.is_no_match e) then err e else ok none

  abbrev storage_with_client : StorageConfig → Option Error → Result (Option StorageConfig)
  storage_with_client storage (some e) = err (wrap "creating a client to look for the ACK CRDs: " e)
  storage_with_client storage none =
      storage_if_served storage (serves_storage_kinds cluster.mapping_error)

  unfoldable pub storage_for_cluster : Result (Option StorageConfig)
  storage_for_cluster = elim (storage_config_from_env go cluster.getenv) [
    | err e ↦ err e
    | ok none ↦ ok none
    | ok (some storage) ↦ storage_with_client storage cluster.client_error
  ]

  abbrev pub webhooks_enabled : Bool
  webhooks_enabled = not (cluster.getenv "ENABLE_WEBHOOKS" == "false")

  abbrev reconciler_with : Option StorageConfig → Reconciler
  reconciler_with storage = record {
    prometheus = true;
    api_reader = true;
    recorder = true;
    storage = storage;
  }

  -- main, up to the start of the manager.
  unfoldable pub set_up : Flags → Boot Manager
  set_up flags = do
    tt ← unless_error "Failed to register API types" (add_to_scheme cluster.scheme_error api_groups)
    tt ← unless_error cluster.config_text cluster.config_error
    storage ← of_result "Failed to read the AWS storage settings" storage_for_cluster
    tt ←
        unless_error "Failed to start manager"
          (cluster.manager_error (manager_options flags (linked storage)))
    prometheus ← of_result "Failed to create Prometheus client" (
        new_prometheus_client go (cluster.prometheus_error flags.prometheus_url)
          flags.prometheus_url)
    tt ←
        unless_error "Failed to create controller"
          (cluster.controller_error (setup_with_manager storage))
    tt ←
        unless_error "Failed to create webhook"
          (if webhooks_enabled then cluster.webhook_error else none)
    tt ← unless_error "Failed to set up health check" cluster.healthz_error
    tt ← unless_error "Failed to set up ready check" cluster.readyz_error
    goes_on (record {
      options = manager_options flags (linked storage);
      prometheus = prometheus;
      reconciler = reconciler_with storage;
      watched = setup_with_manager storage;
      webhook = webhooks_enabled;
    })

  -- main: it returns, or exits with 1.
  unfoldable pub main : Flags → Boot (Unit {0})
  unfolding set_up
  main flags = set_up flags >>= λ manager. unless_error "Failed to run manager" cluster.run_error
