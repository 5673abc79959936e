-- ===== src/Operator.antt =====
-- cmd/main.go: the flags, and what the manager is made with.
pub mod Start
pub mod Steps
pub mod Laws
pub mod Answers
use paved.Base.{
  ℕ, ℤ, pos, String, Bool, true, false, not, List, [], ◌∷◌, ◌++◌, map, Option, none, some,
  if◌then◌else◌, ◌==◌,
}
use paved.Builders.Objects.{Kind}
use paved.Builders.Names.{label_managed_by, managed_by}
use paved.Builders.Set.{managed_types}
use paved.Builders.Storage.{storage_types}
use paved.Builders.Monitoring.{default_prometheus_url}

pub record Flags : Type 0 where
  pub metrics_addr : String
  pub metrics_cert_path : String
  pub metrics_cert_name : String
  pub metrics_cert_key : String
  pub webhook_cert_path : String
  pub webhook_cert_name : String
  pub webhook_cert_key : String
  pub webhook_port : ℤ
  pub enable_leader_election : Bool
  pub probe_addr : String
  pub secure_metrics : Bool
  pub enable_http2 : Bool
  pub prometheus_url : String

-- The flags' defaults.
abbrev pub default_flags : Flags
default_flags = record {
  metrics_addr = "0";
  metrics_cert_path = "";
  metrics_cert_name = "tls.crt";
  metrics_cert_key = "tls.key";
  webhook_cert_path = "";
  webhook_cert_name = "tls.crt";
  webhook_cert_key = "tls.key";
  webhook_port = pos 9443;
  enable_leader_election = false;
  probe_addr = ":8081";
  secure_metrics = true;
  enable_http2 = false;
  prometheus_url = default_prometheus_url;
}

-- tls.Config: the protocols that a server offers. A server starts from its library's choice.
pub record TlsConfig : Type 0 where
  pub next_protos : List String

abbrev pub TlsOption : Type 0
TlsOption = TlsConfig → TlsConfig

abbrev pub disable_http2 : TlsOption
disable_http2 c = record { next_protos = "http/1.1" ∷ [] }

-- What a server does with its options: each in order.
abbrev pub apply_options : List TlsOption → TlsConfig → TlsConfig
apply_options [] c = c
apply_options (option ∷ options) c = apply_options options (option c)

-- A certificate's directory and the names of its files; all are empty where none is given.
pub record Certificate : Type 0 where
  pub dir : String
  pub name : String
  pub key : String

-- webhook.Options.
pub record WebhookOptions : Type 0 where
  pub tls : List TlsOption
  pub port : ℤ
  pub certificate : Certificate

-- metricsserver.Options; `filtered` is whether requests are authenticated and authorized.
pub record MetricsOptions : Type 0 where
  pub bind_address : String
  pub secure_serving : Bool
  pub tls : List TlsOption
  pub filtered : Bool
  pub certificate : Certificate

-- cache.Options: the label that an object of a kind must have to be cached, with its value.
abbrev pub CacheOptions : Type 0
CacheOptions = List (Kind × String × String)

-- ctrl.Options.
pub record ManagerOptions : Type 0 where
  pub cache : CacheOptions
  pub metrics : MetricsOptions
  pub webhook : WebhookOptions
  pub probe_addr : String
  pub leader_election : Bool
  pub leader_election_id : String

abbrev leader_election_id : String
leader_election_id = "4ff88f17.paved.dev"

abbrev pub tls_options : Flags → List TlsOption
tls_options flags = if not flags.enable_http2 then disable_http2 ∷ [] else []

abbrev certificate_at : String → String → String → Certificate
certificate_at path name key =
    if path == ""
    then record { dir = ""; name = ""; key = "" }
    else record { dir = path; name = name; key = key }

unfoldable pub webhook_options : Flags → WebhookOptions
webhook_options flags = record {
  tls = tls_options flags;
  port = flags.webhook_port;
  certificate =
      certificate_at flags.webhook_cert_path flags.webhook_cert_name flags.webhook_cert_key;
}

unfoldable pub metrics_options : Flags → MetricsOptions
metrics_options flags = record {
  bind_address = flags.metrics_addr;
  secure_serving = flags.secure_metrics;
  tls = tls_options flags;
  filtered = flags.secure_metrics;
  certificate =
      certificate_at flags.metrics_cert_path flags.metrics_cert_name flags.metrics_cert_key;
}

-- managedObjectCache.
unfoldable pub managed_object_cache : Bool → CacheOptions
managed_object_cache storage =
    map (λ kind. (kind, label_managed_by, managed_by))
      (managed_types ++ (if storage then storage_types else []))

unfoldable pub manager_options : Flags → Bool → ManagerOptions
unfolding webhook_options metrics_options managed_object_cache
manager_options flags storage = record {
  cache = managed_object_cache storage;
  metrics = metrics_options flags;
  webhook = webhook_options flags;
  probe_addr = flags.probe_addr;
  leader_election = flags.enable_leader_election;
  leader_election_id = leader_election_id;
}
