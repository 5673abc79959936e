-- ===== src/Builders/Network.antt =====
-- internal/builders: networkpolicy.go and ingress.go.
pub mod Laws
use paved.Base.{
  String, Bool, true, false, List, [], ◌∷◌, ◌++◌, ℕ, concat, ◌||◌, if◌then◌else◌, ◌==◌,
}
use paved.Api.{ServiceClaim, tier_public, tier_internal}
use paved.Builders.Objects.{
  Object, network_policy_body, ingress_body, IngressRule, Peer, same_namespace, namespaces,
}
use paved.Builders.Names.{port_name, object_meta}

abbrev pub ingress_namespace : String
ingress_namespace = "traefik"

abbrev pub monitoring_namespace : String
monitoring_namespace = "monitoring"

abbrev pub platform_namespace : String
platform_namespace = "platform-system"

abbrev pub namespace_peer : String → Peer
namespace_peer namespace = namespaces (("kubernetes.io/metadata.name", namespace) ∷ [])

abbrev pub service_port_only : ServiceClaim → List ℕ
service_port_only sc = sc.spec.port ∷ []

unfoldable pub ingress_rules : ServiceClaim → List IngressRule
ingress_rules sc =
    (record { peers = namespace_peer monitoring_namespace ∷ []; ports = service_port_only sc } ∷ [])
    ++ ((if sc.spec.tier == tier_public || sc.spec.tier == tier_internal
          then record {
            peers = same_namespace ∷ namespace_peer platform_namespace ∷ [];
            ports = [];
          }
            ∷ []
          else [])
        ++ (if sc.spec.tier == tier_public
            then record {
              peers = namespace_peer ingress_namespace ∷ [];
              ports = service_port_only sc;
            }
              ∷ []
            else []))

unfoldable pub build_network_policy : ServiceClaim → Object
build_network_policy sc = record {
  meta = object_meta sc sc.name;
  body = network_policy_body (ingress_rules sc);
}

unfoldable pub ingress_host : ServiceClaim → String
ingress_host sc = concat (sc.name ∷ ".localhost" ∷ [])

unfoldable pub build_ingress : ServiceClaim → Object
build_ingress sc = record {
  meta = object_meta sc sc.name;
  body = ingress_body (record {
    class_name = "traefik";
    host = ingress_host sc;
    path = "/";
    path_type = "Prefix";
    service_name = sc.name;
    service_port = port_name;
  });
}
