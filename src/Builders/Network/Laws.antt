-- ===== src/Builders/Network/Laws.antt =====
-- Who may reach a claim's pods, by the tier: what a NetworkPolicy of these rules means.
use paved.Base.{ℕ, String, Bool, true, false, ◌&&◌, ◌||◌, List, [], ◌∷◌, ◌≡◌, arith, ◌==◌, nat_eq}
use paved.Api.{ServiceClaim, tier_public, tier_internal}
use paved.Builders.Objects.{IngressRule, Peer, same_namespace, namespaces}
use paved.Builders.Names.{namespace_name}
use paved.Builders.Network.{
  ingress_rules, ingress_namespace, monitoring_namespace, platform_namespace,
}

-- The namespace's label kubernetes.io/metadata.name, which the API server sets to its name, is the only
-- one that the rules ask for.
abbrev pub selected : List (String × String) → String → Bool
selected [] from = true
selected ((key, name) ∷ rest) from =
    (key == "kubernetes.io/metadata.name" && name == from) && selected rest from

-- Whether a peer is the pods of this namespace, for a policy in `home`.
abbrev pub peer_admits : String → Peer → String → Bool
peer_admits home same_namespace from = home == from
peer_admits home (namespaces want) from = selected want from

abbrev pub any_peer : String → List Peer → String → Bool
any_peer home [] from = false
any_peer home (p ∷ ps) from = peer_admits home p from || any_peer home ps from

abbrev pub any_port : List ℕ → ℕ → Bool
any_port [] port = false
any_port (p ∷ ps) port = nat_eq p port || any_port ps port

-- Without ports, a rule is for every port.
abbrev pub ports_admit : List ℕ → ℕ → Bool
ports_admit [] port = true
ports_admit (p ∷ ps) port = any_port (p ∷ ps) port

-- What networking.k8s.io/v1 documents of an ingress policy: traffic passes if some rule has both its
-- origin and its port.
unfoldable pub admits : String → List IngressRule → String → ℕ → Bool
admits home [] from port = false
admits home (rule ∷ rules) from port =
    any_peer home rule.peers from && ports_admit rule.ports port || admits home rules from port

-- Traffic from a namespace to a port of a claim's pods is admitted exactly if it is Prometheus's to the
-- service port; or, of a public or internal claim, from its own namespace or the platform's;
-- or, of a public claim, the ingress controller's to the service port.
pub ingress_rules-admits :
    (sc : ServiceClaim) (from : String) (port : ℕ)
    → admits (namespace_name sc) (ingress_rules sc) from port ≡ (
        monitoring_namespace == from && nat_eq sc.spec.port port
        || (sc.spec.tier == tier_public || sc.spec.tier == tier_internal)
          && (namespace_name sc == from || platform_namespace == from)
        || sc.spec.tier == tier_public && ingress_namespace == from && nat_eq sc.spec.port port)
unfolding ingress_rules admits
ingress_rules-admits sc from port = ground arith
