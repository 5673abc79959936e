-- ===== src/Builders/Names.antt =====
-- internal/builders/builders.go: the names and the labels of a claim's objects.
use paved.Base.{String, List, [], ◌∷◌, concat}
use paved.Api.{ServiceClaim}
use paved.Builders.Objects.{ObjectMeta}

abbrev pub label_name : String
label_name = "app.kubernetes.io/name"

abbrev pub label_managed_by : String
label_managed_by = "app.kubernetes.io/managed-by"

abbrev pub label_claim : String
label_claim = "paved.dev/claim"

abbrev pub label_claim_namespace : String
label_claim_namespace = "paved.dev/claim-namespace"

abbrev pub label_owner : String
label_owner = "paved.dev/owner"

abbrev pub managed_by : String
managed_by = "paved"

abbrev pub port_name : String
port_name = "http"

abbrev pub namespace_prefix : String
namespace_prefix = "svc-"

unfoldable pub namespace_name : ServiceClaim → String
namespace_name sc = concat (namespace_prefix ∷ sc.name ∷ [])

unfoldable pub runbook_name : ServiceClaim → String
runbook_name sc = concat (sc.name ∷ "-runbook" ∷ [])

unfoldable pub labels : ServiceClaim → List (String × String)
labels sc =
    (label_name, sc.name)
    ∷ (label_managed_by, managed_by)
    ∷ (label_claim, sc.name)
    ∷ (label_claim_namespace, sc.namespace)
    ∷ (label_owner, sc.spec.owner)
    ∷ []

unfoldable pub selector_labels : ServiceClaim → List (String × String)
selector_labels sc = (label_name, sc.name) ∷ []

unfoldable pub object_meta : ServiceClaim → String → ObjectMeta
object_meta sc name = record {
  name = name;
  namespace = namespace_name sc;
  labels = labels sc;
  annotations = [];
}
