-- ===== src/Builders/Storage/Policy.antt =====
-- internal/builders/storage.go: policy documents and their JSON.
use paved.Base.{String, List, [], ◌∷◌, ◌++◌, map, Json, json_array, json_object, json_texts}

-- policyDocument and policyStatement, with the JSON names of their fields.
pub record PolicyStatement : Type 0 where
  pub effect : String
  pub principal : List (String × String)
  pub action : List String
  pub resource : List String
  pub condition : List (String × List (String × String))

abbrev text_field : String × String → String × Json
text_field (k, v) = (k, Json.string v)

abbrev condition_field : String × List (String × String) → String × Json
condition_field (k, m) = (k, json_object (map text_field m))

-- omitempty: a map or a list without elements has no field.
abbrev unless_empty {ℓ} : {A : Type ℓ} → String → (List A → Json) → List A → List (String × Json)
unless_empty key encode [] = []
unless_empty key encode (x ∷ xs) = (key, encode (x ∷ xs)) ∷ []

unfoldable statement_json : PolicyStatement → Json
statement_json s = json_object (
    ("Effect", Json.string s.effect)
      ∷ unless_empty "Principal" (λ m. json_object (map text_field m)) s.principal
    ++ ("Action", json_texts s.action) ∷ unless_empty "Resource" json_texts s.resource
    ++ unless_empty "Condition" (λ m. json_object (map condition_field m)) s.condition)

unfoldable pub policy_json : List PolicyStatement → Json
unfolding statement_json
policy_json statements = json_object (
    ("Version", Json.string "2012-10-17")
    ∷ ("Statement", json_array (map statement_json statements))
    ∷ [])
