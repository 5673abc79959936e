-- ===== src/Services/Mux.antt =====
-- http.ServeMux, as far as the two services use it: patterns of one path segment, the pattern "/", and
-- methods. A path is the list of its segments, that of "/" being one empty segment.
use paved.Base.{
  String, Bool, true, false, not, ◌&&◌, ◌||◌, List, [], ◌∷◌, Option, none, some, if◌then◌else◌,
  ◌==◌, ◌≡◌, sym, ◌∙◌, if_of_true, if_of_false, Bool-cases, inl, inr,
}

-- "/name", "/{name}" and "/".
pub data Shape : Type 0 where
  literal : String → Shape
  wildcard subtree : Shape

-- A pattern without a method has the method "".
pub record Pattern {ℓ} (Handler : Type ℓ) : Type ℓ where
  pub method : String
  pub shape : Shape
  pub handler : Handler

-- A pattern with the method GET matches HEAD too.
abbrev takes_method : String → String → Bool
takes_method pattern method =
    pattern == "" || pattern == method || pattern == "GET" && method == "HEAD"

abbrev takes_path : Shape → List String → Bool
takes_path (literal name) (segment ∷ []) = segment == name
takes_path wildcard (segment ∷ []) = not (segment == "")
takes_path subtree path = true
takes_path _ _ = false

-- Whether the first shape is more specific than the second.
abbrev is_narrower : Shape → Shape → Bool
is_narrower (literal _) wildcard = true
is_narrower (literal _) subtree = true
is_narrower wildcard subtree = true
is_narrower _ _ = false

module _ {ℓ} {Handler : Type ℓ} where
  -- The more specific of a pattern and the choice among the others.
  abbrev narrowest : Pattern Handler → Option (Pattern Handler) → Option (Pattern Handler)
  narrowest p none = some p
  narrowest p (some q) = if is_narrower q.shape p.shape then some q else some p

  -- The most specific pattern that matches.
  unfoldable pub match_pattern :
      List (Pattern Handler) → String → List String → Option (Pattern Handler)
  match_pattern [] method path = none
  match_pattern (p ∷ ps) method path =
      let others = match_pattern ps method path in
      if takes_method p.method method && takes_path p.shape path then narrowest p others else others

  -- Whether another method would have found a handler.
  unfoldable pub knows_path : List (Pattern Handler) → List String → Bool
  knows_path [] path = false
  knows_path (p ∷ ps) path = takes_path p.shape path || knows_path ps path

-- Whether cleaning a path leaves it as it is: only its last segment is empty, and none is a dot or two.
unfoldable pub is_clean : List String → Bool
is_clean [] = true
is_clean (s ∷ []) = not (s == "." || s == "..")
is_clean (s ∷ t ∷ rest) = not (s == "" || s == "." || s == "..") && is_clean (t ∷ rest)

-- A request whose path is not clean is redirected to the clean path, unless its method is CONNECT.
abbrev pub is_moved : String → List String → Bool
is_moved method path = not (method == "CONNECT") && not (is_clean path)

-- What the mux does with a request: the handler of its pattern, 405, 404, or the redirect.
pub data Route {ℓ} (Handler : Type ℓ) : Type ℓ where
  handled : Handler → Route Handler
  method_not_allowed no_route redirected : Route Handler

module _ {ℓ} {Handler : Type ℓ} (patterns : List (Pattern Handler)) (method : String)
    (path : List String) where
  unfoldable pub choose : Route Handler
  unfolding match_pattern knows_path
  choose = elim (match_pattern patterns method path) [
    | some p ↦ handled p.handler
    | none ↦ if knows_path patterns path then method_not_allowed else no_route
  ]

  unfoldable pub route : Route Handler
  unfolding choose is_clean
  route = if is_moved method path then redirected else choose

  pub route-kept : is_moved method path ≡ false → route ≡ choose
  unfolding route
  route-kept clean = if_of_false _ _ clean

  pub route-moved : is_moved method path ≡ true → route ≡ redirected
  unfolding route
  route-moved unclean = if_of_true _ _ unclean

  pub route-handled : (h : Handler) → route ≡ handled h → choose ≡ handled h
  route-handled h found = elim (Bool-cases (is_moved method path)) [
    | inl unclean ↦ absurd (let no_way = sym (route-moved unclean) ∙ found in cc)
    | inr clean ↦ sym (route-kept clean) ∙ found
  ]
