-- ===== src/Shortlink/Routes/Codes.antt =====
-- Where the routes of shortlink lead a code.
use paved.Base.{
  ℕ, String, Bool, true, false, List, [], ◌∷◌, Result, ok, ◌≡◌, refl, sym, ap, ◌∙◌, ◌⊎◌, inl, inr,
  ◌↔◌, arith, contains, Bool-cases, eq_iff,
}
use paved.Services.Mux.{
  redirected, choose, is_clean, Route, route, handled, match_pattern, knows_path,
}
use paved.Services.Metrics.{Library}
use paved.Shortlink.{Links, Response, created, found, Url, create_link, follow_link}
use paved.Shortlink.Laws.{create_link-follows}
use paved.Shortlink.Routes.{
  Handler, new_handler, patterns, Request, Answer, response, serve, endpoint, follow_endpoint,
  Endpoint, probe, metrics, routed,
}
use paved.Shortlink.Routes.Laws.{new_handler-eq-ok}

-- The names of one segment that other endpoints, and the cleaning of paths, take from the codes.
abbrev pub reserved : List String
reserved = "healthz" ∷ "readyz" ∷ "metrics" ∷ "." ∷ ".." ∷ []

pub route-code :
    (code : String)
    → ¬ (code ≡ "")
    → contains reserved code ≡ false
    → route patterns "GET" (code ∷ []) ≡ handled follow_endpoint
unfolding route choose is_clean match_pattern knows_path
route-code code named free = ground (
  arith,
  eq_iff code "",
  eq_iff code "links",
  eq_iff code "healthz",
  eq_iff code "readyz",
  eq_iff code "metrics",
  eq_iff code ".",
  eq_iff code "..",
)

route-reserved :
    (code : String)
    → ¬ (code ≡ "")
    → contains reserved code ≡ true
    → (route patterns "GET" (code ∷ []) ≡ handled probe)
      ⊎ (route patterns "GET" (code ∷ []) ≡ handled metrics)
      ⊎ (route patterns "GET" (code ∷ []) ≡ redirected)
unfolding route choose is_clean match_pattern knows_path
route-reserved code named taken = ground (
  arith,
  eq_iff code "",
  eq_iff code "links",
  eq_iff code "healthz",
  eq_iff code "readyz",
  eq_iff code "metrics",
  eq_iff code ".",
  eq_iff code "..",
  eq_iff "healthz" code,
  eq_iff "readyz" code,
  eq_iff "metrics" code,
  eq_iff "." code,
  eq_iff ".." code,
)

module _ (library : Library) (parse : String → Result Url) where
  serve-post :
      (handler : Handler) (links : Links) (body : Result String) (random : ℕ → Result (List ℕ))
      → handler.routes ≡ patterns
      → let request : Request = record {
        method = "POST";
        path = "links" ∷ [];
        body = body;
        random = random;
      } in
        let x = create_link parse random body links in
        ((serve library parse handler request links).answer ≡ response x.0)
        × ((serve library parse handler request links).links ≡ x.1)
  unfolding serve endpoint route choose is_clean match_pattern
  serve-post handler links body random routes = rw (routes, serve) (refl, refl)

  module _ (handler : Handler) (routes : handler.routes ≡ patterns) (body : Result String)
      (random : ℕ → Result (List ℕ)) (links : Links) (code : String) (named : ¬ (code ≡ "")) where
    -- A GET of the code.
    abbrev followed : Answer
    followed =
        (serve library parse handler
          (record { method = "GET"; path = code ∷ []; body = body; random = random }) links).answer

    abbrev answer_at : Route Endpoint → Answer
    answer_at x =
        (routed library parse x
          (record { method = "GET"; path = code ∷ []; body = body; random = random }) links).answer

    followed-lem :
        (x : Route Endpoint) → route patterns "GET" (code ∷ []) ≡ x → followed ≡ answer_at x
    unfolding serve
    followed-lem x same =
        ap (λ ps. answer_at (route ps "GET" (code ∷ []))) routes ∙ ap answer_at same

    followed-free : contains reserved code ≡ false → followed ≡ response (follow_link code links)
    unfolding endpoint
    followed-free free = followed-lem (handled follow_endpoint) (route-code code named free)

    followed-reserved : contains reserved code ≡ true → (r : Response) → ¬ (followed ≡ response r)
    unfolding endpoint
    followed-reserved taken r h = elim (route-reserved code named taken) [
      | inl x ↦ let e = sym (followed-lem (handled probe) x) ∙ h in cc
      | inr (inl x) ↦ let e = sym (followed-lem (handled metrics) x) ∙ h in cc
      | inr (inr x) ↦ let e = sym (followed-lem redirected x) ∙ h in cc
    ]

    followed_iff :
        (target : String)
        → follow_link code links ≡ found target
        → (followed ≡ response (found target)) ↔ (contains reserved code ≡ false)
    followed_iff target held = (
      λ h. elim (Bool-cases (contains reserved code)) [
        | inl taken ↦ absurd (followed-reserved taken _ h)
        | inr free ↦ free
      ],
      λ free. followed-free free ∙ ap response held,
    )

  -- Following the code of a link that a POST to /links created answers with its target exactly if the
  -- code is no name of another endpoint, nor a path that is cleaned away.
  pub serve-code_iff :
      (post_first : Bool) (handler : Handler) (links : Links) (body later_body : Result String)
      (random later_random : ℕ → Result (List ℕ)) (code target : String)
      → let create : Request = record {
        method = "POST";
        path = "links" ∷ [];
        body = body;
        random = random;
      } in
        let follow : Request = record {
          method = "GET";
          path = code ∷ [];
          body = later_body;
          random = later_random;
        } in
        let made = serve library parse handler create links in
        new_handler library post_first ≡ ok handler
        → made.answer ≡ response (created code target)
        → ¬ (code ≡ "")
        → ((serve library parse handler follow made.links).answer ≡ response (found target))
          ↔ (contains reserved code ≡ false)
  serve-code_iff post_first handler links body later_body random later_random code target built done
        named =
      let (routes, _) = new_handler-eq-ok library post_first handler built in
      let (answer, stored) = serve-post handler links body random routes in
      let same : response (create_link parse random body links).0 ≡ response (created code target) =
        sym answer ∙ done in
      followed_iff handler routes later_body later_random _ code named target (
        ap (λ ls. follow_link code ls) stored
        ∙ create_link-follows parse random body links code target cc)
