-- ===== src/Shortlink/Routes/Counted.antt =====
-- Which requests of shortlink are counted, and in which series.
use paved.Base.{
  String, Bool, true, false, [], ◌∷◌, some, Result, ok, ◌≡◌, refl, ap, ◌⊎◌, inl, inr, contains,
}
use paved.Services.Mux.{route, choose, is_clean, handled, match_pattern, knows_path}
use paved.Services.Metrics.{Library, LibraryLaws, Series, has_series}
use paved.Shortlink.{Links, Response, Url, create_link, follow_link}
use paved.Shortlink.Routes.{
  Handler, new_handler, patterns, Request, response, serve, endpoint, routed, status_code,
  create_endpoint, follow_endpoint, path_value,
}
use paved.Shortlink.Routes.Laws.{new_handler-eq-ok, serve-created}
use paved.Shortlink.Routes.Codes.{reserved, route-code}

-- A GET of a code, or a POST of a link.
abbrev pub IsOfApplication : Request → Type 0
IsOfApplication request =
    ((request.method ≡ "GET")
      × ((code : String) × (request.path ≡ code ∷ [])
          × ¬ (code ≡ "")
          × (contains reserved code ≡ false)))
    ⊎ ((request.method ≡ "POST") × (request.path ≡ "links" ∷ []))

route-post : route patterns "POST" ("links" ∷ []) ≡ handled create_endpoint
unfolding route choose is_clean match_pattern knows_path
route-post = refl

module _ (library : Library) (laws : LibraryLaws library) (parse : String → Result Url)
    (post_first : Bool) (handler : Handler) (made : new_handler library post_first ≡ ok handler)
    (request : Request) (links : Links) where
  -- A request is answered with a response that is counted under its status, and its method's label.
  abbrev IsCounted : Type 0
  IsCounted =
      (r : Response) × ((serve library parse handler request links).answer ≡ response r)
      × ((serve library parse handler request links).counted
          ≡ some (record { code = status_code r; method = library.method_label request.method }))

  routed-IsCounted :
      (route handler.routes request.method request.path ≡ handled create_endpoint)
        ⊎ (route handler.routes request.method request.path ≡ handled follow_endpoint)
      → IsCounted
  unfolding serve endpoint
  routed-IsCounted (inl found) = (
    (create_link parse request.random request.body links).0,
    ap (λ x. (routed library parse x request links).answer) found,
    ap (λ x. (routed library parse x request links).counted) found,
  )
  routed-IsCounted (inr found) = (
    follow_link (path_value request.path) links,
    ap (λ x. (routed library parse x request links).answer) found,
    ap (λ x. (routed library parse x request links).counted) found,
  )

  -- A GET of a code that is no other endpoint's name, and a POST to /links, are counted: under the status of
  -- their answer, in a series that was created before the service serves, whatever the body, the links and
  -- the random bytes are.
  pub serve-counted :
      IsOfApplication request
      → (r : Response) × (s : Series) × ((serve library parse handler request links).answer
          ≡ response r)
        × ((serve library parse handler request links).counted ≡ some s)
        × (s.code ≡ status_code r)
        × (has_series handler.series s ≡ true)
  serve-counted asked =
      let routes = (new_handler-eq-ok library post_first handler made).0 in
      let (r, answered, counted) = routed-IsCounted (elim asked [
        | inl (get, (code, here, named, free)) ↦
            inr (rw (routes, get, here) (route-code code named free))
        | inr (post, here) ↦ inl (rw (routes, post, here) route-post)
      ]) in
      let method : (request.method ≡ "GET") ⊎ (request.method ≡ "POST") = elim asked [
        | inl (get, _) ↦ inl get
        | inr (post, _) ↦ inr post
      ] in
      (
        r,
        record { code = status_code r; method = library.method_label request.method },
        answered,
        counted,
        refl,
        serve-created library laws parse post_first handler request links _ made method counted,
      )
