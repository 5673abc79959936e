-- ===== src/Shortlink/Routes/Laws.antt =====
-- Which series the requests of shortlink are counted in.
use paved.Base.{
  ℕ, String, Bool, true, false, List, [], ◌∷◌, some, Result, ok, ◌≡◌, refl, sym, ap, ◌∙◌, ◌⊎◌, inl,
  inr, arith, if◌then◌else◌, >>=-eq-ok,
}
use paved.Services.Mux.{
  Route, route, choose, route-handled, handled, method_not_allowed, no_route, redirected,
  match_pattern, knows_path,
}
use paved.Services.Metrics.{
  Series, Library, LibraryLaws, has_series, register_metrics, create_series,
}
use paved.Shortlink.{
  Links, Response, created, found, bad_request, not_found, server_error, Url, create_link,
  follow_link,
}
use paved.Shortlink.Routes.{
  statuses, Handler, new_handler, patterns, Request, serve, endpoint, status_code, follow_endpoint,
  create_endpoint, Endpoint, probe, metrics, path_value, routed,
}

-- What a handler that was made is.
pub new_handler-eq-ok :
    (library : Library) (post_first : Bool) (handler : Handler)
    → new_handler library post_first ≡ ok handler
    → (handler.routes ≡ patterns) × (handler.series ≡ statuses post_first)
unfolding new_handler
new_handler-eq-ok library post_first handler made =
    let (done, _, rest) = >>=-eq-ok (register_metrics library) _ made in
    let (all, _, last) = >>=-eq-ok (create_series library _ (statuses post_first)) _ rest in
    (cc, cc)

-- The responses of followLink; all others are those of createLink.
abbrev is_followed : Response → Bool
is_followed (created code target) = false
is_followed (found target) = true
is_followed (bad_request text) = false
is_followed not_found = true
is_followed server_error = false

abbrev series_of : Response → Series
series_of r = record { code = status_code r; method = if is_followed r then "get" else "post" }

series_of-statuses :
    (r : Response) (post_first : Bool) → has_series (statuses post_first) (series_of r) ≡ true
unfolding statuses status_code
series_of-statuses (created code target) true = refl
series_of-statuses (created code target) false = refl
series_of-statuses (found target) true = refl
series_of-statuses (found target) false = refl
series_of-statuses (bad_request text) true = refl
series_of-statuses (bad_request text) false = refl
series_of-statuses not_found true = refl
series_of-statuses not_found false = refl
series_of-statuses server_error true = refl
series_of-statuses server_error false = refl

create_link-is_followed :
    (parse : String → Result Url) (random : ℕ → Result (List ℕ)) (body : Result String)
    (links : Links)
    → is_followed (create_link parse random body links).0 ≡ false
unfolding create_link
create_link-is_followed parse random body links = ground arith

follow_link-is_followed :
    (code : String) (links : Links) → is_followed (follow_link code links) ≡ true
unfolding follow_link
follow_link-is_followed code links = ground arith

-- Which endpoints the two methods lead to.
choose-get : (path : List String) → ¬ (choose patterns "GET" path ≡ handled create_endpoint)
unfolding choose match_pattern knows_path
choose-get [] h = cc
choose-get (s ∷ []) h = ground arith
choose-get (s ∷ t ∷ path) h = cc

choose-post : (path : List String) → ¬ (choose patterns "POST" path ≡ handled follow_endpoint)
unfolding choose match_pattern knows_path
choose-post [] h = cc
choose-post (s ∷ []) h = ground arith
choose-post (s ∷ t ∷ path) h = cc

get-endpoint : (path : List String) → ¬ (route patterns "GET" path ≡ handled create_endpoint)
get-endpoint path h = choose-get path (route-handled patterns "GET" path create_endpoint h)

post-endpoint : (path : List String) → ¬ (route patterns "POST" path ≡ handled follow_endpoint)
post-endpoint path h = choose-post path (route-handled patterns "POST" path follow_endpoint h)

module _ (library : Library) (laws : LibraryLaws library) (parse : String → Result Url) where
  counted_by :
      (r : Response) (b : Bool) (method : String) (s : Series)
      → is_followed r ≡ b
      → library.method_label method ≡ (if b then "get" else "post")
      → some (record { code = status_code r; method = library.method_label method }) ≡ some s
      → series_of r ≡ s
  counted_by r b method s kind label h = rw (kind, sym label) cc

  endpoint-counted :
      (e : Endpoint) (request : Request) (links : Links) (s : Series)
      → ((request.method ≡ "GET") × ¬ (e ≡ create_endpoint))
        ⊎ ((request.method ≡ "POST") × ¬ (e ≡ follow_endpoint))
      → (endpoint library parse e request links).counted ≡ some s
      → (r : Response) × (series_of r ≡ s)
  unfolding endpoint
  endpoint-counted create_endpoint request links s (inl (m, other)) h = absurd (other refl)
  endpoint-counted create_endpoint request links s (inr (m, other)) h =
      let r = (create_link parse request.random request.body links).0 in
      let post = create_link-is_followed parse request.random request.body links in
      (r, counted_by r false request.method s post (ap library.method_label m ∙ laws.label_post) h)
  endpoint-counted follow_endpoint request links s (inr (m, other)) h = absurd (other refl)
  endpoint-counted follow_endpoint request links s (inl (m, other)) h =
      let r = follow_link (path_value request.path) links in
      let got = follow_link-is_followed (path_value request.path) links in
      (r, counted_by r true request.method s got (ap library.method_label m ∙ laws.label_get) h)
  endpoint-counted probe request links s m h = cc
  endpoint-counted metrics request links s m h = cc

  routed-counted :
      (x : Route Endpoint) (request : Request) (links : Links) (s : Series)
      → ((request.method ≡ "GET") × ¬ (x ≡ handled create_endpoint))
        ⊎ ((request.method ≡ "POST") × ¬ (x ≡ handled follow_endpoint))
      → (routed library parse x request links).counted ≡ some s
      → (r : Response) × (series_of r ≡ s)
  routed-counted (handled e) request links s (inl (m, other)) h =
      endpoint-counted e request links s (inl (m, λ same. other (ap handled same))) h
  routed-counted (handled e) request links s (inr (m, other)) h =
      endpoint-counted e request links s (inr (m, λ same. other (ap handled same))) h
  routed-counted method_not_allowed request links s m h = cc
  routed-counted no_route request links s m h = cc
  routed-counted redirected request links s m h = cc

  -- A GET or POST request that is counted at all is counted in a series that was created before the
  -- service serves, whatever its path, its body, the links and the random bytes are.
  pub serve-created :
      (post_first : Bool) (handler : Handler) (request : Request) (links : Links) (s : Series)
      → new_handler library post_first ≡ ok handler
      → (request.method ≡ "GET") ⊎ (request.method ≡ "POST")
      → (serve library parse handler request links).counted ≡ some s
      → has_series handler.series s ≡ true
  unfolding serve
  serve-created post_first handler request links s made method h =
      let (routes, series) = new_handler-eq-ok library post_first handler made in
      let (r, same) =
        routed-counted (route handler.routes request.method request.path) request links s
          (rw routes (elim method [
            | inl get ↦ inl (get, rw get (get-endpoint request.path))
            | inr post ↦ inr (post, rw post (post-endpoint request.path))
          ]))
          h in
      rw series (rw (sym same) (series_of-statuses r post_first))
