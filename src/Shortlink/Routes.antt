-- ===== src/Shortlink/Routes.antt =====
-- services/shortlink/handler.go: newHandler, which registers the metrics, creates their series and sets
-- up the routes, and a request through them.
pub mod Laws
pub mod Codes
pub mod Counted
use paved.Base.{
  ℕ, String, Bool, true, false, List, [], ◌∷◌, ◌++◌, map, Option, none, some, Result, ok, err,
  concat, if◌then◌else◌, ◌>>=◌,
}
use paved.Services.Mux.{
  Pattern, literal, wildcard, Route, handled, method_not_allowed, no_route, redirected, route,
}
use paved.Services.Metrics.{Series, Library, register_metrics, create_series}
use paved.Shortlink.{
  Links, Response, created, found, bad_request, not_found, server_error, Url, create_link,
  follow_link,
}

-- The entries of statuses.
abbrev post_statuses : List Series
post_statuses = map (λ code. record { code = code; method = "post" }) ("201" ∷ "400" ∷ "500" ∷ [])

abbrev get_statuses : List Series
get_statuses = map (λ code. record { code = code; method = "get" }) ("302" ∷ "404" ∷ [])

-- The order in which Go's range takes the map's two entries is not fixed.
unfoldable pub statuses : Bool → List Series
statuses post_first =
    if post_first then post_statuses ++ get_statuses else get_statuses ++ post_statuses

pub data Endpoint : Type 0 where
  create_endpoint follow_endpoint probe metrics : Endpoint

abbrev pub patterns : List (Pattern Endpoint)
patterns =
    record { method = "POST"; shape = literal "links"; handler = create_endpoint }
    ∷ record { method = "GET"; shape = wildcard; handler = follow_endpoint }
    ∷ record { method = "GET"; shape = literal "healthz"; handler = probe }
    ∷ record { method = "GET"; shape = literal "readyz"; handler = probe }
    ∷ record { method = "GET"; shape = literal "metrics"; handler = metrics }
    ∷ []

-- newHandler: the routes, with the series that were created on the way.
pub record Handler : Type 0 where
  pub routes : List (Pattern Endpoint)
  pub series : List Series

abbrev series_text : Series → String
series_text s = concat (s.method ∷ " " ∷ s.code ∷ [])

unfoldable pub new_handler : Library → Bool → Result Handler
new_handler library post_first = do
  tt ← register_metrics library
  tt ← create_series library series_text (statuses post_first)
  ok (record { routes = patterns; series = statuses post_first })

-- The status code that a handler writes.
unfoldable pub status_code : Response → String
status_code (created code target) = "201"
status_code (found target) = "302"
status_code (bad_request text) = "400"
status_code not_found = "404"
status_code server_error = "500"

pub data Answer : Type 0 where
  response : Response → Answer
  probe_ok metrics_page wrong_method unknown_path moved : Answer

-- An answer, the links behind it, and the series that counts it.
pub record Served : Type 0 where
  pub answer : Answer
  pub links : Links
  pub counted : Option Series

-- A request: its method, path and decoded body, and the random bytes that the service reads for it.
pub record Request : Type 0 where
  pub method : String
  pub path : List String
  pub body : Result String
  pub random : ℕ → Result (List ℕ)

-- r.PathValue("code").
abbrev path_value : List String → String
path_value (segment ∷ []) = segment
path_value path = ""

module _ (library : Library) (parse : String → Result Url) where
  -- promhttp.InstrumentHandlerCounter and InstrumentHandlerDuration.
  abbrev instrument : Request → Response × Links → Served
  instrument request (r, links) = record {
    answer = response r;
    links = links;
    counted = some (record { code = status_code r; method = library.method_label request.method });
  }

  abbrev plain_answer : Answer → Links → Served
  plain_answer answer links = record { answer = answer; links = links; counted = none }

  unfoldable pub endpoint : Endpoint → Request → Links → Served
  endpoint create_endpoint request links =
      instrument request (create_link parse request.random request.body links)
  endpoint follow_endpoint request links =
      instrument request (follow_link (path_value request.path) links, links)
  endpoint probe request links = plain_answer probe_ok links
  endpoint metrics request links = plain_answer metrics_page links

  abbrev routed : Route Endpoint → Request → Links → Served
  routed (handled e) request links = endpoint e request links
  routed method_not_allowed request links = plain_answer wrong_method links
  routed no_route request links = plain_answer unknown_path links
  routed redirected request links = plain_answer moved links

  unfoldable pub serve : Handler → Request → Links → Served
  unfolding endpoint
  serve handler request links =
      routed (route handler.routes request.method request.path) request links
