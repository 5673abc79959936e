-- ===== src/Testsvc.antt =====
-- examples/testsvc/main.go: a service that answers every request of its application with 200, or with
-- 500 where it is asked to, or everywhere in a release that was built broken.
pub mod Laws
use paved.Base.{
  String, Bool, true, false, List, [], ◌∷◌, map, Option, none, some, Result, Error, ok, concat,
  if◌then◌else◌, ◌==◌, ◌>>=◌,
}
use paved.Services.Mux.{
  Pattern, literal, subtree, Route, handled, method_not_allowed, no_route, redirected, route,
}
use paved.Services.Server.{Life}
use paved.Services.Metrics.{Series, Library, register_metrics, create_series}

pub data Endpoint : Type 0 where
  root_ok root_boom boom probe metrics : Endpoint

-- The series that are created at zero.
abbrev pub created_series : List Series
created_series = map (λ code. record { code = code; method = "get" }) ("200" ∷ "500" ∷ [])

-- The routes, given the build's value of broken.
abbrev pub patterns : String → List (Pattern Endpoint)
patterns broken =
    record {
      method = "";
      shape = subtree;
      handler = if broken == "true" then root_boom else root_ok;
    }
    ∷ record { method = ""; shape = literal "boom"; handler = boom }
    ∷ record { method = ""; shape = literal "healthz"; handler = probe }
    ∷ record { method = ""; shape = literal "readyz"; handler = probe }
    ∷ record { method = ""; shape = literal "metrics"; handler = metrics }
    ∷ []

pub record Handler : Type 0 where
  pub routes : List (Pattern Endpoint)
  pub series : List Series

abbrev series_text : Series → String
series_text s = concat ("code=" ∷ s.code ∷ [])

unfoldable pub new_handler : Library → String → Result Handler
new_handler library broken = do
  tt ← register_metrics library
  tt ← create_series library series_text created_series
  ok (record { routes = patterns broken; series = created_series })

-- The status code of an answer, and the series that counts it.
pub record Served : Type 0 where
  pub status : String
  pub counted : Option Series

module _ (library : Library) where
  abbrev instrument : String → String → Served
  instrument method status = record {
    status = status;
    counted = some (record { code = status; method = library.method_label method });
  }

  unfoldable pub endpoint : Endpoint → String → Served
  endpoint root_ok method = instrument method "200"
  endpoint root_boom method = instrument method "500"
  endpoint boom method = instrument method "500"
  endpoint probe method = record { status = "200"; counted = none }
  endpoint metrics method = record { status = library.scrape_status; counted = none }

  -- Every clean path has a route: what is no other pattern's is "/"'s.
  abbrev pub routed : Route Endpoint → String → Served
  routed (handled e) method = endpoint e method
  routed method_not_allowed method = record { status = "405"; counted = none }
  routed no_route method = record { status = "404"; counted = none }
  routed redirected method = record { status = "301"; counted = none }

  -- A request with a method and a path.
  unfoldable pub serve : Handler → String → List String → Served
  unfolding endpoint
  serve handler method path = routed (route handler.routes method path) method

-- run, line for line that of shortlink.
unfoldable pub run : Result Handler → Life → Option Error
run made life = paved.Services.Server.run made life
