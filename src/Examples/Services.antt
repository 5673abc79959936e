-- ===== src/Examples/Services.antt =====
-- Runs of the two services, with a metrics library that registers and creates everything.
use paved.Base.{
  ◌<◌, arith, ℕ, String, true, false, List, [], ◌∷◌, none, some, Result, ok, err, plain, ◌≡◌, refl,
  ap, ◌↔◌, inr, contains, if◌then◌else◌, ◌==◌, insert, lookup,
}
use paved.Services.Mux.{route, match_pattern}
use paved.Services.Metrics.{
  Library, LibraryLaws, Series, has_series, register_metrics, create_series,
}
use paved.Services.Server.{Life, server_closed, run, run-none, EndsWell}
use paved.Shortlink.{
  Url, created, found, create_link, add, add_from, try_add, random_code, code_character,
  code_attempts,
}
use paved.Shortlink.Routes.{
  Handler, Request, new_handler, serve, endpoint, patterns, statuses, status_code, response,
}
use paved.Shortlink.{Response}
use paved.Shortlink.Routes.Counted.{serve-counted}
use paved.Shortlink.Routes.Codes.{serve-code_iff, reserved}
use paved.Shortlink.Concurrent.{
  Service, new_service, begin, advance, attempt, Reach, start, later, requested, scheduled,
}
use paved.Shortlink.Concurrent.Laws.{IsSound, Reach-IsSound, Grows, view, Step-Grows}
use paved.Shortlink.Concurrent.Turns.{
  Action, request, turn, perform_all, turns, HasReturned, begin-returns,
}
use paved.Testsvc.{created_series}

abbrev library : Library
library = record {
  register = λ metric. none;
  create = λ metric series. none;
  scrape_status = "200";
  method_label = λ method.
      if method == "GET"
      then "get"
      else if method == "POST"
      then "post"
      else if method == "HEAD"
      then "head"
      else "unknown";
}

library-LibraryLaws : LibraryLaws library
library-LibraryLaws = record { label_get = refl; label_post = refl }

abbrev parse : String → Result Url
parse s = ok (record { scheme = "https"; host = "example.com"; text = s })

abbrev zeros : ℕ → Result (List ℕ)
zeros attempt = ok (0 ∷ 0 ∷ 0 ∷ 0 ∷ 0 ∷ 0 ∷ 0 ∷ [])

-- The bytes whose code is the name of the metrics' endpoint.
abbrev metrics_bytes : ℕ → Result (List ℕ)
metrics_bytes attempt = ok (11 ∷ 4 ∷ 18 ∷ 16 ∷ 8 ∷ 2 ∷ 17 ∷ [])

metrics_drawn : random_code (metrics_bytes 4) ≡ ok "metrics"
unfolding random_code code_character
metrics_drawn = refl

abbrev handler : Handler
handler = record { routes = patterns; series = statuses true }

handler_made : new_handler library true ≡ ok handler
unfolding new_handler register_metrics create_series statuses
handler_made = refl

abbrev get_request : String → Request
get_request code = record {
  method = "GET";
  path = code ∷ [];
  body = err (plain "EOF");
  random = zeros;
}

abbrev post_request : Request
post_request = record {
  method = "POST";
  path = "links" ∷ [];
  body = ok "https://example.com";
  random = zeros;
}

abbrev post_series : Series
post_series = record { code = "201"; method = "post" }

counted_post : (serve library parse handler post_request []).counted ≡ some post_series
unfolding serve endpoint route match_pattern create_link add add_from random_code code_character
    try_add insert lookup status_code
counted_post = refl

serve-counted_example :
    (r : Response) × (s : Series) × ((serve library parse handler post_request []).answer
      ≡ response r)
    × ((serve library parse handler post_request []).counted ≡ some s)
    × (s.code ≡ status_code r)
    × (has_series handler.series s ≡ true)
serve-counted_example =
    serve-counted library library-LibraryLaws parse true handler handler_made post_request []
      (inr (refl, refl))

-- A HEAD request for a code that is not there is counted in a series that was not created.
head_uncreated :
    has_series handler.series (record { code = "404"; method = library.method_label "HEAD" })
    ≡ false
unfolding statuses
head_uncreated = refl

created_post :
    (serve library parse handler post_request []).answer
    ≡ response (created "aaaaaaa" "https://example.com")
unfolding serve endpoint route match_pattern create_link add add_from random_code code_character
    try_add insert lookup
created_post = refl

abbrev new_code : String
new_code = "aaaaaaa"

named : ¬ (new_code ≡ "")
named e = let differs = ap (λ i. i == "") e in cc

serve-code_iff_example :
    ((serve library parse handler
        (get_request "aaaaaaa")
        (serve library parse handler post_request []).links).answer
      ≡ response (found "https://example.com"))
    ↔ (contains reserved "aaaaaaa" ≡ false)
serve-code_iff_example =
    serve-code_iff library parse true handler [] (ok "https://example.com") (err (plain "EOF"))
      zeros zeros "aaaaaaa" "https://example.com" handler_made created_post named

-- Two requests draw the same code: the second one draws again.
abbrev two_requests : Service
two_requests =
    advance
      (advance (begin (begin new_service 0 "https://a.example") 1 "https://b.example") 0 (zeros 0))
      1 (zeros 0)

two_requests-Reach : Reach two_requests
two_requests-Reach =
    later
      (later
        (later (later start (requested 0 "https://a.example")) (requested 1 "https://b.example"))
        (scheduled 0 (zeros 0)))
      (scheduled 1 (zeros 0))

Reach-IsSound_example : IsSound two_requests
Reach-IsSound_example = Reach-IsSound two_requests two_requests-Reach

Step-Grows_example : Grows (view two_requests.links) (view (advance two_requests 1 (zeros 1)).links)
Step-Grows_example =
    Step-Grows two_requests (advance two_requests 1 (zeros 1)) (scheduled 1 (zeros 1))

abbrev quiet_life : Life
quiet_life = record { ended_first = none; shutdown_error = none; ending = server_closed }

run-none_example :
    (run (ok handler) quiet_life ≡ none)
    ↔ (((h : Handler) × (ok handler ≡ ok h)) × EndsWell quiet_life)
run-none_example = run-none (ok handler) quiet_life

abbrev broken_handler : paved.Testsvc.Handler
broken_handler = record { routes = paved.Testsvc.patterns "true"; series = created_series }

-- Six turns of one thread, with a turn and a request of others between them.
abbrev six_turns : List Action
six_turns =
    turn 2 (zeros 0)
    ∷ turn 2 (zeros 0)
    ∷ request 3 "https://d.example"
    ∷ turn 2 (zeros 0)
    ∷ turn 3 (zeros 0)
    ∷ turn 2 (zeros 0)
    ∷ turn 2 (zeros 0)
    ∷ turn 2 (zeros 0)
    ∷ []

enough_turns : code_attempts < turns 2 six_turns
unfolding turns
enough_turns = omega arith

begin-returns_example :
    HasReturned 2 (perform_all six_turns (begin two_requests 2 "https://c.example"))
begin-returns_example =
    begin-returns 2 "https://c.example" two_requests six_turns
      (tt, (tt, (refl, (tt, (tt, (tt, (tt, (tt, tt)))))))) enough_turns
