-- ===== src/Testsvc/Laws.antt =====
-- What the test service answers.
use paved.Base.{String, Bool, false, List, [], ◌∷◌, if◌then◌else◌, ◌==◌, ◌||◌}
use paved.Services.Mux.{is_moved}
use paved.Services.Metrics.{Library}
use paved.Testsvc.{Endpoint, root_ok, root_boom, boom, probe, metrics}

abbrev pub is_probe : List String → Bool
is_probe [] = false
is_probe (name ∷ []) = name == "healthz" || name == "readyz"
is_probe (name ∷ other ∷ rest) = false

abbrev pub is_boom : List String → Bool
is_boom [] = false
is_boom (name ∷ []) = name == "boom"
is_boom (name ∷ other ∷ rest) = false

abbrev pub is_scrape : List String → Bool
is_scrape [] = false
is_scrape (name ∷ []) = name == "metrics"
is_scrape (name ∷ other ∷ rest) = false

-- The answer that the routes of a clean path come to.
abbrev pub clean_status : Library → String → List String → String
clean_status library broken path =
    if is_probe path
    then "200"
    else if is_scrape path
    then library.scrape_status
    else if is_boom path || broken == "true"
    then "500"
    else "200"

-- The answer to any request.
abbrev pub expected_status : Library → String → String → List String → String
expected_status library broken method path =
    if is_moved method path then "301" else clean_status library broken path

abbrev expected : String → List String → Endpoint
expected broken (name ∷ []) =
    if name == "healthz" || name == "readyz"
    then probe
    else if name == "metrics"
    then metrics
    else if name == "boom"
    then boom
    else if broken == "true"
    then root_boom
    else root_ok
expected broken path = if broken == "true" then root_boom else root_ok
