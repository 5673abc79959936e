-- ===== src/Examples/Links.antt =====
-- Runs of the shortlink service.
use paved.Base.{ℕ, ◌<◌, String, List, [], ◌∷◌, none, Result, ok, ◌≡◌, refl, lookup, arith}
use paved.Shortlink.{Links, code_character, random_code, add, Url, code_attempts}
use paved.Shortlink.Laws.{Linked, add-succeeds}
use paved.Shortlink.Concurrent.{Service, new_service, begin}
use paved.Shortlink.Concurrent.Alone.{alone}

abbrev drawn_bytes : ℕ → Result (List ℕ)
drawn_bytes attempt = ok (attempt ∷ 1 ∷ 2 ∷ 3 ∷ 4 ∷ 5 ∷ 6 ∷ [])

abbrev links : Links
links = ("ebcdefg", "https://example.com/old") ∷ []

abbrev parse : String → Result Url
parse s = ok (record { scheme = "https"; host = "example.com"; text = s })

drawn : (i : ℕ) → i < code_attempts → (code : String) × (random_code (drawn_bytes i) ≡ ok code)
unfolding random_code
drawn i below = (_, refl)

drawn_3 : random_code (drawn_bytes 3) ≡ ok "dbcdefg"
unfolding random_code code_character
drawn_3 = refl

free_3 : lookup "dbcdefg" links ≡ none
unfolding lookup
free_3 = refl

-- The first attempt draws the code that is taken, and the second one a free code.
add-succeeds_example :
    (code : String) × ((add drawn_bytes "https://example.com/new" links).0 ≡ ok code)
    × Linked drawn_bytes "https://example.com/new" links
        (add drawn_bytes "https://example.com/new" links).1
        code
add-succeeds_example =
    add-succeeds drawn_bytes "https://example.com/new" links drawn
      (3, omega arith, ("dbcdefg", drawn_3, free_3))

abbrev running : Service
running = record new_service { links = links }

abbrev ended : Service
ended = alone code_attempts drawn_bytes (begin running 4 "https://example.com/new") 4
