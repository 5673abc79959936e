-- ===== src/Services/Server.antt =====
-- The life of a service's server: the function run of services/shortlink/main.go, which
-- examples/testsvc/main.go has too. What net/http and the signals do is given as the outcome of each.
use paved.Base.{Option, none, some, Result, ok, err, plain, wrap, Error, ◌≡◌, refl, ◌↔◌, arith}

-- How ListenAndServe ended: with http.ErrServerClosed, or another error. It never returns nil.
pub data Ending : Type 0 where
  server_closed : Ending
  broken_by : Error → Ending

-- The outcomes of one run: the ending of a server that ended before a signal came, the error of
-- Shutdown, and how the server ended behind a signal.
pub record Life : Type 0 where
  pub ended_first : Option Ending
  pub shutdown_error : Option Error
  pub ending : Ending

abbrev pub ending_error : Ending → Error
ending_error server_closed = plain "http: Server closed"
ending_error (broken_by e) = e

abbrev after_shutdown : Ending → Option Error
after_shutdown server_closed = none
after_shutdown (broken_by e) = some (wrap "serving: " e)

abbrev after_signal : Life → Option Error → Option Error
after_signal life (some e) = some (wrap "shutting down: " e)
after_signal life none = after_shutdown life.ending

abbrev select_first : Life → Option Ending → Option Error
select_first life (some ending) = some (wrap "serving: " (ending_error ending))
select_first life none = after_signal life life.shutdown_error

-- run, with the result of newHandler.
unfoldable pub run {ℓ} : {Handler : Type ℓ} → Result Handler → Life → Option Error
run (err e) life = some e
run (ok handler) life = select_first life life.ended_first

-- The server served until a signal came, and shut down in order.
abbrev pub EndsWell : Life → Type 0
EndsWell life =
    (life.ended_first ≡ none) × (life.shutdown_error ≡ none) × (life.ending ≡ server_closed)

-- A service ends without an error exactly if its handler could be built and its server served until
-- a signal came and then shut down in time.
pub run-none {ℓ} :
    {Handler : Type ℓ} (made : Result Handler) (life : Life)
    → (run made life ≡ none) ↔ (((handler : Handler) × (made ≡ ok handler)) × EndsWell life)
unfolding run
run-none (err e) life = (λ p. absurd cc, λ ((handler, same), _). absurd cc)
run-none (ok handler) life = (
  λ p. ((handler, refl), ground arith),
  λ (_, (first, quiet, closed)). rw (first, quiet, closed, run) refl,
)
