-- ===== src/Shortlink/Concurrent/Alone.antt =====
-- A thread of add that no other request comes between: it does what add does as one function.
use paved.Base.{ℕ, zero, suc, String, List, Result, ◌≡◌}
use paved.Shortlink.{Links, add_from}
use paved.Shortlink.Concurrent.{Thread, returned, Service, advance, record_attempt}

-- The scheduler lets only one thread go on, as often as its attempts need.
unfoldable pub alone : ℕ → (ℕ → Result (List ℕ)) → Service → ℕ → Service
alone zero random s i = advance s i (random 0)
alone (suc n) random s i = alone n random (advance s i (random n)) i

-- The thread has returned, and left these links.
abbrev pub Returned : Service → ℕ → Result String × Links → Type 0
Returned s i x = (s.threads i ≡ returned x.0) × (s.links ≡ x.1)

module _ (random : ℕ → Result (List ℕ)) (i : ℕ) where
  -- What the rest of the loop owes behind an attempt.
  abbrev IsAfter : ℕ → String → Service → Thread × Links × List (String × String) → Type 0
  IsAfter n target s x =
      Returned (alone n random (record_attempt s i x) i) i (add_from (suc n) random target s.links)
