-- ===== src/Shortlink/Concurrent.antt =====
-- services/shortlink/store.go under concurrent requests: each request runs the loop of add in a thread
-- of its own, and the threads interleave between the attempts. An attempt draws a code outside the lock
-- and looks it up and stores it in one locked section, so it is one step.
pub mod Laws
pub mod Alone
pub mod Turns
use paved.Base.{
  ℕ, zero, suc, String, Bool, List, [], ◌∷◌, Option, none, some, Result, ok, err, Error, plain,
  if◌then◌else◌, nat_eq, ◌≡◌,
}
use paved.Shortlink.{Links, random_code, try_add, code_attempts}

-- A thread of add: with no request, with the attempts that it has left for a target, or with the result
-- that add returned.
pub data Thread : Type 0 where
  idle : Thread
  adding : String → ℕ → Thread
  returned : Result String → Thread

-- The store, its threads, and the codes that were returned with their targets, newest first.
pub record Service : Type 0 where
  pub links : Links
  pub threads : ℕ → Thread
  pub created : List (String × String)

-- One pass of the loop, or its end: what the thread is then, the links, and what was stored.
unfoldable pub attempt :
    Result (List ℕ) → String → ℕ → Links → Thread × Links × List (String × String)
unfolding try_add
attempt random target zero links = (returned (err (plain "no unused code found")), links, [])
attempt random target (suc left) links = elim (random_code random) [
  | err e ↦ (returned (err e), links, [])
  | ok code ↦ elim (try_add links code target) [
    | none ↦ (adding target left, links, [])
    | some links' ↦ (returned (ok code), links', (code, target) ∷ [])
  ]
]

abbrev pub update : (ℕ → Thread) → ℕ → Thread → ℕ → Thread
update threads i t j = if nat_eq j i then t else threads j

abbrev record_attempt : Service → ℕ → Thread × Links × List (String × String) → Service
record_attempt s i (t, links, []) = record {
  links = links;
  threads = update s.threads i t;
  created = s.created;
}
record_attempt s i (t, links, new ∷ _) = record {
  links = links;
  threads = update s.threads i t;
  created = new ∷ s.created;
}

abbrev advance_thread : Service → ℕ → Result (List ℕ) → Thread → Service
advance_thread s i random idle = s
advance_thread s i random (adding target left) =
    record_attempt s i (attempt random target left s.links)
advance_thread s i random (returned result) = s

-- The scheduler lets a thread go on, with the random bytes that it reads.
unfoldable pub advance : Service → ℕ → Result (List ℕ) → Service
unfolding attempt
advance s i random = advance_thread s i random (s.threads i)

-- A request for a target takes a thread.
unfoldable pub begin : Service → ℕ → String → Service
begin s i target = record s { threads = update s.threads i (adding target code_attempts) }

-- newStore.
abbrev pub new_service : Service
new_service = record { links = []; threads = λ _. idle; created = [] }

pub data Step (s : Service) : Service → Type 0 where
  requested : (i : ℕ) (target : String) → Step s (begin s i target)
  scheduled : (i : ℕ) (random : Result (List ℕ)) → Step s (advance s i random)

-- The states that some interleaving of requests reaches.
pub data Reach : Service → Type 0 where
  start : Reach new_service
  later : {s t : Service} → Reach s → Step s t → Reach t
