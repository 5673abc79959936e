-- ===== src/Shortlink/Concurrent/Turns.antt =====
-- How long a request for a new link takes, in turns of its own thread, whatever the other threads do.
use paved.Base.{
  ℕ, zero, suc, ◌<◌, String, true, false, List, [], ◌∷◌, Result, ok, err, ◌≡◌, refl, sym, ap, ◌∙◌,
  ◌⊎◌, inl, inr, arith, All, Bool-cases, nat_eq, nat_eq_iff, if◌then◌else◌, if_of_false,
  Option-cases, Result-cases,
}
use paved.Shortlink.{Links, random_code, try_add, code_attempts}
use paved.Shortlink.Concurrent.{
  Thread, idle, adding, returned, Service, attempt, advance, begin, update, record_attempt,
  advance_thread,
}

-- What happens in the service: a request takes a thread, or a thread goes on.
pub data Action : Type 0 where
  request : ℕ → String → Action
  turn : ℕ → Result (List ℕ) → Action

unfoldable pub perform : Action → Service → Service
perform (request i target) s = begin s i target
perform (turn i random) s = advance s i random

unfoldable pub perform_all : List Action → Service → Service
unfolding perform
perform_all [] s = s
perform_all (a ∷ actions) s = perform_all actions (perform a s)

-- How many of the actions are turns of the thread.
unfoldable pub turns : ℕ → List Action → ℕ
turns i [] = 0
turns i (request j target ∷ actions) = turns i actions
turns i (turn j random ∷ actions) =
    let rest = turns i actions in if nat_eq i j then suc rest else rest

-- The thread takes no other request.
abbrev pub KeepsRequest : ℕ → List Action → Type 0
KeepsRequest i = All (elim [ request j target ↦ nat_eq i j ≡ false | turn j random ↦ Unit {0} ])

record_attempt-threads :
    (s : Service) (j : ℕ) (x : Thread × Links × List (String × String))
    → (record_attempt s j x).threads ≡ update s.threads j x.0
record_attempt-threads s j (t, links, []) = refl
record_attempt-threads s j (t, links, new ∷ rest) = refl

update-other :
    (threads : ℕ → Thread) (i j : ℕ) (t : Thread)
    → nat_eq i j ≡ false
    → update threads j t i ≡ threads i
update-other threads i j t other = if_of_false t (threads i) other

pub update-same : (threads : ℕ → Thread) (i : ℕ) (t : Thread) → update threads i t i ≡ t
update-same threads i t = ground arith

-- A turn of another thread.
advance-other :
    (s : Service) (i j : ℕ) (random : Result (List ℕ))
    → nat_eq i j ≡ false
    → (advance s j random).threads i ≡ s.threads i
unfolding advance
advance-other s i j random other = on (s.threads j)
  where
    on : (t : Thread) → (advance_thread s j random t).threads i ≡ s.threads i
    on idle = refl
    on (adding target left) =
        let x = attempt random target left s.links in
        ap (λ (f : ℕ → Thread). f i) (record_attempt-threads s j x)
        ∙ update-other s.threads i j x.0 other
    on (returned result) = refl

-- A turn of the thread itself, by what it is.
advance-own :
    (s : Service) (i : ℕ) (random : Result (List ℕ)) (t : Thread)
    → s.threads i ≡ t
    → (advance s i random).threads i ≡ (advance_thread s i random t).threads i
unfolding advance
advance-own s i random t here = ap (λ x. (advance_thread s i random x).threads i) here

-- An attempt ends the request, or uses up one of its attempts.
attempt-cases :
    (random : Result (List ℕ)) (target : String) (left : ℕ) (links : Links)
    → ((r : Result String) × ((attempt random target left links).0 ≡ returned r))
      ⊎ ((n : ℕ) × (left ≡ suc n) × ((attempt random target left links).0 ≡ adding target n))
unfolding attempt
attempt-cases random target zero links = inl (_, refl)
attempt-cases random target (suc n) links = elim (Result-cases (random_code random)) [
  | inr (e, failed) ↦ inl (err e, rw (failed, attempt) refl)
  | inl (code, drawn) ↦ elim (Option-cases (try_add links code target)) [
    | inl taken ↦ inr (n, refl, rw (drawn, taken, attempt) refl)
    | inr (links', free) ↦ inl (ok code, rw (drawn, free, attempt) refl)
  ]
]

module _ (i : ℕ) where
  -- An own turn is one of thread `j` with the same number.
  advance-same :
      (s : Service) (j : ℕ) (random : Result (List ℕ)) (t : Thread)
      → nat_eq i j ≡ true
      → s.threads i ≡ t
      → (advance s j random).threads i ≡ (advance_thread s i random t).threads i
  advance-same s j random t same here =
      ap (λ k. (advance s k random).threads i) (sym ((nat_eq_iff i j).0 same))
      ∙ advance-own s i random t here

  -- The thread has returned.
  abbrev pub HasReturned : Service → Type 0
  HasReturned s = (r : Result String) × (s.threads i ≡ returned r)

  turn-returned :
      (s : Service) (j : ℕ) (random : Result (List ℕ)) (r : Result String)
      → s.threads i ≡ returned r
      → (advance s j random).threads i ≡ returned r
  turn-returned s j random r here = elim (Bool-cases (nat_eq i j)) [
    | inr other ↦ advance-other s i j random other ∙ here
    | inl same ↦ advance-same s j random (returned r) same here ∙ here
  ]

  stays_returned :
      (actions : List Action) (s : Service) (r : Result String)
      → KeepsRequest i actions
      → s.threads i ≡ returned r
      → (perform_all actions s).threads i ≡ returned r
  unfolding perform_all begin
  stays_returned [] s r keeps here = here
  stays_returned (request j target ∷ actions) s r (other, keeps) here =
      stays_returned actions (begin s j target) r keeps
        (update-other s.threads i j (adding target code_attempts) other ∙ here)
  stays_returned (turn j random ∷ actions) s r (_, keeps) here =
      stays_returned actions (advance s j random) r keeps (turn-returned s j random r here)

  -- After an own turn of a thread that is adding.
  after_turn :
      (s : Service) (j : ℕ) (random : Result (List ℕ)) (target : String) (left : ℕ)
      → nat_eq i j ≡ true
      → s.threads i ≡ adding target left
      → (advance s j random).threads i ≡ (attempt random target left s.links).0
  after_turn s j random target left same here =
      let x = attempt random target left s.links in
      advance-same s j random (adding target left) same here
      ∙ ap (λ (f : ℕ → Thread). f i) (record_attempt-threads s i x)
      ∙ update-same s.threads i x.0

  returns_in :
      (actions : List Action) (s : Service) (target : String) (left : ℕ)
      → KeepsRequest i actions
      → s.threads i ≡ adding target left
      → left < turns i actions
      → HasReturned (perform_all actions s)
  unfolding perform_all begin turns
  returns_in [] s target left keeps here more = absurd (omega arith)
  returns_in (request j text ∷ actions) s target left (other, keeps) here more =
      returns_in actions (begin s j text) target left keeps
        (update-other s.threads i j (adding text code_attempts) other ∙ here) more
  returns_in (turn j random ∷ actions) s target left (_, keeps) here more =
      elim (Bool-cases (nat_eq i j)) [
        | inr other ↦
            returns_in actions (advance s j random) target left keeps
              (advance-other s i j random other ∙ here) (rw other at more)
        | inl same ↦
            let after = after_turn s j random target left same here in
            elim (attempt-cases random target left s.links) [
              | inl (r, done) ↦ (r, stays_returned actions _ r keeps (after ∙ done))
              | inr (n, fewer, again) ↦
                  returns_in actions (advance s j random) target n keeps (after ∙ again) (
                    let counted : left < suc (turns i actions) = rw same at more in
                    omega (arith, fewer))
            ]
      ]

-- A request for a new link has returned, with a code or an error, once its thread has had six turns,
-- however the turns and the requests of other threads interleave with them.
pub begin-returns :
    (i : ℕ) (target : String) (s : Service) (actions : List Action)
    → KeepsRequest i actions
    → code_attempts < turns i actions
    → HasReturned i (perform_all actions (begin s i target))
unfolding begin
begin-returns i target s actions keeps more =
    returns_in i actions (begin s i target) target code_attempts keeps
      (update-same s.threads i (adding target code_attempts)) more
