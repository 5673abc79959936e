-- ===== src/Shortlink/Concurrent/Laws.antt =====
-- What holds of shortlink's store under every interleaving of requests.
use paved.Base.{
  ℕ, zero, suc, String, List, [], ◌∷◌, Option, none, some, Result, ok, ◌≡◌, refl, sym, ap, ◌∙◌, ◌⊎◌,
  inl, inr, arith, All, Any, lookup, insert, lookup-insert, Option-cases, Result-cases, Bool-cases,
  if◌then◌else◌, ◌==◌, eq_iff,
}
use mathlib.Core.Path.{fun_ext}
use paved.Shortlink.{code_attempts, Links, random_code, try_add, get, found, follow_link}
use paved.Shortlink.Laws.{get-follow, follow-get}
use paved.Shortlink.Concurrent.{
  Thread, idle, adding, returned, Service, attempt, advance, begin, new_service, Step, requested,
  scheduled, Reach, start, later, update, record_attempt, advance_thread,
}

-- The abstract store: a partial map from codes to targets.
abbrev pub Store : Type 0
Store = String → Option String

abbrev pub view : Links → Store
view links code = get code links

-- What a step may do to it: nothing, or give a free code a target.
pub data Grows (store : Store) : Store → Type 0 where
  unchanged : Grows store store
  grown :
      (code target : String)
      → store code ≡ none
      → Grows store (λ other. if code == other then some target else store other)

-- What an attempt does: nothing to the links, or a free code is stored with its target and returned.
data Attempted (links : Links) : Thread × Links × List (String × String) → Type 0 where
  nothing_stored :
      (t : Thread) → ((code : String) → ¬ (t ≡ returned (ok code))) → Attempted links (t, links, [])
  stored_new :
      (code target : String)
      → lookup code links ≡ none
      → Attempted links (returned (ok code), insert code target links, (code, target) ∷ [])

attempt-Attempted :
    (random : Result (List ℕ)) (target : String) (left : ℕ) (links : Links)
    → Attempted links (attempt random target left links)
unfolding attempt
attempt-Attempted random target zero links = nothing_stored _ (λ code same. cc)
attempt-Attempted random target (suc left) links = elim (Result-cases (random_code random)) [
  | inr (e, failed) ↦ rw (failed, attempt) (nothing_stored _ (λ code same. cc))
  | inl (code, drawn) ↦ elim (Option-cases (lookup code links)) [
    | inl free ↦ rw (drawn, free, attempt, try_add) (stored_new code target free)
    | inr (other, taken) ↦ rw (drawn, taken, attempt, try_add) (nothing_stored _ (λ code same. cc))
  ]
]

-- A step of the service leaves the abstract store, or gives a free code its target.
abbrev Refined : Service → Service → Type 0
Refined s t = Grows (view s.links) (view t.links)

record_attempt-Grows :
    (s : Service) (i : ℕ) (x : Thread × Links × List (String × String))
    → Attempted s.links x
    → Refined s (record_attempt s i x)
unfolding get
record_attempt-Grows s i _ (nothing_stored t quiet) = unchanged
record_attempt-Grows s i _ (stored_new code target free) =
    let same : view (insert code target s.links)
        ≡ (λ other. if code == other then some target else view s.links other) =
      fun_ext (λ other. lookup-insert s.links code other target) in
    rw same (grown code target free)

-- Every step of the service, whichever thread it schedules and whatever random bytes it reads, leaves
-- the abstract store as it is, or gives a target to a code that had none.
pub Step-Grows : (s t : Service) → Step s t → Grows (view s.links) (view t.links)
unfolding begin advance
Step-Grows s _ (requested i target) = unchanged
Step-Grows s _ (scheduled i random) = advanced (s.threads i)
  where
    advanced : (thread : Thread) → Refined s (advance_thread s i random thread)
    advanced idle = unchanged
    advanced (adding target left) =
        record_attempt-Grows s i _ (attempt-Attempted random target left s.links)
    advanced (returned result) = unchanged

abbrev pub Distinct : List (String × String) → Type 0
Distinct [] = Unit
Distinct ((code, target) ∷ rest) = All (λ other. ¬ (other.0 ≡ code)) rest × Distinct rest

-- Every code that was returned leads to its target, no code was returned twice, no link leads anywhere
-- else, and a thread that returned a code returned one of them.
pub record IsSound (s : Service) : Type 0 where
  pub kept : All (λ x. follow_link x.0 s.links ≡ found x.1) s.created
  pub distinct : Distinct s.created
  pub only :
      (code target : String)
      → follow_link code s.links ≡ found target
      → Any (λ x. x ≡ (code, target)) s.created
  pub answers :
      (i : ℕ) (code : String) → s.threads i ≡ returned (ok code) → Any (λ x. x.0 ≡ code) s.created

new_service-IsSound : IsSound new_service
unfolding follow_link get lookup
new_service-IsSound = record {
  kept = tt;
  distinct = tt;
  only = λ code target h. cc;
  answers = λ i code h. cc;
}

-- What an updated family of threads reads at an index.
update-cases :
    (threads : ℕ → Thread) (i j : ℕ) (t : Thread)
    → (update threads i t j ≡ t) ⊎ (update threads i t j ≡ threads j)
update-cases threads i j t = ground arith

-- A new link does not touch the ones that are there, and its code is none of theirs.
module _ (links : Links) (code target : String) (free : lookup code links ≡ none) where
  differs : (other text : String) → follow_link other links ≡ found text → ¬ (other ≡ code)
  unfolding get
  differs other text held same =
      let no_way = sym (follow-get other links text held) ∙ ap (λ c. lookup c links) same ∙ free in
      cc

  insert-reads :
      (other : String)
      → get other (insert code target links)
        ≡ (if code == other then some target else get other links)
  unfolding get
  insert-reads other = lookup-insert links code other target

  still_follows :
      (other text : String)
      → follow_link other links ≡ found text
      → follow_link other (insert code target links) ≡ found text
  still_follows other text held =
      let apart = differs other text held in
      get-follow other _ text
        (insert-reads other ∙ ground (arith, eq_iff code other, follow-get other links text held))

  All-differs :
      (xs : List (String × String))
      → All (λ x. follow_link x.0 links ≡ found x.1) xs
      → All (λ x. ¬ (x.0 ≡ code)) xs
  All-differs [] h = tt
  All-differs ((other, text) ∷ xs) (held, h) = (differs other text held, All-differs xs h)

  All-still_follows :
      (xs : List (String × String))
      → All (λ x. follow_link x.0 links ≡ found x.1) xs
      → All (λ x. follow_link x.0 (insert code target links) ≡ found x.1) xs
  All-still_follows [] h = tt
  All-still_follows ((other, text) ∷ xs) (held, h) =
      (still_follows other text held, All-still_follows xs h)

  follows_new : follow_link code (insert code target links) ≡ found target
  follows_new =
      get-follow code _ target (insert-reads code ∙ ground (arith, (eq_iff code code).1 refl))

  only_new :
      (other text : String)
      → follow_link other (insert code target links) ≡ found text
      → ((code ≡ other) × (target ≡ text)) ⊎ (follow_link other links ≡ found text)
  only_new other text held =
      let read = sym (insert-reads other) ∙ follow-get other _ text held in
      elim (Bool-cases (code == other)) [
        | inl same ↦
            let code_same : code ≡ other = (eq_iff code other).0 same in
            let text_same : some target ≡ some text = rw same at read in inl (code_same, cc)
        | inr apart ↦
            let kept : get other links ≡ some text = rw apart at read in
            inr (get-follow other links text kept)
      ]

record_attempt-IsSound :
    (s : Service) (i : ℕ) (x : Thread × Links × List (String × String))
    → Attempted s.links x
    → IsSound s
    → IsSound (record_attempt s i x)
record_attempt-IsSound s i _ (nothing_stored t quiet) sound = record {
  kept = sound.kept;
  distinct = sound.distinct;
  only = sound.only;
  answers = λ j code h. elim (update-cases s.threads i j t) [
    | inl new ↦ absurd (quiet code (sym new ∙ h))
    | inr old ↦ sound.answers j code (sym old ∙ h)
  ];
}
record_attempt-IsSound s i _ (stored_new code target free) sound = record {
  kept = (
    follows_new s.links code target free,
    All-still_follows s.links code target free s.created sound.kept,
  );
  distinct = (All-differs s.links code target free s.created sound.kept, sound.distinct);
  only = λ other text h. elim (only_new s.links code target free other text h) [
    | inl (same_code, same_text) ↦ inl (rw (same_code, same_text))
    | inr held ↦ inr (sound.only other text held)
  ];
  answers = λ j other h. elim (update-cases s.threads i j (returned (ok code))) [
    | inl new ↦ inl (let e = sym new ∙ h in cc)
    | inr old ↦ inr (sound.answers j other (sym old ∙ h))
  ];
}

Step-IsSound : (s t : Service) → Step s t → IsSound s → IsSound t
unfolding begin advance
Step-IsSound s _ (requested i target) sound = record {
  kept = sound.kept;
  distinct = sound.distinct;
  only = sound.only;
  answers = λ j code h. elim (update-cases s.threads i j (adding target code_attempts)) [
    | inl new ↦ absurd (let e = sym new ∙ h in cc)
    | inr old ↦ sound.answers j code (sym old ∙ h)
  ];
}
Step-IsSound s _ (scheduled i random) sound = advanced (s.threads i)
  where
    advanced : (thread : Thread) → IsSound (advance_thread s i random thread)
    advanced idle = sound
    advanced (adding target left) =
        record_attempt-IsSound s i _ (attempt-Attempted random target left s.links) sound
    advanced (returned result) = sound

-- Under every interleaving of requests, each code that was returned leads to the target that it was
-- returned for, no code was returned twice, there are no other links, and what a thread returned is
-- one of these codes.
pub Reach-IsSound : (s : Service) → Reach s → IsSound s
Reach-IsSound _ start = new_service-IsSound
Reach-IsSound t (later {s} before step) = Step-IsSound s t step (Reach-IsSound s before)
