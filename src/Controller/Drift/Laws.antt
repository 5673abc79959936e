-- ===== src/Controller/Drift/Laws.antt =====
-- Which objects the loop of applyObjects sends, in what order, and what it reports.
use paved.Base.{
  ℕ, suc, ◌≤◌, ◌<◌, List, [], ◌∷◌, ◌++◌, none, some, Result, ok, err, Error, ◌≡◌, refl, ap, ◌∙◌,
  sym, ◌⊎◌, inl, inr, arith, length, take, Option-cases, Result-cases,
}
use mathlib.Core.List.{append-nil, append_assoc}
use paved.Runtime.{Runtime}
use paved.Builders.Objects.{Object}
use paved.Controller.Env.{Env, Reconciler, Request, apply_object, ManagedFieldsEntry}
use paved.Controller.Drift.{
  Applied, Ownership, Correction, stopped, after_one, live_ownership, apply_one, apply_objects,
}

-- The objects that were sent to be applied, oldest first.
abbrev pub sent : List Request → List Object
sent [] = []
sent (apply_object o ∷ h) = sent h ++ o ∷ []
sent (_ ∷ h) = sent h

-- The objects whose apply the API server answered without an error, oldest first.
abbrev of_answer : Result (List ManagedFieldsEntry) → Object → List Object
of_answer (ok fields) o = o ∷ []
of_answer (err e) o = []

abbrev pub accepted :
    (List Request → Object → Result (List ManagedFieldsEntry)) → List Request → List Object
accepted answer [] = []
accepted answer (apply_object o ∷ h) = accepted answer h ++ of_answer (answer h o) o
accepted answer (_ ∷ h) = accepted answer h

module _ (go : Runtime) (env : Env go) (r : Reconciler) where
  abbrev taken : List Request → List Object
  taken h = accepted env.apply_answer h

  -- What the loop owes for the objects `os`, between the histories `h` and `h'`: it sent them in order up
  -- to some place, those that it counts are those that the API server accepted, and either these are all of
  -- them, or it stopped with an error.
  pub record Sends (os : List Object) (a : Applied) (h h' : List Request) : Type 0 where
    pub count_sent : ℕ
    pub in_order : sent h' ≡ sent h ++ take count_sent os
    pub all_accepted : accepted env.apply_answer h' ≡ accepted env.apply_answer h ++ take a.count os
    pub applied_sent : a.count ≤ count_sent
    pub one_more : count_sent ≤ suc a.count
    pub outcome :
        ((a.error ≡ none) × (a.count ≡ length os) × (count_sent ≡ length os))
        ⊎ ((e : Error) × (a.error ≡ some e) × (a.count < length os))

  live_ownership-sent :
      (o : Object) (h : List Request) → sent (live_ownership go env r o h).1 ≡ sent h
  unfolding live_ownership
  live_ownership-sent o h = ground arith

  live_ownership-accepted :
      (o : Object) (h : List Request) → taken (live_ownership go env r o h).1 ≡ taken h
  unfolding live_ownership
  live_ownership-accepted o h = ground arith

  -- The loop stopped before it sent the next object, or when its apply failed.
  stopped_before :
      (o : Object) (os : List Object) (e : Error) (h h' : List Request)
      → sent h' ≡ sent h
      → taken h' ≡ taken h
      → Sends (o ∷ os) (stopped e) h h'
  stopped_before o os e h h' same kept = record {
    count_sent = 0;
    in_order = same ∙ sym (append-nil _);
    all_accepted = kept ∙ sym (append-nil _);
    applied_sent = omega arith;
    one_more = omega arith;
    outcome = inr (e, refl, omega arith);
  }

  stopped_after :
      (o : Object) (os : List Object) (e : Error) (h h' : List Request)
      → (f : Error) → env.apply_answer h' o ≡ err f
      → sent h' ≡ sent h
      → taken h' ≡ taken h
      → Sends (o ∷ os) (stopped e) h (apply_object o ∷ h')
  stopped_after o os e h h' f refused same kept = record {
    count_sent = 1;
    in_order = ap (λ s. s ++ o ∷ []) same;
    all_accepted =
        ap (λ x. taken h' ++ of_answer x o) refused ∙ append-nil _ ∙ kept ∙ sym (append-nil _);
    applied_sent = omega arith;
    one_more = omega arith;
    outcome = inr (e, refl, omega arith);
  }

  -- One object was applied, and the rest of the loop ran.
  applied_one :
      (o : Object) (os : List Object) (cs : List Correction) (a : Applied) (h h' h'' : List Request)
      → (fields : List ManagedFieldsEntry) → env.apply_answer h' o ≡ ok fields
      → sent h' ≡ sent h
      → taken h' ≡ taken h
      → Sends os a (apply_object o ∷ h') h''
      → Sends (o ∷ os) (after_one cs a) h h''
  applied_one o os cs a h h' h'' fields done same kept s = record {
    count_sent = suc s.count_sent;
    in_order =
        s.in_order
        ∙ append_assoc (sent h') (o ∷ []) (take s.count_sent os)
        ∙ ap (λ l. l ++ o ∷ take s.count_sent os) same;
    all_accepted =
        s.all_accepted
        ∙ ap (λ x. (taken h' ++ of_answer x o) ++ take a.count os) done
        ∙ append_assoc (taken h') (o ∷ []) (take a.count os)
        ∙ ap (λ l. l ++ o ∷ take a.count os) kept;
    applied_sent = omega (arith, s.applied_sent);
    one_more = omega (arith, s.one_more);
    outcome = elim s.outcome [
      | inl (fine, all, every) ↦ inl (fine, omega arith, omega arith)
      | inr (e, failed, fewer) ↦ inr (e, failed, omega arith)
    ];
  }

  -- From the place where the object's ownership has been read.
  apply_one-Sends :
      (o : Object) (os : List Object) (h h' : List Request) (before : Result Ownership)
      → sent h' ≡ sent h
      → taken h' ≡ taken h
      → ((k : List Request)
          → Sends os (apply_objects go env r os k).0 k (apply_objects go env r os k).1)
      → Sends
          (o ∷ os)
          (apply_one go env r o (apply_objects go env r os) before h').0
          h
          (apply_one go env r o (apply_objects go env r os) before h').1
  unfolding apply_one
  apply_one-Sends o os h h' (err e) same kept rest = stopped_before o os e h h' same kept
  apply_one-Sends o os h h' (ok before) same kept rest =
      elim (Result-cases (env.apply_answer h' o)) [
        | inr (e, failed) ↦ rw failed (stopped_after o os _ h h' e failed same kept)
        | inl (after, done) ↦
            rw done (applied_one o os _ _ h h' _ after done same kept (rest (apply_object o ∷ h')))
      ]

  -- The objects are sent in order, from the first one on, and those that are counted are exactly the ones
  -- that the API server accepted, a prefix of the objects; at most one more was sent. So no object behind one
  -- that was refused is sent. Without an error all of them were sent, accepted and counted, and with one
  -- fewer were counted.
  pub apply_objects-Sends :
      (os : List Object) (h : List Request)
      → Sends os (apply_objects go env r os h).0 h (apply_objects go env r os h).1
  unfolding apply_objects
  apply_objects-Sends [] h = record {
    count_sent = 0;
    in_order = sym (append-nil _);
    all_accepted = sym (append-nil _);
    applied_sent = omega arith;
    one_more = omega arith;
    outcome = inl (refl, refl, refl);
  }
  apply_objects-Sends (o ∷ os) h = elim (Option-cases (env.object_error o)) [
    | inr (e, failed) ↦ rw (failed, apply_objects) (stopped_before o os _ h h refl refl)
    | inl fine ↦
        rw (fine, apply_objects)
          (apply_one-Sends o os h (live_ownership go env r o h).1 (live_ownership go env r o h).0
            (live_ownership-sent o h) (live_ownership-accepted o h) (apply_objects-Sends os))
  ]
