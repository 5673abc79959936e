-- ===== src/Shortlink/Laws.antt =====
-- The store of links: a new link gets a code that was free and reads back, and no link is ever replaced.
use paved.Base.{
  ℕ, zero, suc, ◌<◌, String, Bool, true, not, List, none, some, Result, ok, err, Error, ◌≡◌, refl,
  sym, ap, ◌∙◌, ◌⊎◌, inl, inr, arith, lookup, insert, lookup-insert, ◌==◌, eq_iff, Option-cases,
  Result-cases, Bool-cases, if_of_true, if_of_false, if◌then◌else◌, ◌&&◌, ◌||◌,
}
use mathlib.Core.Path.{subst}
use paved.Shortlink.{
  Links, random_code, try_add, add_from, add, code_attempts, get, Url, created, found, create_link,
  follow_link, created_or_failed, not_found, server_error, bad_request,
}

-- What adding a link comes to: a free code that now leads to the target, with all other codes as they
-- were, or an error and the same store.
pub data Added (target : String) (links : Links) : Result String × Links → Type 0 where
  stored :
      (code : String) (links' : Links)
      → get code links ≡ none
      → get code links' ≡ some target
      → ((other : String) → ¬ (other ≡ code) → get other links' ≡ get other links)
      → Added target links (ok code, links')
  refused : (e : Error) → Added target links (err e, links)

below_cases : (i n : ℕ) → i < suc n → (i < n) ⊎ (i ≡ n)
below_cases i n low = omega arith

insert-stored :
    (code target : String) (links : Links)
    → lookup code links ≡ none
    → Added target links (ok code, insert code target links)
unfolding get
insert-stored code target links free =
    stored code _ free
      (lookup-insert links code code target ∙ ground (arith, (eq_iff code code).1 refl))
      (λ other differs. lookup-insert links code other target ∙ ground (arith, eq_iff code other))

module _ (random : ℕ → Result (List ℕ)) (target : String) (links : Links) where
  add_from-Added : (n : ℕ) → Added target links (add_from n random target links)
  unfolding add_from
  add_from-Added zero = refused _
  add_from-Added (suc n) = elim (Result-cases (random_code (random n))) [
    | inr (e, failed) ↦ rw (failed, add_from) (refused e)
    | inl (code, drawn) ↦ elim (Option-cases (lookup code links)) [
      | inl free ↦ rw (drawn, free, add_from, try_add) (insert-stored code target links free)
      | inr (other, taken) ↦ rw (drawn, taken, add_from, try_add) (add_from-Added n)
    ]
  ]

  -- Adding a link, whatever the random bytes: see Added.
  pub add-Added : Added target links (add random target links)
  unfolding add
  add-Added = add_from-Added code_attempts

  -- The codes of the first attempts were all drawn.
  abbrev pub Drawn : ℕ → Type 0
  Drawn n = (i : ℕ) → i < n → (code : String) × (random_code (random i) ≡ ok code)

  -- One of the attempts draws a code that is free.
  abbrev pub SomeFree : ℕ → Type 0
  SomeFree n =
      (i : ℕ) × (i < n)
      × ((code : String) × (random_code (random i) ≡ ok code) × (lookup code links ≡ none))

  add_from-succeeds :
      (n : ℕ)
      → Drawn n
      → SomeFree n
      → (code : String) × ((add_from n random target links).0 ≡ ok code)
  unfolding add_from try_add
  add_from-succeeds zero drawn (i, below, _) = absurd (omega arith)
  add_from-succeeds (suc n) drawn (i, below, (code, drew, free)) =
      let (next, read) = drawn n (omega arith) in
      elim (Option-cases (lookup next links)) [
        | inl unused ↦ (next, rw (read, unused, add_from, try_add) refl)
        | inr (other, taken) ↦
            rw (read, taken, add_from, try_add)
              (add_from-succeeds n (λ j low. drawn j (omega arith))
                (i, earlier below next read other taken, (code, drew, free)))
      ]
    where
      clash :
          (next : String)
          → random_code (random n) ≡ ok next
          → (other : String) → lookup next links ≡ some other
          → random_code (random n) ≡ ok code
          → ⊥
      clash next read other taken also =
          let same : next ≡ code = let e = sym read ∙ also in cc in
          let no_way = sym taken ∙ ap (λ c. lookup c links) same ∙ free in cc

      earlier :
          i < suc n
          → (next : String) → random_code (random n) ≡ ok next
          → (other : String) → lookup next links ≡ some other
          → i < n
      earlier low next read other taken = elim (below_cases i n low) [
        | inl lower ↦ lower
        | inr same ↦
            absurd (
              clash next read other taken (subst (λ k. random_code (random k) ≡ ok code) same drew))
      ]

  -- A code that was free leads to the target in the later links, and every other where it did.
  abbrev pub Linked : Links → String → Type 0
  Linked links' code =
      (get code links ≡ none)
      × ((any_code : String)
          → get any_code links' ≡ (if code == any_code then some target else get any_code links))

  Added-ok :
      (x : Result String × Links)
      → Added target links x
      → (code : String) → x.0 ≡ ok code
      → Linked x.1 code
  Added-ok _ (refused e) code h = cc
  Added-ok _ (stored new links' free reads keeps) code h =
      subst (Linked links') (let same : new ≡ code = cc in same)
        (free, λ any_code. read_back new links' any_code reads (keeps any_code))
    where
      read_back :
          (new : String) (links' : Links) (any_code : String)
          → get new links' ≡ some target
          → (¬ (any_code ≡ new) → get any_code links' ≡ get any_code links)
          → get any_code links' ≡ (if new == any_code then some target else get any_code links)
      read_back new links' any_code reads keeps = elim (Bool-cases (new == any_code)) [
        | inl same ↦
            ap (λ c. get c links') (sym ((eq_iff new any_code).0 same))
            ∙ reads
            ∙ sym (if_of_true _ _ same)
        | inr other ↦
            keeps (λ e. let no_way = sym ((eq_iff new any_code).1 (sym e)) ∙ other in cc)
            ∙ sym (if_of_false _ _ other)
      ]

  -- A link is added if the random bytes of all five attempts could be read, and one of the codes that
  -- they draw is free: the code that is returned was free and now leads to the target, and every other code
  -- leads where it did.
  pub add-succeeds :
      Drawn code_attempts
      → SomeFree code_attempts
      → (code : String) × ((add random target links).0 ≡ ok code)
        × Linked (add random target links).1 code
  unfolding add
  add-succeeds drawn unused =
      let (code, returned) = add_from-succeeds code_attempts drawn unused in
      (code, returned, Added-ok (add random target links) add-Added code returned)

module _ (code : String) (links : Links) (target : String) where
  pub get-follow : get code links ≡ some target → follow_link code links ≡ found target
  unfolding follow_link
  get-follow e = rw (e, follow_link) refl

  pub follow-get : follow_link code links ≡ found target → get code links ≡ some target
  unfolding follow_link
  follow-get e = elim (Option-cases (get code links)) [
    | inl nothing ↦
        absurd (let no_way : not_found ≡ found target = rw (nothing, follow_link) at e in cc)
    | inr (t, held) ↦ let same : found t ≡ found target = rw (held, follow_link) at e in held ∙ cc
  ]

module _ (links : Links) where
  added-keeps :
      (u : Url) (x : Result String × Links)
      → Added u.text links x
      → (code target : String) → follow_link code links ≡ found target
      → follow_link code (created_or_failed u x).1 ≡ found target
  added-keeps u _ (refused e) code target there = there
  added-keeps u _ (stored new links' free reads keeps) code target there =
      let held = follow-get code links target there in
      get-follow code links' target (
        keeps code (λ same. let no_way = sym held ∙ ap (λ c. get c links) same ∙ free in cc) ∙ held)

  added-follows :
      (u : Url) (x : Result String × Links)
      → Added u.text links x
      → (code target : String) → (created_or_failed u x).0 ≡ created code target
      → follow_link code (created_or_failed u x).1 ≡ found target
  added-follows u _ (refused e) code target made =
      absurd (let no_way : server_error ≡ created code target = made in cc)
  added-follows u _ (stored new links' free reads keeps) code target made =
      let same_code : code ≡ new = cc in
      let same_text : u.text ≡ target = cc in
      get-follow code links' target (ap (λ c. get c links') same_code ∙ reads ∙ ap some same_text)

module _ (parse : String → Result Url) (random : ℕ → Result (List ℕ)) (body : Result String)
    (links : Links) where
  abbrev is_web : Url → Bool
  is_web u = not (not (u.scheme == "http") && not (u.scheme == "https") || u.host == "")

  -- A request adds the link of a web URL, or changes nothing and answers 400.
  creates :
      ((u : Url) × (is_web u ≡ true)
        × (create_link parse random body links ≡ created_or_failed u (add random u.text links)))
      ⊎ ((text : String) × (create_link parse random body links ≡ (bad_request text, links)))
  unfolding create_link
  creates = elim (Result-cases body) [
    | inr (e, bad) ↦ inr (
      "the body must be JSON like {\"url\": \"https://example.com\"}",
      rw (bad, create_link) refl,
    )
    | inl (b, read) ↦ elim (Result-cases (parse b)) [
      | inr (e, bad) ↦ inr (no_url, rw (read, bad, create_link) refl)
      | inl (u, parsed) ↦ elim (Bool-cases (is_web u)) [
        | inl web ↦ inl (u, web, rw (read, parsed, create_link) (ground arith))
        | inr other ↦ inr (no_url, rw (read, parsed, create_link) (ground arith))
      ]
    ]
  ]
    where
      no_url : String
      no_url = "url must be an absolute http or https URL"

  -- A link that follow_link found before a request to create one leads to the same target after it,
  -- whatever the request and the random bytes are.
  pub create_link-keeps :
      (code target : String)
      → follow_link code links ≡ found target
      → follow_link code (create_link parse random body links).1 ≡ found target
  create_link-keeps code target there = elim creates [
    | inl (u, _, same) ↦
        ap (λ x. follow_link code x.1) same
        ∙ added-keeps links u _ (add-Added random u.text links) code target there
    | inr (text, same) ↦ ap (λ x. follow_link code x.1) same ∙ there
  ]

  -- Following the code of a created link leads to its target.
  pub create_link-follows :
      (code target : String)
      → (create_link parse random body links).0 ≡ created code target
      → follow_link code (create_link parse random body links).1 ≡ found target
  create_link-follows code target made = elim creates [
    | inl (u, _, same) ↦
        ap (λ x. follow_link code x.1) same
        ∙ added-follows links u _ (add-Added random u.text links) code target
            (sym (ap (λ x. x.0) same) ∙ made)
    | inr (text, same) ↦ absurd (let no_way = sym (ap (λ x. x.0) same) ∙ made in cc)
  ]
