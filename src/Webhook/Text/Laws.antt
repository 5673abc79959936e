-- ===== src/Webhook/Text/Laws.antt =====
-- The limit on an Event's note.
use Prim.Native.Char.{code}
use Prim.Native.String
use text.Mathlib.Text.{is_char_boundary}
use text.Mathlib.TextPositions.{len-append, boundary-zero}
use paved.Base.{
  sym, refl, ◌∙◌, false, ap, ℕ, zero, suc, ◌-◌, ◌+◌, ◌≤◌, String, true, [], ◌∷◌, List, ◌++◌, codes,
  ◌⊎◌, concat, ◌≡◌, arith, leb, leb→le, Bool-cases, inl, inr, ◌<◌, nat_eq, ◌&&◌, if_of_true,
  if_of_false,
}
use paved.Api.{ServiceClaim}
use paved.Webhook.Text.{cut_from, truncate, drop_point_zero}
use paved.Webhook.{event_note}

cut_from-le : (s : String) (cut : ℕ) → cut_from s cut ≤ cut
unfolding cut_from
cut_from-le s zero = omega arith
cut_from-le s (suc cut) = ground (arith, cut_from-le s cut)

cut_from-boundary : (s : String) (cut : ℕ) → is_char_boundary s (cut_from s cut) ≡ true
unfolding cut_from
cut_from-boundary s zero = boundary-zero s
cut_from-boundary s (suc cut) = elim (Bool-cases (is_char_boundary s (suc cut))) [
  | inl here ↦ rw (here, cut_from) here
  | inr inside ↦ rw (inside, cut_from) (cut_from-boundary s cut)
]

len_of_boundary :
    (s : String) (cut : ℕ) → is_char_boundary s cut ≡ true → String.len (String.slice s 0 cut) ≡ cut
len_of_boundary s cut h = ground arith

cut_text-len :
    (s : String) (cut : ℕ)
    → String.len (concat (String.slice s 0 (cut_from s cut) ∷ "…" ∷ [])) ≤ cut + 3
cut_text-len s cut =
    let front = len_of_boundary s (cut_from s cut) (cut_from-boundary s cut) in
    let whole = len-append (String.slice s 0 (cut_from s cut)) "…" in
    omega (arith, front, whole, cut_from-le s cut)

cut_from-largest :
    (s : String) (cut j : ℕ) → cut_from s cut < j → j ≤ cut → is_char_boundary s j ≡ false
unfolding cut_from
cut_from-largest s zero j above below = absurd (omega arith)
cut_from-largest s (suc cut) j above below = elim (Bool-cases (is_char_boundary s (suc cut))) [
  | inl here ↦ let low : suc cut < j = rw (here, cut_from) at above in absurd (omega arith)
  | inr inside ↦
      let low : cut_from s cut < j = rw (inside, cut_from) at above in
      elim (last_or_below j cut below) [
        | inl last ↦ rw last inside
        | inr lower ↦ cut_from-largest s cut j low lower
      ]
]
  where
    last_or_below : (j cut : ℕ) → j ≤ suc cut → (j ≡ suc cut) ⊎ (j ≤ cut)
    last_or_below j cut h = omega arith

-- The text itself, if it is within the limit, or else as many of its whole characters as leave room for an
-- ellipsis of three bytes, and the ellipsis.
abbrev pub IsCutTo : ℕ → String → String → Type 0
IsCutTo limit s shown =
    ((String.len s ≤ limit) × (shown ≡ s))
    ⊎ ((limit < String.len s)
        × ((cut : ℕ) × (cut + 3 ≤ limit)
            × (is_char_boundary s cut ≡ true)
            × ((j : ℕ) → cut < j → j + 3 ≤ limit → is_char_boundary s j ≡ false)
            × (shown ≡ concat (String.slice s 0 cut ∷ "…" ∷ []))))

pub truncate-IsCutTo : (s : String) (limit : ℕ) → 3 ≤ limit → IsCutTo limit s (truncate s limit)
unfolding truncate
truncate-IsCutTo s limit room = elim (Bool-cases (leb (String.len s) limit)) [
  | inl fits ↦ inl (leb→le _ _ fits, rw (fits, truncate) refl)
  | inr long ↦ inr (
    ground arith,
    (
      cut_from s (limit - 3),
      omega (arith, cut_from-le s (limit - 3)),
      cut_from-boundary s (limit - 3),
      λ j above below. cut_from-largest s (limit - 3) j above (omega arith),
      rw (long, truncate) refl,
    ),
  )
]

below_or_above : (m n : ℕ) → (m < n) ⊎ (n < m) ⊎ (m ≡ n)
below_or_above m n = omega arith

-- What a text is cut to is determined.
pub IsCutTo-same :
    (limit : ℕ) (s shown other : String)
    → IsCutTo limit s shown
    → IsCutTo limit s other
    → shown ≡ other
IsCutTo-same limit s shown other (inl (_, a)) (inl (_, b)) = a ∙ sym b
IsCutTo-same limit s shown other (inl (short, _)) (inr (long, _)) = absurd (omega arith)
IsCutTo-same limit s shown other (inr (long, _)) (inl (short, _)) = absurd (omega arith)
IsCutTo-same limit s shown other (inr (_, (cut, room, here, last, a)))
      (inr (_, (cut', room', here', last', b))) =
    elim (below_or_above cut cut') [
      | inl low ↦ absurd (let no_way = sym here' ∙ last cut' low room' in cc)
      | inr (inl high) ↦ absurd (let no_way = sym here ∙ last' cut high room in cc)
      | inr (inr same) ↦ a ∙ ap (λ n. concat (String.slice s 0 n ∷ "…" ∷ [])) same ∙ sym b
    ]

-- A budget as the message shows it: as it is recorded, but with `%` for the first `.0%`, if there is one.
abbrev pub IsShortened : String → String → Type 0
IsShortened recorded shown =
    (shown ≡ recorded)
    ⊎ ((front : List ℕ) × (back : List ℕ) × (codes recorded ≡ front ++ b'.' ∷ b'0' ∷ b'%' ∷ back)
        × (codes shown ≡ front ++ b'%' ∷ back))

pub drop_point_zero-IsShortened : (s : String) → IsShortened s (drop_point_zero s)
unfolding drop_point_zero
drop_point_zero-IsShortened String.[] = inl refl
drop_point_zero-IsShortened (String.◌∷◌ c String.[]) = inl refl
drop_point_zero-IsShortened (String.◌∷◌ c (String.◌∷◌ d String.[])) = inl refl
drop_point_zero-IsShortened (String.◌∷◌ c (String.◌∷◌ d (String.◌∷◌ e s))) =
    elim (Bool-cases (nat_eq (code c) b'.' && nat_eq (code d) b'0' && nat_eq (code e) b'%')) [
      | inl here ↦
          let (point, zeroth, percent) = three (code c) (code d) (code e) here in
          inr (
            [],
            codes s,
            ap (λ n. n ∷ code d ∷ code e ∷ codes s) point
                ∙ ap (λ n. b'.' ∷ n ∷ code e ∷ codes s) zeroth
                ∙ ap (λ n. b'.' ∷ b'0' ∷ n ∷ codes s) percent,
            ap codes (if_of_true _ _ here) ∙ ap (λ n. n ∷ codes s) percent,
          )
      | inr other ↦ elim (drop_point_zero-IsShortened (String.◌∷◌ d (String.◌∷◌ e s))) [
        | inl same ↦ inl (if_of_false _ _ other ∙ ap (λ t. String.◌∷◌ c t) same)
        | inr (front, back, was, now) ↦ inr (
          code c ∷ front,
          back,
          ap (λ l. code c ∷ l) was,
          ap codes (if_of_false _ _ other) ∙ ap (λ l. code c ∷ l) now,
        )
      ]
    ]
  where
    three :
        (k m n : ℕ)
        → (nat_eq k b'.' && nat_eq m b'0' && nat_eq n b'%') ≡ true
        → (k ≡ b'.') × (m ≡ b'0') × (n ≡ b'%')
    three k m n h = ground arith

-- A truncated text has no more bytes than the limit, if the limit leaves room for the ellipsis.
pub truncate-len : (s : String) (limit : ℕ) → 3 ≤ limit → String.len (truncate s limit) ≤ limit
unfolding truncate
truncate-len s limit room = elim (Bool-cases (leb (String.len s) limit)) [
  | inl fits ↦ rw (fits, truncate) (leb→le _ _ fits)
  | inr long ↦ rw (long, truncate) (let h = cut_text-len s (limit - 3) in omega (arith, h))
]

-- The note of a break-glass Event fits into the API's limit, whoever changes the claim and whatever the
-- images and the reason are.
pub event_note-len :
    (old_claim new_claim : ServiceClaim) (actor reason : String)
    → String.len (event_note old_claim new_claim actor reason) ≤ 1024
unfolding event_note
event_note-len old_claim new_claim actor reason = truncate-len _ 1024 (omega arith)
