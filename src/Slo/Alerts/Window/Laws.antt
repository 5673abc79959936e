-- ===== src/Slo/Alerts/Window/Laws.antt =====
-- What the windows of the API are read as: `7d`, `28d`, `30d`.
use paved.Base.{
  ℕ, ◌+◌, ◌-◌, ◌*◌, ◌^◌, ◌<◌, ◌≡◌, refl, ap, String, true, List, [], ◌∷◌, ◌++◌, some, ok, pos,
  codes, arith, length, lt→ltb,
}
use paved.Runtime.{Runtime}
use paved.Slo.Budget.Numeral.{IsDigits, value}
use paved.Slo.Alerts.Window.{
  has_suffix_d, trim_suffix_d, digits_value, atoi, slo_window, day_nanoseconds,
}

trim_suffix_d-append : (ds : List ℕ) → trim_suffix_d (ds ++ b'd' ∷ []) ≡ ds
unfolding trim_suffix_d
trim_suffix_d-append [] = refl
trim_suffix_d-append (c ∷ []) = refl
trim_suffix_d-append (c ∷ d ∷ cs) = ap (λ ds. c ∷ ds) (trim_suffix_d-append (d ∷ cs))

has_suffix_d-append : (ds : List ℕ) → has_suffix_d (ds ++ b'd' ∷ []) ≡ true
unfolding has_suffix_d
has_suffix_d-append [] = refl
has_suffix_d-append (c ∷ []) = refl
has_suffix_d-append (c ∷ d ∷ cs) = has_suffix_d-append (d ∷ cs)

digits_value_lem : (acc : ℕ) (ds : List ℕ) → IsDigits ds → digits_value acc ds ≡ some (value acc ds)
unfolding digits_value
digits_value_lem acc [] h = refl
digits_value_lem acc (c ∷ cs) (digit, rest) =
    rw (digit) (digits_value_lem (acc * 10 + (c - b'0')) cs rest)

atoi-digits :
    (ds : List ℕ)
    → IsDigits ds
    → 0 < length ds
    → value 0 ds < 2 ^ 63
    → atoi ds ≡ some (pos (value 0 ds))
unfolding atoi digits_value
atoi-digits [] h k low = absurd (omega arith)
atoi-digits (c ∷ cs) h k low =
    let read = digits_value_lem 0 (c ∷ cs) h in
    let small = lt→ltb (value 0 (c ∷ cs)) (2 ^ 63) low in ground (arith, read, small)

some_length : (ds : List ℕ) → 0 < value 0 ds → 0 < length ds
some_length [] h = h
some_length (c ∷ cs) h = omega arith

module _ (go : Runtime) (window : String) (ds : List ℕ) where
  -- A window of digits and a `d` is read as that many days, if it is at least one and the nanoseconds do not
  -- overflow an int64.
  pub slo_window-days :
      codes window ≡ ds ++ b'd' ∷ []
      → IsDigits ds
      → 0 < value 0 ds
      → value 0 ds * day_nanoseconds < 2 ^ 63
      → slo_window go window ≡ ok (pos (value 0 ds * day_nanoseconds))
  unfolding slo_window
  slo_window-days shape digits some_day low =
      let read : atoi (trim_suffix_d (codes window)) ≡ some (pos (value 0 ds)) =
        rw (shape, trim_suffix_d-append ds)
          (atoi-digits ds digits (some_length ds some_day) (omega arith)) in
      let ends : has_suffix_d (codes window) ≡ true = rw shape (has_suffix_d-append ds) in
      ground (arith, read, ends)
