-- ===== src/Slo/Alerts/Window.antt =====
-- internal/slo/alerts.go: the duration of an SLO's window. A time.Duration is an integer of nanoseconds, with
-- the wrap-around of an int64.
pub mod Laws
use paved.Base.{
  ℕ, zero, suc, ◌+◌, ◌-◌, ◌*◌, ◌^◌, String, Bool, true, false, ◌&&◌, List, [], ◌∷◌, Option, none,
  some, ℤ, pos, negsuc, abs, int64, is_positive, Result, ok, err, plain, concat, codes, ltb, nat_eq,
  if◌then◌else◌,
}
use paved.Runtime.{Runtime}
use paved.Slo.Budget.{is_digit}

-- strings.HasSuffix(s, "d") and strings.TrimSuffix(s, "d"), over code points.
unfoldable pub has_suffix_d : List ℕ → Bool
has_suffix_d [] = false
has_suffix_d (c ∷ []) = nat_eq c b'd'
has_suffix_d (c ∷ d ∷ cs) = has_suffix_d (d ∷ cs)

unfoldable pub trim_suffix_d : List ℕ → List ℕ
trim_suffix_d [] = []
trim_suffix_d (c ∷ []) = if nat_eq c b'd' then [] else c ∷ []
trim_suffix_d (c ∷ d ∷ cs) = c ∷ trim_suffix_d (d ∷ cs)

-- The number of a non-empty list of digits, read on from `acc`.
unfoldable pub digits_value : ℕ → List ℕ → Option ℕ
digits_value acc [] = some acc
digits_value acc (c ∷ cs) =
    let rest = digits_value (acc * 10 + (c - b'0')) cs in if is_digit c then rest else none

abbrev pub non_empty : List ℕ → Option ℕ
non_empty [] = none
non_empty (c ∷ cs) = digits_value 0 (c ∷ cs)

-- The integer of a sign and a magnitude, in the range of an int64: strconv.Atoi refuses others.
abbrev pub signed : Bool → Option ℕ → Option ℤ
signed minus none = none
signed false (some n) = if ltb n (2 ^ 63) then some (pos n) else none
signed true (some zero) = some (pos 0)
signed true (some (suc n)) = if ltb n (2 ^ 63) then some (negsuc n) else none

-- strconv.Atoi.
unfoldable pub atoi : List ℕ → Option ℤ
unfolding digits_value
atoi [] = none
atoi (c ∷ cs) =
    if nat_eq c b'-'
    then signed true (non_empty cs)
    else if nat_eq c b'+'
    then signed false (non_empty cs)
    else signed false (non_empty (c ∷ cs))

-- 24 * time.Hour.
abbrev pub day_nanoseconds : ℕ
day_nanoseconds = 86400000000000

abbrev positive_days : Option ℤ → Bool
positive_days none = false
positive_days (some d) = is_positive d

abbrev days_of : Option ℤ → ℕ
days_of none = 0
days_of (some d) = abs d

module _ (go : Runtime) where
  open go use {quote}

  unfoldable pub slo_window : String → Result ℤ
  unfolding has_suffix_d trim_suffix_d atoi
  slo_window window =
      let days = atoi (trim_suffix_d (codes window)) in
      if positive_days days && has_suffix_d (codes window)
      then ok (int64 (days_of days * day_nanoseconds))
      else err (
          plain (
            concat
              ("SLO window " ∷ quote window ∷ " is not a whole number of days such as 28d" ∷ [])))
