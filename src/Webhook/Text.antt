-- ===== src/Webhook/Text.antt =====
-- The texts of the webhook's messages, and the limit on an Event's note.
pub mod Laws
use Prim.Native.Char.{code}
use Prim.Native.String
use paved.Base.{
  ℕ, zero, suc, ◌-◌, String, ◌&&◌, [], ◌∷◌, none, some, concat, if◌then◌else◌, ◌==◌, leb, nat_eq,
}
use text.Mathlib.Text.{is_char_boundary}
use paved.Runtime.{Runtime}

-- strings.Replace(s, ".0%", "%", 1).
unfoldable pub drop_point_zero : String → String
drop_point_zero String.[] = ""
drop_point_zero (String.◌∷◌ c String.[]) = String.◌∷◌ c ""
drop_point_zero (String.◌∷◌ c (String.◌∷◌ d String.[])) = String.◌∷◌ c (String.◌∷◌ d "")
drop_point_zero (String.◌∷◌ c (String.◌∷◌ d (String.◌∷◌ e s))) =
    let later = String.◌∷◌ c (drop_point_zero (String.◌∷◌ d (String.◌∷◌ e s))) in
    if nat_eq (code c) b'.' && nat_eq (code d) b'0' && nat_eq (code e) b'%'
    then String.◌∷◌ e s
    else later

unfoldable pub budget_for_message : String → String
unfolding drop_point_zero
budget_for_message recorded = if recorded == "" then "unknown" else drop_point_zero recorded

unfoldable pub burn_rate_for_message : Runtime → String → String
burn_rate_for_message go recorded = elim (go.parse_float recorded) [
  | none ↦ "unknown"
  | some rate ↦ concat (go.format_float rate 1 ∷ "x" ∷ [])
]

-- The loop that moves the cut back to the start of a character.
unfoldable pub cut_from : String → ℕ → ℕ
cut_from s zero = zero
cut_from s (suc cut) =
    let back = cut_from s cut in if is_char_boundary s (suc cut) then suc cut else back

unfoldable pub truncate : String → ℕ → String
unfolding cut_from
truncate s limit =
    if leb (String.len s) limit
    then s
    else concat (String.slice s 0 (cut_from s (limit - String.len "…")) ∷ "…" ∷ [])
