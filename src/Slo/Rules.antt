-- ===== src/Slo/Rules.antt =====
-- internal/slo/rules.go: the recording rules of a claim's SLI. A monitoringv1.Rule is a record with
-- the fields that the program sets.
pub mod Laws
use Prim.Native.Char.{Char}
use paved.Base.{
  ℕ, String, Bool, true, false, ◌||◌, List, [], ◌∷◌, Option, none, some, map, Result, ok, err,
  plain, wrap, message, concat, join, codes, itoa, replace_all, nat_eq, if◌then◌else◌, ◌>>=◌, ◌==◌,
  is_positive,
}
use paved.Api.{ServiceClaim, SliSpec, sli_http_availability, sli_http_latency}
use paved.Runtime.{Runtime}

abbrev pub requests_metric : String
requests_metric = "http_requests_total"

abbrev pub duration_metric : String
duration_metric = "http_request_duration_seconds"

abbrev pub label_service : String
label_service = "service"

abbrev pub label_owner : String
label_owner = "owner"

abbrev pub label_tier : String
label_tier = "tier"

pub record Rule : Type 0 where
  pub record_name : String
  pub alert : String
  pub expr : String
  pub labels : List (String × String)
  pub annotations : List (String × String)

abbrev pub windows : List String
windows = "5m" ∷ "30m" ∷ "1h" ∷ "2h" ∷ "6h" ∷ "1d" ∷ "3d" ∷ []

abbrev underscore : Char
underscore = "_"

unfoldable pub record_name : String → String → String
unfolding replace_all
record_name sli_type window =
    concat ("sli:" ∷ replace_all b'-' underscore sli_type ∷ ":error_ratio_rate" ∷ window ∷ [])

unfoldable pub rule_labels : ServiceClaim → List (String × String)
rule_labels sc =
    (label_service, sc.name) ∷ (label_owner, sc.spec.owner) ∷ (label_tier, sc.spec.tier) ∷ []

-- The regular expression of the good status codes.
unfoldable pub good_status_pattern : List ℕ → Result String
unfolding itoa
good_status_pattern [] =
    err (plain "goodStatuses is empty, so every request would count as an error")
good_status_pattern (s ∷ ss) = ok (join "|" (map itoa (s ∷ ss)))

abbrev has_code : ℕ → List ℕ → Bool
has_code c [] = false
has_code c (d ∷ ds) = nat_eq c d || has_code c ds

abbrev pub with_point : String → String
with_point le = if has_code b'.' (codes le) then le else concat (le ∷ ".0" ∷ [])

module _ (go : Runtime) where
  open go use {quote, parse_duration, seconds, format_shortest}

  unfoldable pub latency_bucket : String → Result String
  latency_bucket threshold = elim (parse_duration threshold) [
    | err e ↦
        err (wrap (concat ("latencyThreshold " ∷ quote threshold ∷ " is not a duration: " ∷ [])) e)
    | ok d ↦
        if is_positive d
        then ok (with_point (format_shortest (seconds d)))
        else err (plain (concat ("latencyThreshold " ∷ quote threshold ∷ " must be positive" ∷ [])))
  ]

  -- `namespace="..."`.
  abbrev selector : String → String
  selector namespace = concat ("namespace=" ∷ quote namespace ∷ [])

  unfoldable pub availability_expr : String → String → String → String
  availability_expr namespace good window = concat (
      "(sum(rate("
      ∷ requests_metric
      ∷ "{"
      ∷ selector namespace
      ∷ ",code!~"
      ∷ quote good
      ∷ "}["
      ∷ window
      ∷ "])) or vector(0))\n/\nsum(rate("
      ∷ requests_metric
      ∷ "{"
      ∷ selector namespace
      ∷ "}["
      ∷ window
      ∷ "]))"
      ∷ [])

  unfoldable pub latency_expr : String → String → String → String
  latency_expr namespace le window = concat (
      "1 - (\n  sum(rate("
      ∷ duration_metric
      ∷ "_bucket{"
      ∷ selector namespace
      ∷ ",le="
      ∷ quote le
      ∷ "}["
      ∷ window
      ∷ "]))\n  /\n  sum(rate("
      ∷ duration_metric
      ∷ "_count{"
      ∷ selector namespace
      ∷ "}["
      ∷ window
      ∷ "]))\n)"
      ∷ [])

  unfoldable pub error_ratio_expr : SliSpec → String → String → Result String
  error_ratio_expr sli namespace window =
      if sli.type == sli_http_availability
      then (do
        good ← good_status_pattern sli.good_statuses
        ok (availability_expr namespace good window))
      else if sli.type == sli_http_latency
      then (do le ← latency_bucket sli.latency_threshold; ok (latency_expr namespace le window))
      else err (plain (concat ("unsupported SLI type " ∷ quote sli.type ∷ [])))

  -- The loop over the windows, which stops at the first error.
  unfoldable pub recording_rules_from : ServiceClaim → String → List String → Result (List Rule)
  recording_rules_from sc namespace [] = ok []
  recording_rules_from sc namespace (window ∷ ws) = do
    expr ← error_ratio_expr sc.spec.sli namespace window
    rules ← recording_rules_from sc namespace ws
    ok (
        record {
          record_name = record_name sc.spec.sli.type window;
          alert = "";
          expr = expr;
          labels = rule_labels sc;
          annotations = [];
        }
        ∷ rules)

  unfoldable pub recording_rules : ServiceClaim → String → Result (List Rule)
  unfolding recording_rules_from
  recording_rules sc namespace = recording_rules_from sc namespace windows
