-- ===== src/Slo/Rules/Laws.antt =====
-- The recording rules that a claim gets.
use paved.Base.{
  ℕ, String, true, List, [], ◌∷◌, map, ok, ℤ, is_positive, ◌≡◌, refl, sym, ap, ◌∙◌, ◌⊎◌, inl, inr,
  arith, ◌==◌, eq_iff, pair-eq-ok,
}
use paved.Api.{ServiceClaim, SliSpec, sli_http_availability, sli_http_latency}
use paved.Runtime.{Runtime}
use paved.Slo.Rules.{
  Rule, windows, record_name, rule_labels, good_status_pattern, latency_bucket, error_ratio_expr,
  availability_expr, latency_expr, with_point, recording_rules_from, recording_rules,
}

module _ (go : Runtime) where
  -- An SLI that can be recorded: good statuses for availability, or a positive duration for latency.
  abbrev pub IsSli : SliSpec → Type 0
  IsSli sli =
      ((sli.type ≡ sli_http_availability) × ¬ (sli.good_statuses ≡ []))
      ⊎ ((sli.type ≡ sli_http_latency)
          × ((d : ℤ) × (go.parse_duration sli.latency_threshold ≡ ok d) × (is_positive d ≡ true)))

  -- The rule of one window.
  rule_at : ServiceClaim → String → String → Rule
  rule_at sc window expr = record {
    record_name = record_name sc.spec.sli.type window;
    alert = "";
    expr = expr;
    labels = rule_labels sc;
    annotations = [];
  }

  module _ (sc : ServiceClaim) (namespace : String) where
    -- What a rule records, and under which labels.
    abbrev pub record_of : Rule → String × String × List (String × String)
    record_of r = (r.record_name, r.alert, r.labels)

    abbrev pub expected : String → String × String × List (String × String)
    expected window = (record_name sc.spec.sli.type window, "", rule_labels sc)

    recording_rules_from-records :
        (ws : List String) (rules : List Rule)
        → recording_rules_from go sc namespace ws ≡ ok rules
        → map record_of rules ≡ map expected ws
    unfolding recording_rules_from rule_at
    recording_rules_from-records [] rules e = ground arith
    recording_rules_from-records (w ∷ ws) rules e =
        let (expr, rest, _, later, same) =
          pair-eq-ok (error_ratio_expr go sc.spec.sli namespace w)
            (recording_rules_from go sc namespace ws) (λ x rs. rule_at sc w x ∷ rs) e in
        sym (ap (map record_of) same)
        ∙ ap (λ l. expected w ∷ l) (recording_rules_from-records ws rest later)

    -- The recording rules are one for each window, in order, with the claim's labels.
    pub recording_rules-records :
        (rules : List Rule)
        → recording_rules go sc namespace ≡ ok rules
        → map record_of rules ≡ map expected windows
    unfolding recording_rules
    recording_rules-records rules e = recording_rules_from-records windows rules e

  good_status_pattern-ok :
      (good : List ℕ) → ¬ (good ≡ []) → (p : String) × (good_status_pattern good ≡ ok p)
  unfolding good_status_pattern
  good_status_pattern-ok [] some_good = absurd (some_good refl)
  good_status_pattern-ok (s ∷ ss) some_good = (_, refl)

  latency_bucket-ok :
      (threshold : String) (d : ℤ)
      → go.parse_duration threshold ≡ ok d
      → is_positive d ≡ true
      → (le : String) × (latency_bucket go threshold ≡ ok le)
  unfolding latency_bucket
  latency_bucket-ok threshold d parsed positive =
      (with_point (go.format_shortest (go.seconds d)), rw (parsed, positive, latency_bucket) refl)

  -- An SLI that can be recorded has an error ratio over every window, for alerts, the freeze and
  -- the canary alike.
  pub error_ratio_expr-ok :
      (sli : SliSpec) (namespace window : String)
      → IsSli sli
      → (expr : String) × (error_ratio_expr go sli namespace window ≡ ok expr)
  unfolding error_ratio_expr
  error_ratio_expr-ok sli namespace window (inl (type, some_good)) =
      let (p, found) = good_status_pattern-ok sli.good_statuses some_good in
      (
        availability_expr go namespace p window,
        ground (arith, (eq_iff sli.type sli_http_availability).1 type),
      )
  error_ratio_expr-ok sli namespace window (inr (type, (d, parsed, positive))) =
      let (le, found) = latency_bucket-ok sli.latency_threshold d parsed positive in
      (
        latency_expr go namespace le window,
        ground (
          arith,
          (eq_iff sli.type sli_http_latency).1 type,
          ap (λ t. t == sli_http_availability) type,
        ),
      )

  recording_rules_from-ok :
      (sc : ServiceClaim) (namespace : String) (ws : List String)
      → IsSli sc.spec.sli
      → (rules : List Rule) × (recording_rules_from go sc namespace ws ≡ ok rules)
  unfolding recording_rules_from rule_at
  recording_rules_from-ok sc namespace [] sli = ([], refl)
  recording_rules_from-ok sc namespace (w ∷ ws) sli =
      let (expr, made) = error_ratio_expr-ok sc.spec.sli namespace w sli in
      let (rules, rest) = recording_rules_from-ok sc namespace ws sli in
      (rule_at sc w expr ∷ rules, rw (made, rest, recording_rules_from) refl)
