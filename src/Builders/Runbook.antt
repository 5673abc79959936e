-- ===== src/Builders/Runbook.antt =====
-- internal/builders/runbook.go: the runbook of a claim, line by line.
use paved.Base.{
  ℕ, ◌*◌, String, List, [], ◌∷◌, ◌++◌, map, Result, ok, err, plain, concat, join, itoa, abs, Rat,
  rat, ℤ, if◌then◌else◌, ◌==◌, ◌>>=◌,
}
use paved.Api.{ServiceClaim, SliSpec, sli_http_availability, sli_http_latency}
use paved.Runtime.{Runtime}
use paved.Slo.Budget.{error_budget, decimal}
use paved.Slo.Rules.{latency_bucket}
use paved.Slo.Alerts.{
  BurnRateAlert, burn_rate_alerts, threshold, budget_lifetime, alert_name, runbook_url,
}
use paved.Slo.Alerts.Window.{slo_window}
use paved.Builders.Objects.{Object, config_map_body}
use paved.Builders.Names.{label_name, namespace_name, runbook_name, object_meta}
use paved.Builders.Monitoring.{wrap_error}

-- The sentence for the good status codes, of which there is at least one.
abbrev bad_status_text : List ℕ → Result String
bad_status_text [] = err (plain "goodStatuses is empty")
bad_status_text (s ∷ ss) = ok (
    concat (
      "A request is bad when its status code is not one of "
      ∷ join ", " (map itoa (s ∷ ss))
      ∷ "."
      ∷ []))

-- The part of the text in front of the table of alerts.
unfoldable pub runbook_head : ServiceClaim → String → String → String → List String
runbook_head sc bad_request budget_text budget_percent =
    concat ("# Runbook: " ∷ sc.name ∷ [])
    ∷ ""
    ∷ "## What this service is"
    ∷ ""
    ∷ concat (
        sc.name
        ∷ " is a "
        ∷ sc.spec.tier
        ∷ " service onboarded through paved. It runs `"
        ∷ sc.spec.image
        ∷ "` in the namespace `"
        ∷ namespace_name sc
        ∷ "`."
        ∷ [])
    ∷ ""
    ∷ concat ("- **SLI:** " ∷ sc.spec.sli.type ∷ ". " ∷ bad_request ∷ [])
    ∷ concat (
        "- **SLO:** " ∷ sc.spec.slo.objective ∷ "% of requests are good over " ∷ sc.spec.slo.window
        ∷ ", so the error budget is " ∷ budget_text ∷ " (" ∷ budget_percent ∷ "% of requests)."
        ∷ [])
    ∷ ""
    ∷ "## Who owns it"
    ∷ ""
    ∷ concat (
        "**"
        ∷ sc.spec.owner
        ∷ "** owns this service. Everything in `"
        ∷ namespace_name sc
        ∷ "` is generated from the ServiceClaim `"
        ∷ sc.namespace
        ∷ "/"
        ∷ sc.name
        ∷ "`, so change it there rather than in the namespace."
        ∷ [])
    ∷ ""
    ∷ "## What each alert means"
    ∷ ""
    ∷ concat (
        "Every alert is `" ∷ alert_name ∷ "` with `service=\"" ∷ sc.name
        ∷ "\"`; its `severity` and window labels say which one fired." ∷ [])
    ∷ ""
    ∷ concat (
        "| Severity | Windows | Fires above error ratio | At that rate the " ∷ sc.spec.slo.window
        ∷ " budget lasts |" ∷ [])
    ∷ "|---|---|---|---|"
    ∷ []

unfoldable pub runbook_tail : ServiceClaim → List String
runbook_tail sc =
    ""
    ∷ "A **page** means users are affected now and the budget runs out within days: respond immediately. A **ticket** means a slower burn that will still use up the budget before the window ends: handle it during working hours."
    ∷ ""
    ∷ "## First three debugging steps"
    ∷ ""
    ∷ concat (
        "1. **Check whether a deploy is involved.** Compare the claim's image with the Rollout: `kubectl get serviceclaim "
        ∷ sc.name
        ∷ " -n "
        ∷ sc.namespace
        ∷ " -o jsonpath='{.spec.image}'` and `kubectl get rollout "
        ∷ sc.name
        ∷ " -n "
        ∷ namespace_name sc
        ∷ "`."
        ∷ [])
    ∷ concat (
        "2. **Find when the burn started** on the Grafana dashboard `" ∷ sc.name
        ∷ "` (tag `paved`): the error ratio against its budget line, and request rate by status code."
        ∷ [])
    ∷ concat (
        "3. **Read recent logs:** `kubectl logs -n "
        ∷ namespace_name sc
        ∷ " -l "
        ∷ label_name
        ∷ "="
        ∷ sc.name
        ∷ " --since=1h --tail=200`. If the burn began with an image change, set `spec.image` in the ServiceClaim back to the previous version."
        ∷ [])
    ∷ ""
    ∷ concat ("General guidance for these alerts: " ∷ runbook_url ∷ [])
    ∷ []

module _ (go : Runtime) where
  open go use {quote}

  unfoldable pub bad_request_definition : SliSpec → Result String
  bad_request_definition sli =
      if sli.type == sli_http_availability
      then bad_status_text sli.good_statuses
      else if sli.type == sli_http_latency
      then (latency_bucket go sli.latency_threshold >>= λ le. ok (
          concat
            ("A request is bad when it takes longer than " ∷ sli.latency_threshold ∷ "." ∷ [])))
      else err (plain (concat ("unsupported SLI type " ∷ quote sli.type ∷ [])))

  -- The rows of the table, one for each alert.
  unfoldable pub runbook_rows : Rat → ℤ → List BurnRateAlert → Result (List String)
  runbook_rows budget window [] = ok []
  runbook_rows budget window (a ∷ rest) = do
    limit ← threshold go a budget
    lifetime ← budget_lifetime go a window
    rows ← runbook_rows budget window rest
    ok (
        concat (
          "| " ∷ a.severity ∷ " | " ∷ a.long_window ∷ " and " ∷ a.short_window ∷ " | " ∷ limit
          ∷ " (" ∷ a.burn_rate ∷ "x) | about " ∷ lifetime ∷ " |" ∷ [])
        ∷ rows)

  unfoldable pub runbook_text : ServiceClaim → Result String
  runbook_text sc = do
    budget ← error_budget go sc.spec.slo.objective
    window ← slo_window go sc.spec.slo.window
    bad_request ← bad_request_definition sc.spec.sli
    rows ← runbook_rows budget window burn_rate_alerts
    ok (
        concat (
          join "\n" (
            runbook_head sc bad_request (decimal budget)
              (decimal (rat (100 * abs budget.num) budget.den))
            ++ (rows ++ runbook_tail sc))
          ∷ "\n"
          ∷ []))

  unfoldable pub build_runbook : ServiceClaim → Result Object
  build_runbook sc = do
    text ← wrap_error "building runbook: " (runbook_text sc)
    ok (record {
      meta = object_meta sc (runbook_name sc);
      body = config_map_body (("runbook.md", text) ∷ []);
    })
