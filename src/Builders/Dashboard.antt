-- ===== src/Builders/Dashboard.antt =====
-- internal/builders/dashboard.go: the Grafana dashboard of a claim, with the JSON names of its fields.
use Prim.Native.String
use paved.Base.{
  ℕ, String, List, [], ◌∷◌, ◌++◌, map, Result, ok, err, wrap, concat, if◌then◌else◌, ◌==◌, ◌>>=◌,
  insert, Json, json_array, json_object, json_texts,
}
use paved.Api.{ServiceClaim, sli_http_latency}
use paved.Runtime.{Runtime}
use paved.Slo.Budget.{error_budget, decimal}
use paved.Slo.Rules.{requests_metric, duration_metric, record_name, error_ratio_expr}
use paved.Builders.Objects.{Object, config_map_body}
use paved.Builders.Names.{namespace_name, labels}

pub record GridPos : Type 0 where
  pub h : ℕ
  pub w : ℕ
  pub x : ℕ
  pub y : ℕ

pub record Target : Type 0 where
  pub ref_id : String
  pub expr : String
  pub legend_format : String

pub record Panel : Type 0 where
  pub id : ℕ
  pub type : String
  pub title : String
  pub description : String
  pub grid_pos : GridPos
  pub unit : String
  pub targets : List Target

pub record Dashboard : Type 0 where
  pub uid : String
  pub title : String
  pub tags : List String
  pub panels : List Panel

abbrev grid_pos : ℕ → ℕ → GridPos
grid_pos x y = record { h = 8; w = 12; x = x; y = y }

abbrev target : String → String → String → Target
target ref_id expr legend = record { ref_id = ref_id; expr = expr; legend_format = legend }

unfoldable pub panel : ℕ → String → String → String → GridPos → String → List Target → Panel
panel id kind title unit pos description targets = record {
  id = id;
  type = kind;
  title = title;
  description = description;
  grid_pos = pos;
  unit = unit;
  targets = targets;
}

-- prometheusDatasource.
abbrev datasource_json : Json
datasource_json =
    json_object (("type", Json.string "prometheus") ∷ ("uid", Json.string "prometheus") ∷ [])

unfoldable pub target_json : Target → Json
target_json t = json_object (
    ("refId", Json.string t.ref_id)
    ∷ ("expr", Json.string t.expr)
    ∷ ("legendFormat", Json.string t.legend_format)
    ∷ ("datasource", datasource_json)
    ∷ [])

unfoldable pub panel_json : Panel → Json
panel_json p = json_object (
    ("id", Json.number p.id)
    ∷ ("type", Json.string p.type)
    ∷ ("title", Json.string p.title)
    ∷ ("description", Json.string p.description)
    ∷ (
      "gridPos",
      json_object (
          ("h", Json.number p.grid_pos.h)
          ∷ ("w", Json.number p.grid_pos.w)
          ∷ ("x", Json.number p.grid_pos.x)
          ∷ ("y", Json.number p.grid_pos.y)
          ∷ []),
    )
    ∷ ("datasource", datasource_json)
    ∷ (
      "fieldConfig",
      json_object (
          ("defaults", json_object (("unit", Json.string p.unit) ∷ []))
          ∷ ("overrides", json_array [])
          ∷ []),
    )
    ∷ ("targets", json_array (map target_json p.targets))
    ∷ [])

unfoldable pub dashboard_json : Dashboard → Json
unfolding panel_json target_json
dashboard_json d = json_object (
    ("uid", Json.string d.uid)
    ∷ ("title", Json.string d.title)
    ∷ ("tags", json_texts d.tags)
    ∷ ("time", json_object (("from", Json.string "now-6h") ∷ ("to", Json.string "now") ∷ []))
    ∷ ("refresh", Json.string "30s")
    ∷ ("panels", json_array (map panel_json d.panels))
    ∷ [])

module _ (go : Runtime) where
  open go use {quote, parse_duration, seconds, format_general, sha256_hex, marshal_indent}

  -- The first 8 bytes of the hash are its first 16 hexadecimal digits.
  unfoldable pub dashboard_uid : ServiceClaim → String
  dashboard_uid sc =
      concat (
        "paved-" ∷ String.slice (sha256_hex (concat (sc.namespace ∷ "/" ∷ sc.name ∷ []))) 0 16 ∷ [])

  -- The targets of the latency panel, with the threshold of a latency claim.
  unfoldable pub latency_targets : ServiceClaim → Result (List Target)
  latency_targets sc =
      let buckets = concat (
        "sum by (le) (rate("
        ∷ duration_metric
        ∷ "_bucket{namespace="
        ∷ quote (namespace_name sc)
        ∷ "}[$__rate_interval]))"
        ∷ []) in
      let quantiles =
        target "A" (concat ("histogram_quantile(0.5, " ∷ buckets ∷ ")" ∷ [])) "p50"
        ∷ target "B" (concat ("histogram_quantile(0.95, " ∷ buckets ∷ ")" ∷ [])) "p95"
        ∷ target "C" (concat ("histogram_quantile(0.99, " ∷ buckets ∷ ")" ∷ [])) "p99"
        ∷ [] in
      if sc.spec.sli.type == sli_http_latency
      then elim (parse_duration sc.spec.sli.latency_threshold) [
        | err e ↦ err (
            wrap
              (concat (
                "latencyThreshold "
                ∷ quote sc.spec.sli.latency_threshold
                ∷ " is not a duration: "
                ∷ []))
              e)
        | ok threshold ↦ ok (
            quantiles
            ++ target "D" (concat ("vector(" ∷ format_general (seconds threshold) ∷ ")" ∷ []))
                "SLO threshold"
              ∷ [])
      ]
      else ok quantiles

  abbrev record_over : ServiceClaim → String → String
  record_over sc window =
      concat (record_name sc.spec.sli.type window ∷ "{service=" ∷ quote sc.name ∷ "}" ∷ [])

  unfoldable pub dashboard_panels : ServiceClaim → String → String → List Target → List Panel
  unfolding panel
  dashboard_panels sc budget_text window_ratio latency =
      panel 1 "timeseries" "Request rate" "reqps" (grid_pos 0 0)
        "Requests per second, by status code."
        (target "A"
            (concat (
              "sum by (code) (rate("
              ∷ requests_metric
              ∷ "{namespace="
              ∷ quote (namespace_name sc)
              ∷ "}[$__rate_interval]))"
              ∷ []))
            "{{code}}"
          ∷ [])
      ∷ panel 2 "timeseries" "Error ratio vs objective" "percentunit" (grid_pos 12 0)
          (concat (
            "Share of bad requests. Above the budget line (" ∷ budget_text
            ∷ "), the service is spending its error budget faster than its " ∷ sc.spec.slo.objective
            ∷ "% objective allows." ∷ []))
          (target "A" (record_over sc "5m") "error ratio, 5m"
            ∷ target "B" (record_over sc "1h") "error ratio, 1h"
            ∷ target "C" (concat ("vector(" ∷ budget_text ∷ ")" ∷ [])) "error budget"
            ∷ [])
      ∷ panel 3 "timeseries" "Latency p50 / p95 / p99" "s" (grid_pos 0 8)
          "Request latency percentiles." latency
      ∷ panel 4 "stat" "Error budget remaining" "percentunit" (grid_pos 12 8)
          (concat (
            "Share of the " ∷ sc.spec.slo.window
            ∷ " error budget still unspent. Prometheus keeps 10 days of data by default, so a longer window only counts what it still has."
            ∷ []))
          (target "A" (concat ("1 - ((" ∷ window_ratio ∷ ") / " ∷ budget_text ∷ ")" ∷ []))
              "remaining"
            ∷ [])
      ∷ []

  unfoldable pub dashboard_model : ServiceClaim → Result Dashboard
  dashboard_model sc = do
    budget ← error_budget go sc.spec.slo.objective
    window_ratio ← error_ratio_expr go sc.spec.sli (namespace_name sc) sc.spec.slo.window
    latency ← latency_targets sc
    ok (record {
      uid = dashboard_uid sc;
      title = sc.name;
      tags = "paved" ∷ sc.spec.tier ∷ [];
      panels = dashboard_panels sc (decimal budget) window_ratio latency;
    })

  -- Encoding the model cannot fail.
  unfoldable pub build_dashboard : ServiceClaim → Result Object
  build_dashboard sc = do
    model ← dashboard_model sc
    ok (record {
      meta = record {
        name = concat (sc.name ∷ "-dashboard" ∷ []);
        namespace = namespace_name sc;
        labels = insert "grafana_dashboard" "1" (labels sc);
        annotations = [];
      };
      body =
          config_map_body
            ((concat (sc.name ∷ ".json" ∷ []), marshal_indent (dashboard_json model)) ∷ []);
    })
