-- ===== src/Builders/Monitoring.antt =====
-- internal/builders: analysistemplate.go, prometheusrule.go and servicemonitor.go.
use paved.Base.{String, [], ◌∷◌, Result, ok, err, wrap, concat, ◌>>=◌}
use paved.Api.{ServiceClaim}
use paved.Runtime.{Runtime}
use paved.Slo.Rules.{label_service, record_name, recording_rules}
use paved.Slo.Alerts.{alert_rules}
use paved.Builders.Objects.{
  Object, analysis_template_body, prometheus_rule_body, service_monitor_body,
}
use paved.Builders.Names.{port_name, namespace_name, runbook_name, selector_labels, object_meta}
use paved.Builders.Workload.{canary_analysis_name}

abbrev pub default_prometheus_url : String
default_prometheus_url = "http://kps-kube-prometheus-stack-prometheus.monitoring.svc:9090"

abbrev pub canary_window : String
canary_window = "5m"

-- fmt.Errorf("...: %w", err) on the error of a result.
abbrev pub wrap_error {ℓ} : {A : Type ℓ} → String → Result A → Result A
wrap_error s (ok a) = ok a
wrap_error s (err e) = err (wrap s e)

unfoldable pub build_service_monitor : ServiceClaim → Object
build_service_monitor sc = record {
  meta = object_meta sc sc.name;
  body = service_monitor_body (record {
    selector = selector_labels sc;
    port = port_name;
    path = "/metrics";
    interval = "30s";
  });
}

module _ (go : Runtime) where
  open go use {quote}

  -- The query for a claim's record over a window.
  unfoldable pub record_query : ServiceClaim → String → String
  record_query sc window =
      concat
        (record_name sc.spec.sli.type window ∷ "{" ∷ label_service ∷ "=" ∷ quote sc.name ∷ "}" ∷ [])

  unfoldable pub build_analysis_template : ServiceClaim → Object
  build_analysis_template sc = record {
    meta = object_meta sc (canary_analysis_name sc);
    body = analysis_template_body (
        record {
          name = "sli-error-ratio";
          interval = "30s";
          failure_condition = "len(result) > 0 && result[0] > 0.05";
          failure_limit = 0;
          address = default_prometheus_url;
          query = record_query sc canary_window;
        }
        ∷ []);
  }

  unfoldable pub build_prometheus_rule : ServiceClaim → Result Object
  build_prometheus_rule sc = do
    records ←
        wrap_error "building SLI recording rules: " (recording_rules go sc (namespace_name sc))
    alerts ←
        wrap_error "building burn-rate alerts: "
          (alert_rules go sc (concat (namespace_name sc ∷ "/" ∷ runbook_name sc ∷ [])))
    ok (record {
      meta = object_meta sc sc.name;
      body = prometheus_rule_body (
          record { name = concat (sc.name ∷ ".sli" ∷ []); rules = records }
          ∷ record { name = concat (sc.name ∷ ".slo-alerts" ∷ []); rules = alerts }
          ∷ []);
    })
