-- ===== src/Slo.antt =====
-- internal/slo.
pub mod Budget
pub mod Rules
pub mod Alerts
pub mod Prometheus
