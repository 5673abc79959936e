-- ===== src/Services.antt =====
-- What the two small services, services/shortlink and examples/testsvc, share: Go's request routing,
-- their metrics, and the life of a server.
pub mod Mux
pub mod Metrics
pub mod Server
