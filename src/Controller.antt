-- ===== src/Controller.antt =====
-- internal/controller.
pub mod Env
pub mod Freeze
pub mod SloStatus
pub mod Storage
pub mod Drift
pub mod Status
pub mod Finalize
pub mod Reconcile
pub mod Watch
