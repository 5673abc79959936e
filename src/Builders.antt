-- ===== src/Builders.antt =====
-- internal/builders: from a claim to the objects that the platform manages.
pub mod Objects
pub mod Names
pub mod Storage
pub mod Workload
pub mod Network
pub mod Monitoring
pub mod Dashboard
pub mod Runbook
pub mod Set
