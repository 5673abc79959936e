-- ===== src/Examples.antt =====
-- A runtime, a library of conditions, an environment and claims to run the definitions on, and runs
-- of them.
pub mod Numbers
pub mod Claims
pub mod Reconciles
pub mod Freezes
pub mod Objectives
pub mod Sets
pub mod Links
pub mod Services
pub mod Operators
pub mod Deploys
