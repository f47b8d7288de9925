-- ===== src/Worker.antt =====
-- The worker (crates/worker/src).
pub mod Limits
pub mod Memory
pub mod Session
pub mod Findings
pub mod Schedule
pub mod Redact
pub mod Hub
pub mod Garden
pub mod GardenRun
pub mod Surface
pub mod Brief
pub mod Backend
pub mod Pipeline
