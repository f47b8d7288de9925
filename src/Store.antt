-- ===== src/Store.antt =====
-- The durable store (crates/store/src/lib.rs).
pub mod Schema
pub mod Deliveries
pub mod Queue
pub mod Retention
pub mod Validity
pub mod Runs
pub mod Billing
pub mod Memory
pub mod Cave
pub mod Audit
pub mod Usage
