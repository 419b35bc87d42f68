-- ===== src/Decision.antt =====
-- crates/decision-engine: the Decision aggregate, its commands, its status machine and its events.
pub mod Status
pub mod Types
pub mod Aggregate
pub mod Calls
pub mod Lifecycle
pub mod EventLog
pub mod Ports
