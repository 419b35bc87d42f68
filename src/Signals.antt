-- ===== src/Signals.antt =====
-- crates/intelligence/signal-engine: the discovery of signals, their scores, and the run of the engine.
pub mod Models
pub mod Ports
pub mod Scoring
pub mod Clustering
pub mod Sources
pub mod Engine
pub mod Query
