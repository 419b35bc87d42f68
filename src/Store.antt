-- ===== src/Store.antt =====
-- crates/store and crates/domain: the rows, and the in-memory store.
pub mod DecisionRows
pub mod PipelineRows
pub mod ContentRows
pub mod SignalRows
pub mod Error
pub mod Memory
pub mod OutboxLaws
pub mod OutboxDrain
pub mod EventIndex
pub mod DecisionTable
pub mod DecisionRace
pub mod ArticleLaws
