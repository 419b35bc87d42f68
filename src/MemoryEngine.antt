-- ===== src/MemoryEngine.antt =====
-- crates/memory-engine: the promotion of reflections to memories.
pub mod Types
pub mod Evaluator
pub mod Worker
pub mod Laws
