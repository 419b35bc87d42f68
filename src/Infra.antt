-- ===== src/Infra.antt =====
-- crates/infrastructure: the adapters that implement the domain's repository ports over a store.
pub mod DecisionRepository
pub mod ReflectionRepository
pub mod MemoryPorts
pub mod RowLaws
pub mod SaveFind
pub mod ReflectionRows
pub mod ReflectionRuns
pub mod ReflectionRecovery
pub mod MemoryRepository
pub mod MemoryRuns
pub mod ReflectionPublished
