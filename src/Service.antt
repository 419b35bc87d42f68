-- ===== src/Service.antt =====
-- crates/application: the use-case services.
pub mod Decision
pub mod Create
pub mod Outcome
pub mod Transition
pub mod CreateFind
