-- ===== src/Governance.antt =====
-- What may be done with the content of a source, and how long artifacts are kept.
pub mod Policy
pub mod Storage
pub mod Laws
