-- ===== src/Reflection.antt =====
-- crates/intelligence/reflection-engine: the reflection bounded context.
pub mod Types
pub mod Ports
pub mod Messages
pub mod Context
pub mod Validation
pub mod Sound
pub mod Engine
