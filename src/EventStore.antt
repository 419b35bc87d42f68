-- ===== src/EventStore.antt =====
-- crates/event-store and its users: the event stream, its index and its archive.
pub mod Types
pub mod AggregateId
pub mod Keys
pub mod Backend
pub mod Log
pub mod SignalLog
pub mod Archive
pub mod RoundTrip
