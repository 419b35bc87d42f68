-- ===== src/Tests.antt =====
-- Concrete runs of the model.
mod Data
mod Decisions
mod Services
mod Reflections
mod Policies
mod Memories
mod Models
mod Signals
mod Events
mod Graphs
mod Tables
mod Reasoning
mod Claims
