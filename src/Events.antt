-- ===== src/Events.antt =====
-- src/events.rs: the handlers of the lifecycle events, in the modules of their parts.
pub mod Clock
pub mod Summary
pub mod Resume
pub mod Process
pub mod Screen
pub mod Ages
pub mod Recency
