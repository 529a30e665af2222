-- ===== src/Event.antt =====
-- core/spakky-event/src/spakky/event and the aggregates of core/spakky-domain: how domain events
-- reach their handlers.
pub mod Aggregates
pub mod Mediator
pub mod Publishing
pub mod Once
pub mod Registrations
pub mod Commit
mod Tests
