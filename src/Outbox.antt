-- ===== src/Outbox.antt =====
-- core/spakky-outbox/src/spakky/outbox: the relay of stored messages to the transport.
pub mod Relay
pub mod Delivery
pub mod Tests
