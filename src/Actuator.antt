-- ===== src/Actuator.antt =====
-- core/spakky-actuator/src/spakky/actuator: health probes and their aggregation.
pub mod Health
pub mod Service
pub mod Aggregate
pub mod Sync
mod Tests
