-- ===== src/Saga.antt =====
-- core/spakky-saga: flows with compensation, and the executor that runs them.
pub mod Strategy
pub mod Flow
pub mod Auth
pub mod Engine
pub mod Tests
pub mod Guards
