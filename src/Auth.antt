-- ===== src/Auth.antt =====
-- core/spakky-auth: decisions, metadata of protected boundaries, and the context of a caller.
pub mod Decision
pub mod Context
pub mod Metadata
pub mod Ports
pub mod Aspect
pub mod Enforcement
mod Tests
