-- ===== src/Tracing.antt =====
-- core/spakky-tracing/src/spakky/tracing: trace contexts and the header that carries them.
pub mod Hex
pub mod Context
pub mod Propagator
pub mod Parsing
pub mod RoundTrip
pub mod Validity
mod Tests
