-- ===== src/Aop.antt =====
-- core/spakky/src/spakky/core/aop: advice around a call, and the order of the aspects on a method.
pub mod Advisor
pub mod Weaving
pub mod Order
mod Tests
