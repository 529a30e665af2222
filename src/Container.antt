-- ===== src/Container.antt =====
-- core/spakky/src/spakky/core: registration of Pods and the choice among candidates.
pub mod Registry
pub mod Resolve
pub mod Caches
pub mod Instantiate
pub mod Order
pub mod Candidates
pub mod Index
pub mod Errors
pub mod Walk
pub mod Depth
pub mod Singletons
pub mod Cycles
pub mod Remaining
pub mod Tests
