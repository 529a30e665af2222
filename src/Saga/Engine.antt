-- ===== src/Saga/Engine.antt =====
-- core/spakky-saga/src/spakky/saga/engine.py: `Normalize` is the translation of flow items,
-- `State` the executor and what it records, `Steps` one item of a flow, `Run` the whole saga.
pub mod Normalize
pub mod State
pub mod Steps
pub mod Run
pub mod Invoking
pub mod Trace
pub mod Retries
pub mod Undoing
pub mod Attempts
pub mod Compensation
pub mod Settling
pub mod Groups
pub mod Forward
pub mod Refinement
pub mod Timeouts
pub mod Protection
pub mod Carried
pub mod Snapshot
pub mod Promotion
