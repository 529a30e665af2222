-- ===== src/Policy.antt =====
-- plugins/spakky-policy/src/spakky/plugins/policy: policy documents and their evaluation.
pub mod Model
pub mod Conditions
pub mod Matching
pub mod Evaluator
pub mod Decisions
pub mod Termination
pub mod Totality
pub mod Permissions
pub mod Tests
