-- ===== src/Agent.antt =====
-- core/spakky-agent/src/spakky/agent: the state of an agent, its signals, cancellation and approvals.
pub mod State
pub mod Cancellation
pub mod Approval
pub mod Resolution
pub mod Resumption
pub mod Signals
pub mod Polling
mod Tests
