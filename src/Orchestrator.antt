-- ===== src/Orchestrator.antt =====
-- internal/orchestrator: the orchestrator's state and the operations of its actor.
pub mod Payload
pub mod Types
pub mod Recent
pub mod Counts
pub mod Usage
pub mod Transitions
pub mod Block
pub mod OperatorStop
pub mod Backoff
pub mod Actor
pub mod Dispatch
pub mod Spawn
pub mod Reschedule
pub mod RetryQueue
pub mod Finalize
pub mod Reconcile
pub mod Refresh
pub mod RuntimeEvents
pub mod Watch
pub mod Settings
pub mod Cleanup
pub mod Poller
pub mod Initial
pub mod System
