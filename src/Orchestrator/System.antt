-- ===== src/Orchestrator/System.antt =====
-- The actor and the goroutines around it as one transition system: the state, the followups that are
-- still to run, and the operations in any order.
pub mod Tables
pub mod Owners
pub mod Moves
pub mod Endings
pub mod Exits
pub mod Routes
pub mod Finalized
pub mod ExitRoutes
pub mod ExitWays
pub mod Exited
pub mod Fired
pub mod Retries
pub mod Releases
pub mod Reconciled
pub mod Inactive
pub mod Refreshed
pub mod Watched
pub mod Config
pub mod Followups
pub mod Accepts
pub mod Refuses
pub mod Reachable
