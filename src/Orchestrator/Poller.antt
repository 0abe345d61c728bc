-- ===== src/Orchestrator/Poller.antt =====
-- internal/orchestrator/poller.go and poller_candidates.go: one tick of the poller.
pub mod Eligibility
pub mod Ordering
pub mod Merge
pub mod Revalidate
pub mod Selection
pub mod Inactive
pub mod Tick
