-- ===== src/Orchestrator/RuntimeEvents.antt =====
-- runtime_events.go: an event of the agent's app server, folded into the run and the totals.
pub mod Tokens
pub mod Budget
pub mod Fold
