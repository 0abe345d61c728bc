-- ===== src/Orchestrator/System/Tables.antt =====
-- The tables of the state that decide claims, and the operations that leave them alone.
use aiops_platform.Common.{
  ℤ, ◌++◌, length, ◌&&◌, ltb, Bool-cases, ℕ, List, [], ◌∷◌, Text, ◌≡◌, refl, arith, Option-cases,
  inl, inr,
}
use aiops_platform.Common.Map.{lookup, Map, TextSet}
use aiops_platform.Tracker.{Issue}
use aiops_platform.Orchestrator.Types.{
  OperatorTerminalStopEntry, OrchestratorState, RunningEntry, BlockedEntry, RetryEntry,
}
use aiops_platform.Orchestrator.OperatorStop.{
  record_operator_terminal_dispatch_suppressed, record_operator_terminal_stop, add_stop, evict_stop,
}
use aiops_platform.Orchestrator.Actor.{latch_operator_terminal_stop}
use aiops_platform.Orchestrator.Dispatch.{suppress_dispatch}
use aiops_platform.Orchestrator.Recent.{record_event}

pub record Tables : Type 0 where
  pub max_concurrent_agents : ℕ
  pub max_concurrent_agents_by_state : Map ℤ
  pub running : Map ℕ
  pub runs : ℕ → RunningEntry
  pub next_address : ℕ
  pub blocked : Map BlockedEntry
  pub claimed : TextSet
  pub claimed_issues : Map Issue
  pub retry_attempts : Map RetryEntry
  pub cleaning_workspaces : TextSet

abbrev pub tables : OrchestratorState → Tables
tables s = record {
  max_concurrent_agents = s.max_concurrent_agents;
  max_concurrent_agents_by_state = s.max_concurrent_agents_by_state;
  running = s.running;
  runs = s.runs;
  next_address = s.next_address;
  blocked = s.blocked;
  claimed = s.claimed;
  claimed_issues = s.claimed_issues;
  retry_attempts = s.retry_attempts;
  cleaning_workspaces = s.cleaning_workspaces;
}

evict_stop-tables : (s : OrchestratorState) (xs : List Text) → tables (evict_stop s xs) ≡ tables s
unfolding evict_stop
evict_stop-tables s [] = refl
evict_stop-tables s (x ∷ xs) = refl

add_stop-tables :
    (id : Text) (entry : OperatorTerminalStopEntry) (s : OrchestratorState)
    → tables (add_stop id entry s) ≡ tables s
unfolding add_stop
add_stop-tables id entry s =
    elim (Bool-cases (
      ltb 0 s.max_recent_operator_terminal_stops
      && ltb s.max_recent_operator_terminal_stops
          (length (s.operator_terminal_stop_order ++ id ∷ [])))) [
            | inl full ↦ rw full (evict_stop-tables _ _)
            | inr room ↦ rw room
          ]

record_stop-tables :
    (now at : ℕ) (id : Text) (issue : Issue) (s : OrchestratorState)
    → tables (record_operator_terminal_stop now at id issue s).0 ≡ tables s
unfolding record_operator_terminal_stop
record_stop-tables now at id issue s = elim (Option-cases (lookup id s.operator_terminal_stops)) [
  | inl new ↦ rw (new, record_operator_terminal_stop) (add_stop-tables id _ s)
  | inr (old, e) ↦ rw (e, record_operator_terminal_stop)
]

pub latch-tables :
    (now : ℕ) (id : Text) (issue : Issue) (s : OrchestratorState)
    → tables (latch_operator_terminal_stop now id issue s) ≡ tables s
unfolding latch_operator_terminal_stop record_event
latch-tables now id issue s =
    elim (Bool-cases (record_operator_terminal_stop now now id issue s).2) [
      | inl first ↦ rw first (record_stop-tables now now id issue s)
      | inr again ↦ rw again (record_stop-tables now now id issue s)
    ]

pub suppress_dispatch-tables :
    (now : ℕ) (id : Text) (issue : Issue) (s : OrchestratorState)
    → tables (suppress_dispatch now id issue s) ≡ tables s
unfolding suppress_dispatch record_event record_operator_terminal_dispatch_suppressed
suppress_dispatch-tables now id issue s = ground arith
