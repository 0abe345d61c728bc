-- ===== src/Orchestrator/Initial.antt =====
-- NewOrchestratorState of state.go.
use aiops_platform.Common.{ℕ, [], none}
use aiops_platform.Orchestrator.Types.{OrchestratorState, RecentSet, RunningEntry}

abbrev pub default_max_continuation_turns : ℕ
default_max_continuation_turns = 20

abbrev pub default_max_recent_completed : ℕ
default_max_recent_completed = 1000

abbrev pub default_max_recent_operator_terminal_stops : ℕ
default_max_recent_operator_terminal_stops = 1000

abbrev pub empty_recent : RecentSet
empty_recent = record { members = []; order = []; total = 0 }

-- The store of runs is empty: nothing reads the entry of an address that no map holds.
unfoldable pub new_orchestrator_state : ℕ → ℕ → (ℕ → RunningEntry) → OrchestratorState
new_orchestrator_state poll_interval_ms max_concurrent_agents unallocated = record {
  poll_interval_ms = poll_interval_ms;
  max_concurrent_agents = max_concurrent_agents;
  max_concurrent_agents_by_state = [];
  max_continuation_turns = default_max_continuation_turns;
  agent_default = [];
  budget_guardrails = record { max_tokens_per_claim = 0; max_runtime_seconds_per_claim = 0 };
  running = [];
  runs = unallocated;
  next_address = 0;
  blocked = [];
  claimed = [];
  claimed_issues = [];
  retry_attempts = [];
  completed = empty_recent;
  ended_session_usage = [];
  max_recent_completed = default_max_recent_completed;
  reconcile_stopped_with_progress = empty_recent;
  agent_handoff_reconcile_stopped = empty_recent;
  active_success_no_handoff = empty_recent;
  operator_terminal_stops = [];
  operator_terminal_stop_order = [];
  max_recent_operator_terminal_stops = default_max_recent_operator_terminal_stops;
  cumulative_operator_terminal_stops_total = 0;
  codex_totals = record {
    input_tokens = 0;
    output_tokens = 0;
    total_tokens = 0;
    running_nanos = 0;
  };
  codex_rate_limits = none;
  cleaning_workspaces = [];
  recent_events = [];
}
