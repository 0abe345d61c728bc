-- ===== src/Orchestrator/Types.antt =====
-- The records of internal/orchestrator/state.go, state_usage.go, state_operator_stop.go, retry.go
-- and status.go. A duration is an integer of nanoseconds. Counters of turns, attempts and dispatches
-- are natural numbers: they grow by one for a run of seconds, and never reach 2^63.
use aiops_platform.Common.{ℤ, ℕ, Bool, List, Option, Text}
use aiops_platform.Common.Map.{Map, TextSet}
use aiops_platform.Tracker.{Issue}
use aiops_platform.Orchestrator.Payload.{Fields}

pub record Workspace : Type 0 where
  pub path : Text
  pub root : Text
  pub key : Text
  pub created_now : Bool

pub record LiveSession : Type 0 where
  pub session_id : Text
  pub thread_id : Text
  pub turn_id : Text
  pub turn_count : ℕ
  pub codex_app_server_pid : ℕ
  pub agent_provider : Text
  pub agent_model : Text
  pub workflow_source : Text
  pub workflow_path : Text

-- Token counts are int64 bit patterns. `running_nanos` is SecondsRunning, kept exactly in
-- nanoseconds where the source adds float64 seconds.
pub record CodexTotals : Type 0 where
  pub input_tokens : ℕ
  pub output_tokens : ℕ
  pub total_tokens : ℕ
  pub running_nanos : ℕ

pub record StartupFailure : Type 0 where
  pub phase : Text
  pub error : Text

-- The channel `Done` is the flag `done`: has it been closed? `CancelWorker` is in the followups.
pub record RunningEntry : Type 0 where
  pub issue : Issue
  pub identifier : Text
  pub started_at : ℕ
  pub retry_attempt : Option ℕ
  pub continuation_attempt : ℕ
  pub continuation_turn_count : ℕ
  pub workspace : Workspace
  pub session : LiveSession
  pub last_event_at : ℕ
  pub last_codex_event : Text
  pub last_codex_message : Text
  pub last_startup_failure : Option StartupFailure
  pub codex_input_tokens : ℕ
  pub codex_output_tokens : ℕ
  pub codex_total_tokens : ℕ
  pub last_reported_input_tokens : ℕ
  pub last_reported_output_tokens : ℕ
  pub last_reported_total_tokens : ℕ
  pub stall_canceled : Bool
  pub budget_exceeded : Bool
  pub budget_exceeded_at : ℕ
  pub budget_exceeded_error : Text
  pub input_required : Bool
  pub input_required_at : ℕ
  pub input_required_method : Text
  pub agent_current_issue_handoff : Bool
  pub agent_current_issue_terminal_handoff : Bool
  pub agent_current_issue_terminal_handoff_state : Text
  pub reconcile_cancel : Bool
  pub reconcile_cleanup_workspace : Bool
  pub done : Bool

pub record BlockedEntry : Type 0 where
  pub issue : Issue
  pub identifier : Text
  pub blocked_at : ℕ
  pub workspace : Workspace
  pub session : LiveSession
  pub last_event_at : ℕ
  pub codex_input_tokens : ℕ
  pub codex_output_tokens : ℕ
  pub codex_total_tokens : ℕ
  pub runtime_nanos : ℕ
  pub method : Text
  pub error : Text

pub data RetryKind : Type 0 where
  failure continuation quota_backoff : RetryKind

-- `address` stands for the pointer to the entry; `has_timer` says that Timer is not nil.
pub record RetryEntry : Type 0 where
  pub address : ℕ
  pub issue : Issue
  pub issue_id : Text
  pub identifier : Text
  pub attempt : ℕ
  pub due_at : ℕ
  pub has_timer : Bool
  pub error : Text
  pub kind : RetryKind
  pub quota_backoff_due_at : ℕ
  pub startup_failure : Option StartupFailure
  pub continuation_turn_count : ℕ
  pub workspace : Workspace

pub record OperatorTerminalStopEntry : Type 0 where
  pub issue : Issue
  pub identifier : Text
  pub state : Text
  pub stopped_at : ℕ
  pub suppressed_dispatches : ℕ
  pub first_suppressed_at : ℕ
  pub first_suppressed_state : Text
  pub first_suppressed_reason : Text

pub data Outcome : Type 0 where
  completed active_success_no_handoff failed reconcile_ineligible terminal_self_stop : Outcome

pub record SessionUsageEntry : Type 0 where
  pub issue_id : Text
  pub identifier : Text
  pub issue_url : Text
  pub state : Text
  pub session : LiveSession
  pub input_tokens : ℕ
  pub output_tokens : ℕ
  pub total_tokens : ℕ
  pub runtime_nanos : ℕ
  pub completed_at : ℕ
  pub outcome : Outcome

pub data RuntimeEventKind : Type 0 where
  candidate running completed failed input_blocked : RuntimeEventKind
  continuation_budget_blocked operator_terminal_stop : RuntimeEventKind
  operator_terminal_stop_dispatch_suppressed reconcile_stopped : RuntimeEventKind
  agent_handoff_reconcile_stopped active_success_no_handoff : RuntimeEventKind
  budget_exceeded dispatch_preflight_failed : RuntimeEventKind

pub record RuntimeEvent : Type 0 where
  pub kind : RuntimeEventKind
  pub issue_id : Text
  pub identifier : Text
  pub message : Text
  pub branch : Text
  pub pr_url : Text
  pub at : ℕ

pub record BudgetGuardrails : Type 0 where
  pub max_tokens_per_claim : ℕ
  pub max_runtime_seconds_per_claim : ℕ

-- Completed with completedOrder and CumulativeCompletedTotal, and its three likes: the set, its
-- insertion order, and the int64 counter.
pub record RecentSet : Type 0 where
  pub members : TextSet
  pub order : List Text
  pub total : ℕ

-- The map Running holds pointers: `running` gives an address and `runs` is the store. Settings of
-- type int are natural numbers, as every test of the source treats a negative one like zero.
pub record OrchestratorState : Type 0 where
  pub poll_interval_ms : ℕ
  pub max_concurrent_agents : ℕ
  pub max_concurrent_agents_by_state : Map ℤ
  pub max_continuation_turns : ℕ
  pub agent_default : Text
  pub budget_guardrails : BudgetGuardrails
  pub running : Map ℕ
  pub runs : ℕ → RunningEntry
  pub next_address : ℕ
  pub blocked : Map BlockedEntry
  pub claimed : TextSet
  pub claimed_issues : Map Issue
  pub retry_attempts : Map RetryEntry
  pub completed : RecentSet
  pub ended_session_usage : List SessionUsageEntry
  pub max_recent_completed : ℕ
  pub reconcile_stopped_with_progress : RecentSet
  pub agent_handoff_reconcile_stopped : RecentSet
  pub active_success_no_handoff : RecentSet
  pub operator_terminal_stops : Map OperatorTerminalStopEntry
  pub operator_terminal_stop_order : List Text
  pub max_recent_operator_terminal_stops : ℕ
  pub cumulative_operator_terminal_stops_total : ℕ
  pub codex_totals : CodexTotals
  pub codex_rate_limits : Option Fields
  pub cleaning_workspaces : TextSet
  pub recent_events : List RuntimeEvent
