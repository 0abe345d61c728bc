-- ===== src/Orchestrator/Block.antt =====
-- BlockRun, BlockRunWithReason and BlockRetryWithReason of state.go.
use aiops_platform.Common.{
  ℕ, [], Bool, true, false, none, some, ◌==◌, Text, is_empty, ℤ, if◌then◌else◌,
}
use aiops_platform.Common.Map.{lookup, insert, delete}
use aiops_platform.Tracker.{Issue}
use aiops_platform.Orchestrator.Types.{
  OrchestratorState, RunningEntry, BlockedEntry, RetryEntry, LiveSession,
}
use aiops_platform.Orchestrator.Usage.{elapsed_nanos, count_seconds}
use aiops_platform.Orchestrator.Transitions.{is_current, claim}

-- `if at.IsZero() { at = time.Now().UTC() }`
abbrev pub or_now : ℕ → ℕ → ℕ
or_now now at = if at == 0 then now else at

unfoldable pub blocked_run : RunningEntry → ℕ → Text → Text → ℤ → BlockedEntry
blocked_run run blocked_at method run_err elapsed = record {
  issue = run.issue;
  identifier = run.identifier;
  blocked_at = blocked_at;
  workspace = run.workspace;
  session = run.session;
  last_event_at = run.last_event_at;
  codex_input_tokens = run.codex_input_tokens;
  codex_output_tokens = run.codex_output_tokens;
  codex_total_tokens = run.codex_total_tokens;
  runtime_nanos = elapsed_nanos elapsed;
  method = method;
  error = run_err;
}

unfoldable pub block_run_with_reason :
    ℕ → Text → ℕ → ℕ → Text → Text → ℤ → OrchestratorState → OrchestratorState × Bool
block_run_with_reason now id run blocked_at method run_err elapsed s =
    let entry = blocked_run (s.runs run) (or_now now blocked_at) method run_err elapsed in
    let claimed = claim id (s.runs run).issue s in
    if is_current id run s
    then (
      count_seconds elapsed (record claimed {
        running = delete id s.running;
        retry_attempts = delete id s.retry_attempts;
        blocked = insert id entry s.blocked;
      }),
      true,
    )
    else (s, false)

unfoldable pub block_run :
    ℕ → Text → ℕ → ℕ → Text → ℤ → OrchestratorState → OrchestratorState × Bool
block_run now id run blocked_at run_err elapsed s =
    block_run_with_reason now id run blocked_at (s.runs run).input_required_method run_err elapsed s

abbrev empty_session : LiveSession
empty_session = record {
  session_id = [];
  thread_id = [];
  turn_id = [];
  turn_count = 0;
  codex_app_server_pid = 0;
  agent_provider = [];
  agent_model = [];
  workflow_source = [];
  workflow_path = [];
}

unfoldable pub blocked_retry : RetryEntry → Issue → ℕ → Text → Text → BlockedEntry
blocked_retry retry issue blocked_at method run_err = record {
  issue = issue;
  identifier = if is_empty issue.identifier then retry.identifier else issue.identifier;
  blocked_at = blocked_at;
  workspace = retry.workspace;
  session = empty_session;
  last_event_at = 0;
  codex_input_tokens = 0;
  codex_output_tokens = 0;
  codex_total_tokens = 0;
  runtime_nanos = 0;
  method = method;
  error = run_err;
}

unfoldable pub is_current_retry : Text → RetryEntry → OrchestratorState → Bool
is_current_retry id retry s = elim (lookup id s.retry_attempts) [
  | some current ↦ current.address == retry.address
  | none ↦ false
]

unfoldable pub block_retry_with_reason :
    ℕ → Text → RetryEntry → Issue → ℕ → Text → Text → OrchestratorState → OrchestratorState × Bool
block_retry_with_reason now id retry issue blocked_at method run_err s =
    let known = if is_empty issue.id then retry.issue else issue in
    let entry = blocked_retry retry known (or_now now blocked_at) method run_err in
    let claimed = claim id known s in
    if is_current_retry id retry s
    then (
      record claimed {
        retry_attempts = delete id s.retry_attempts;
        blocked = insert id entry s.blocked;
      },
      true,
    )
    else (s, false)
