-- ===== src/Orchestrator/Usage.antt =====
-- state.go and state_usage.go: the totals of tokens and seconds, and the usage of ended sessions.
pub mod Retention
use aiops_platform.Common.{
  ℕ, ◌+◌, [], ◌∷◌, ◌++◌, ◌&&◌, ltb, length, take_last, Text, ℤ, pos, negsuc, pos_part,
  if◌then◌else◌,
}
use aiops_platform.Orchestrator.Types.{
  OrchestratorState, CodexTotals, RunningEntry, SessionUsageEntry, Outcome,
}
use aiops_platform.Orchestrator.Recent.{add_int64}

-- AddSeconds: a negative duration is ignored.
unfoldable pub add_seconds : ℤ → CodexTotals → CodexTotals
add_seconds (negsuc n) totals = totals
add_seconds (pos n) totals = record totals { running_nanos = totals.running_nanos + n }

-- elapsedSeconds, in nanoseconds.
abbrev pub elapsed_nanos : ℤ → ℕ
elapsed_nanos elapsed = pos_part elapsed

unfoldable pub add_token_delta : ℕ → ℕ → ℕ → CodexTotals → CodexTotals
add_token_delta input output total totals = record totals {
  input_tokens = add_int64 totals.input_tokens input;
  output_tokens = add_int64 totals.output_tokens output;
  total_tokens = add_int64 totals.total_tokens total;
}

unfoldable pub add_tokens : ℕ → ℕ → CodexTotals → CodexTotals
add_tokens input output totals = add_token_delta input output (add_int64 input output) totals

unfoldable pub record_codex_tokens : ℕ → ℕ → OrchestratorState → OrchestratorState
record_codex_tokens input output s = record s {
  codex_totals = add_tokens input output s.codex_totals;
}

-- The entry that recordEndedSessionUsage appends.
unfoldable pub session_usage : ℕ → Text → RunningEntry → ℤ → Outcome → SessionUsageEntry
session_usage now id run elapsed outcome = record {
  issue_id = id;
  identifier = run.identifier;
  issue_url = run.issue.url;
  state = run.issue.state;
  session = run.session;
  input_tokens = run.codex_input_tokens;
  output_tokens = run.codex_output_tokens;
  total_tokens = run.codex_total_tokens;
  runtime_nanos = elapsed_nanos elapsed;
  completed_at = now;
  outcome = outcome;
}

unfoldable pub record_ended_session_usage :
    ℕ → Text → RunningEntry → ℤ → Outcome → OrchestratorState → OrchestratorState
record_ended_session_usage now id run elapsed outcome s =
    let usage = s.ended_session_usage ++ session_usage now id run elapsed outcome ∷ [] in
    record s {
      ended_session_usage =
          if ltb 0 s.max_recent_completed && ltb s.max_recent_completed (length usage)
          then take_last s.max_recent_completed usage
          else usage;
    }

unfoldable pub count_seconds : ℤ → OrchestratorState → OrchestratorState
count_seconds elapsed s = record s { codex_totals = add_seconds elapsed s.codex_totals }
