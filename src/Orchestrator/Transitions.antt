-- ===== src/Orchestrator/Transitions.antt =====
-- The transition methods of state.go and state_usage.go: dispatch, the ends of a run, retry scheduling
-- and release. `now` is the clock. A method that compares `Running[id]` with the caller's pointer
-- returns false, and changes nothing, unless they are the same.
use aiops_platform.Common.{ℕ, Bool, true, false, none, some, ◌==◌, Text, ℤ, if◌then◌else◌}
use aiops_platform.Common.Map.{lookup, insert, delete}
use aiops_platform.Tracker.{Issue}
use aiops_platform.Orchestrator.Types.{OrchestratorState, RetryEntry, Outcome}
use aiops_platform.Orchestrator.Recent.{record_completed, record_active_success_no_handoff}
use aiops_platform.Orchestrator.Usage.{record_ended_session_usage, count_seconds}

-- `current, ok := s.Running[id]; ok && current == run`.
unfoldable pub is_current : Text → ℕ → OrchestratorState → Bool
is_current id run s = elim (lookup id s.running) [ some current ↦ current == run | none ↦ false ]

-- Running, Claimed and ClaimedIssues forget the id.
unfoldable pub drop_run : Text → OrchestratorState → OrchestratorState
drop_run id s = record s {
  running = delete id s.running;
  claimed = delete id s.claimed;
  claimed_issues = delete id s.claimed_issues;
}

-- Claimed and ClaimedIssues hold the id.
unfoldable pub claim : Text → Issue → OrchestratorState → OrchestratorState
claim id issue s = record s {
  claimed = insert id tt s.claimed;
  claimed_issues = insert id issue s.claimed_issues;
}

unfoldable pub begin_dispatch : Text → ℕ → OrchestratorState → OrchestratorState
begin_dispatch id run s =
    let claimed = claim id (s.runs run).issue s in
    record claimed {
      running = insert id run s.running;
      blocked = delete id s.blocked;
      retry_attempts = delete id s.retry_attempts;
    }

unfoldable pub finish_run_succeeded :
    ℕ → Text → ℕ → ℤ → OrchestratorState → OrchestratorState × Bool
finish_run_succeeded now id run elapsed s =
    if is_current id run s
    then (
      count_seconds elapsed (
          record_ended_session_usage now id (s.runs run) elapsed Outcome.completed
            (record_completed id (drop_run id s))),
      true,
    )
    else (s, false)

unfoldable pub finish_run_active_success_no_handoff :
    ℕ → Text → ℕ → ℤ → OrchestratorState → OrchestratorState × Bool
finish_run_active_success_no_handoff now id run elapsed s =
    if is_current id run s
    then (
      count_seconds elapsed (
          record_ended_session_usage now id (s.runs run) elapsed Outcome.active_success_no_handoff
            (record_active_success_no_handoff id (record_completed id (drop_run id s)))),
      true,
    )
    else (s, false)

unfoldable pub finish_run_aborted :
    ℕ → Text → ℕ → ℤ → Outcome → OrchestratorState → OrchestratorState × Bool
finish_run_aborted now id run elapsed outcome s =
    if is_current id run s
    then (
      count_seconds elapsed
          (drop_run id (record_ended_session_usage now id (s.runs run) elapsed outcome s)),
      true,
    )
    else (s, false)

unfoldable pub finish_run_failed : ℕ → Text → ℕ → ℤ → OrchestratorState → OrchestratorState × Bool
finish_run_failed now id run elapsed s = finish_run_aborted now id run elapsed Outcome.failed s

unfoldable pub finish_run_reconciled_cancelled :
    ℕ → Text → ℕ → ℤ → OrchestratorState → OrchestratorState × Bool
finish_run_reconciled_cancelled now id run elapsed s =
    finish_run_aborted now id run elapsed Outcome.reconcile_ineligible s

unfoldable pub finish_run_terminal_self_stop :
    ℕ → Text → ℕ → ℤ → OrchestratorState → OrchestratorState × Bool
finish_run_terminal_self_stop now id run elapsed s =
    finish_run_aborted now id run elapsed Outcome.terminal_self_stop s

-- The timer of an entry that is replaced or removed is stopped: a fire that comes too late is
-- dropped by `matching_retry_entry`.
unfoldable pub schedule_retry : RetryEntry → OrchestratorState → OrchestratorState
schedule_retry entry s =
    let claimed = claim entry.issue_id entry.issue s in
    record claimed { retry_attempts = insert entry.issue_id entry s.retry_attempts }

unfoldable pub release_claim : Text → OrchestratorState → OrchestratorState
release_claim id s = record s {
  claimed = delete id s.claimed;
  claimed_issues = delete id s.claimed_issues;
  blocked = delete id s.blocked;
  retry_attempts = delete id s.retry_attempts;
}
