-- ===== src/Orchestrator/Cleanup.antt =====
-- actor_cleanup.go: the reservation of a workspace removal and the recheck before it.
pub mod Exclusion
use aiops_platform.Common.{
  ℕ, [], suc, ◌+◌, Bool, true, false, Option, none, some, ◌||◌, not, ltb, Text, is_empty,
  trim_space, ℤ, pos, if◌then◌else◌,
}
use aiops_platform.Common.Map.{TextSet, lookup, has}
use aiops_platform.Tracker.{IssueState, IssueStateOutcome}
use aiops_platform.Orchestrator.Types.{OrchestratorState, RetryKind}
use aiops_platform.Orchestrator.Counts.{is_claimed}
use aiops_platform.Orchestrator.Backoff.{next_delay}
use aiops_platform.Orchestrator.Actor.{
  Actor, Continuation, ReconciledWorkspace, is_cleaning_workspace, mark_cleaning_workspace,
  unmark_cleaning_workspace, is_tracker_state,
}

-- beginWorkspaceCleanupOp.apply: false where the issue is claimed or being cleaned already.
unfoldable pub begin_workspace_cleanup : Text → OrchestratorState → OrchestratorState × Bool
begin_workspace_cleanup id s =
    if is_claimed id s || is_cleaning_workspace id s
    then (s, false)
    else (mark_cleaning_workspace id s, true)

-- endWorkspaceCleanupOp.apply.
unfoldable pub end_workspace_cleanup : Text → OrchestratorState → OrchestratorState
end_workspace_cleanup id s = unmark_cleaning_workspace id s

pub data Verdict : Type 0 where
  unknown current_terminal current_non_terminal absent : Verdict

-- What the resolver answered: no resolver is wired, the fetch failed, or the row of the id.
pub data Resolved : Type 0 where
  no_resolver fetch_failed : Resolved
  row : Option IssueState → Resolved

pub record Verified : Type 0 where
  pub state : Text
  pub verdict : Verdict

abbrev verified : Text → Verdict → Verified
verified state verdict = record { state = state; verdict = verdict }

-- verifyReconciledWorkspaceStillTerminal.
unfoldable pub verify_still_terminal : ReconciledWorkspace → Resolved → TextSet → Verified
verify_still_terminal w no_resolver terminal_states = verified w.state current_terminal
verify_still_terminal w fetch_failed terminal_states = verified [] Verdict.unknown
verify_still_terminal w (row none) terminal_states = verified [] Verdict.unknown
verify_still_terminal w (row (some st)) terminal_states = elim st.outcome [
  | IssueStateOutcome.unknown ↦ verified [] Verdict.unknown
  | IssueStateOutcome.absent ↦ verified [] Verdict.absent
  | IssueStateOutcome.current ↦
      if is_empty (trim_space st.state)
      then verified [] Verdict.unknown
      else if is_tracker_state st.state terminal_states
      then verified st.state current_terminal
      else verified st.state current_non_terminal
]

-- What an attempt does behind a successful reservation: leave the directory, remove it, resume a
-- continuation or wake the poll loop, try again after a delay, or give up.
pub data CleanupStep : Type 0 where
  leave give_up wake_poll : CleanupStep
  remove : ReconciledWorkspace → CleanupStep
  resume : Continuation → CleanupStep
  retry_after : ℕ → ℕ → CleanupStep

abbrev pub max_reconciled_cleanup_state_retries : ℕ
max_reconciled_cleanup_state_retries = 8

-- retryReconciledWorkspaceCleanup.
unfoldable pub retry_cleanup : Actor → ℕ → CleanupStep
retry_cleanup o attempt =
    if ltb max_reconciled_cleanup_state_retries attempt
    then give_up
    else retry_after attempt (
        next_delay o.max_backoff
          (record { kind = RetryKind.failure; attempt = attempt; delay_override = pos 0 }))

-- continueAfterSkippedTerminalCleanup.
abbrev pub continue_after_skipped : Option Continuation → CleanupStep
continue_after_skipped none = wake_poll
continue_after_skipped (some continuation) = resume continuation

-- The body of runReconciledWorkspaceCleanupAttempt between the reservation and its end; `stopped`
-- is hasOperatorTerminalStop.
unfoldable pub cleanup_attempt :
    Actor → ReconciledWorkspace → Option Continuation → ℕ → Verified → Bool → CleanupStep
cleanup_attempt o w continuation attempt v stopped = elim v.verdict [
  | Verdict.unknown ↦ retry_cleanup o (attempt + 1)
  | absent ↦ leave
  | current_non_terminal ↦ if stopped then leave else continue_after_skipped continuation
  | current_terminal ↦
      remove (if is_empty (trim_space v.state) then w else record w { state = v.state })
]
