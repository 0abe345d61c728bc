-- ===== src/Orchestrator/Actor.antt =====
-- actor.go, actor_cleanup.go, actor_reconcile.go: what the operations of the actor share, and the
-- followups that they hand to goroutines, as values. Here are also the small state methods
-- (IsCleaningWorkspace and its like) and recordOperatorTerminalStop.
use aiops_platform.Common.{
  [], ℕ, List, ◌++◌, Bool, true, false, Option, none, some, not, ◌==◌, ltb, Text, codes, is_empty,
  trim_space, to_lower, equal_fold, ℤ, if◌then◌else◌,
}
use aiops_platform.Common.Map.{TextSet, has, insert, delete}
use aiops_platform.Tracker.{Issue}
use aiops_platform.Orchestrator.Types.{
  OrchestratorState, RunningEntry, RuntimeEvent, RuntimeEventKind, Workspace, StartupFailure,
  RetryEntry, RetryKind,
}
use aiops_platform.Orchestrator.Recent.{record_event}
use aiops_platform.Orchestrator.OperatorStop.{record_operator_terminal_stop}
use aiops_platform.Orchestrator.Backoff.{RetryRequest, is_continuation}

-- What an operation reads of the Orchestrator: the scheduler's MaxBackoff, whether a candidate
-- lister and a workspace cleaner are wired, and whether the run context has ended.
pub record Actor : Type 0 where
  pub max_backoff : ℤ
  pub has_lister : Bool
  pub has_cleaner : Bool
  pub stopping : Bool

pub record ReconciledWorkspace : Type 0 where
  pub issue_id : Text
  pub identifier : Text
  pub path : Text
  pub root : Text
  pub state : Text
  pub reason : Text

-- continuationAfterSkippedCleanup.
pub record Continuation : Type 0 where
  pub issue : Issue
  pub identifier : Text
  pub attempt : ℕ
  pub continuation_turn_count : ℕ
  pub workspace : Workspace

pub record ReconciledCleanup : Type 0 where
  pub workspace : ReconciledWorkspace
  pub continuation : Option Continuation

pub record SpawnRequest : Type 0 where
  pub id : Text
  pub issue : Issue
  pub attempt : Option ℕ
  pub continuation_attempt : ℕ
  pub continuation_turn_count : ℕ
  pub clean_turn_budget : ℕ
  pub workspace : Workspace

-- scheduleRetryOp.
pub record ScheduleRequest : Type 0 where
  pub issue : Issue
  pub identifier : Text
  pub req : RetryRequest
  pub run_err : Text
  pub workspace : Workspace
  pub startup_failure : Option StartupFailure
  pub continuation_turn_count : ℕ

-- What `apply` returns for a goroutine to do: nothing, spawn a worker, submit a scheduleRetryOp,
-- clean up a workspace, wake the poll loop, fetch the candidates for a fired retry, or cancel
-- workers and clean up.
pub data Followup : Type 0 where
  idle wake : Followup
  spawn : SpawnRequest → Followup
  schedule : ScheduleRequest → Followup
  clean_up : ReconciledWorkspace → Option Continuation → Followup
  fetch_candidates : Text → ℕ → RetryKind → Text → Followup
  cancel_runs : List ℕ → List ReconciledCleanup → Followup

abbrev pub event : RuntimeEventKind → Text → Text → Text → RuntimeEvent
event kind id identifier message = record {
  kind = kind;
  issue_id = id;
  identifier = identifier;
  message = message;
  branch = [];
  pr_url = [];
  at = 0;
}

-- A write through a *RunningEntry.
unfoldable pub update_run : ℕ → RunningEntry → OrchestratorState → OrchestratorState
update_run run entry s = record s { runs = λ a. if a == run then entry else s.runs a }

-- `close(f.done)`
unfoldable pub close_done : ℕ → OrchestratorState → OrchestratorState
close_done run s = update_run run (record (s.runs run) { done = true }) s

unfoldable pub is_cleaning_workspace : Text → OrchestratorState → Bool
is_cleaning_workspace id s = has id s.cleaning_workspaces

unfoldable pub mark_cleaning_workspace : Text → OrchestratorState → OrchestratorState
mark_cleaning_workspace id s = record s { cleaning_workspaces = insert id tt s.cleaning_workspaces }

unfoldable pub unmark_cleaning_workspace : Text → OrchestratorState → OrchestratorState
unmark_cleaning_workspace id s = record s { cleaning_workspaces = delete id s.cleaning_workspaces }

-- isActiveTrackerState and isTerminalTrackerState; an empty set holds no state.
unfoldable pub is_tracker_state : Text → TextSet → Bool
is_tracker_state state states = has (to_lower (trim_space state)) states

-- The function recordOperatorTerminalStop of actor_reconcile.go.
unfoldable pub latch_operator_terminal_stop :
    ℕ → Text → Issue → OrchestratorState → OrchestratorState
latch_operator_terminal_stop now id issue s =
    let (stopped, entry, first) = record_operator_terminal_stop now now id issue s in
    if first
    then record_event now
        (event RuntimeEventKind.operator_terminal_stop id entry.identifier
          (codes "operator terminal state observed: " ++ entry.state))
        stopped
    else stopped

unfoldable pub run_has_completed_turn : RunningEntry → Bool
run_has_completed_turn run = ltb 0 run.session.turn_count

unfoldable pub run_has_current_issue_handoff : RunningEntry → Bool
run_has_current_issue_handoff run = run.agent_current_issue_handoff

unfoldable pub agent_owned_terminal_state_matches : RunningEntry → Text → Bool
agent_owned_terminal_state_matches run state =
    let owned_state = trim_space run.agent_current_issue_terminal_handoff_state in
    if not run.agent_current_issue_terminal_handoff
    then false
    else if is_empty owned_state
    then false
    else if is_empty (trim_space state)
    then false
    else equal_fold owned_state (trim_space state)

unfoldable pub terminal_workspace_for_cleanup :
    Text → Text → Text → Text → Text → Option ReconciledWorkspace
terminal_workspace_for_cleanup id identifier path root state =
    if is_empty (trim_space path)
    then none
    else some (record {
      issue_id = id;
      identifier = identifier;
      path = trim_space path;
      root = trim_space root;
      state = state;
      reason = codes "terminal";
    })

-- continuationTurnDelta.
unfoldable pub continuation_turn_delta : RunningEntry → ℕ
continuation_turn_delta run = if ltb 0 run.session.turn_count then run.session.turn_count else 1

unfoldable pub reconciled_workspace_cleanup_followup :
    Actor → Text → RunningEntry → Option Continuation → Followup
reconciled_workspace_cleanup_followup o id entry continuation =
    if not entry.reconcile_cleanup_workspace
    then idle
    else elim (terminal_workspace_for_cleanup id entry.identifier entry.workspace.path
        entry.workspace.root entry.issue.state) [
          | none ↦ idle
          | some w ↦ if o.has_cleaner then clean_up w continuation else idle
        ]

unfoldable pub reconciled_workspace_cleanup : Actor → Text → RunningEntry → Followup
reconciled_workspace_cleanup o id entry = reconciled_workspace_cleanup_followup o id entry none

-- continuationForRetry.
unfoldable pub continuation_for_retry : RetryEntry → Option Continuation
continuation_for_retry retry =
    if is_continuation retry.kind
    then some (record {
      issue = retry.issue;
      identifier = retry.identifier;
      attempt = retry.attempt;
      continuation_turn_count = retry.continuation_turn_count;
      workspace = retry.workspace;
    })
    else none
