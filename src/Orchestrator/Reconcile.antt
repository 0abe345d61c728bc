-- ===== src/Orchestrator/Reconcile.antt =====
-- actor_reconcile.go: the reconciliation of claimed issues that the tracker shows absent or inactive.
-- A Go loop over a map is a recursion over its entries, in the order of the association list.
use aiops_platform.Common.{
  ℕ, List, [], ◌∷◌, ◌++◌, Bool, true, false, Option, none, some, ◌&&◌, not, Text, if◌then◌else◌,
}
use aiops_platform.Common.Map.{Map, TextSet, lookup, has}
use aiops_platform.Tracker.{Issue}
use aiops_platform.Orchestrator.Types.{OrchestratorState, RunningEntry, RetryEntry, BlockedEntry}
use aiops_platform.Orchestrator.Transitions.{release_claim}
use aiops_platform.Orchestrator.Backoff.{is_continuation}
use aiops_platform.Orchestrator.Actor.{
  Followup, cancel_runs, Continuation, ReconciledCleanup, update_run, is_tracker_state,
  latch_operator_terminal_stop, agent_owned_terminal_state_matches, terminal_workspace_for_cleanup,
  continuation_for_retry,
}

-- clearAgentCurrentIssueTerminalHandoff.
abbrev pub clear_terminal_handoff : RunningEntry → RunningEntry
clear_terminal_handoff run = record run {
  agent_current_issue_terminal_handoff = false;
  agent_current_issue_terminal_handoff_state = [];
}

-- What reconcileInactiveRun writes to the run.
unfoldable pub inactive_entry : RunningEntry → Issue → TextSet → RunningEntry
inactive_entry run issue terminal_states =
    let terminal = is_tracker_state issue.state terminal_states in
    let seen = record run {
      issue = issue;
      reconcile_cleanup_workspace = terminal;
      reconcile_cancel = true;
    } in
    if terminal then seen else clear_terminal_handoff seen

unfoldable pub inactive_run :
    ℕ → Map Issue → TextSet → Text → ℕ → OrchestratorState → OrchestratorState × Bool
inactive_run now issues terminal_states id run s = elim (lookup id issues) [
  | none ↦ (s, false)
  | some issue ↦
      let written =
        update_run run (inactive_entry (s.runs run) issue terminal_states) (release_claim id s) in
      (
        if is_tracker_state issue.state terminal_states
              && not (agent_owned_terminal_state_matches (s.runs run) issue.state)
            then latch_operator_terminal_stop now id issue written
            else written,
        true,
      )
]

unfoldable pub inactive_runs :
    ℕ → Map Issue → TextSet → Map ℕ → OrchestratorState → OrchestratorState × List ℕ
inactive_runs now issues terminal_states [] s = (s, [])
inactive_runs now issues terminal_states ((id, run) ∷ rest) s =
    let (t, hit) = inactive_run now issues terminal_states id run s in
    let (u, canceled) = inactive_runs now issues terminal_states rest t in
    (u, if hit then run ∷ canceled else canceled)

abbrev cleanup_of : Text → Text → Text → Text → Text → Option Continuation → List ReconciledCleanup
cleanup_of id identifier path root state continuation =
    elim (terminal_workspace_for_cleanup id identifier path root state) [
      | none ↦ []
      | some w ↦ record { workspace = w; continuation = continuation } ∷ []
    ]

-- The part that reconcileInactiveRetry and reconcileInactiveBlocked share: a terminal issue is
-- latched and its cleanup collected; the claim is released in either case (`defer`).
unfoldable pub release_inactive :
    ℕ
    → TextSet
    → Text
    → Issue
    → List ReconciledCleanup
    → OrchestratorState
    → OrchestratorState × List ReconciledCleanup
release_inactive now terminal_states id issue cleanup s =
    if is_tracker_state issue.state terminal_states
    then (release_claim id (latch_operator_terminal_stop now id issue s), cleanup)
    else (release_claim id s, [])

unfoldable pub inactive_retry :
    ℕ
    → Map Issue
    → TextSet
    → Text
    → RetryEntry
    → OrchestratorState
    → OrchestratorState × List ReconciledCleanup
inactive_retry now issues terminal_states id retry s = elim (lookup id issues) [
  | none ↦ (s, [])
  | some issue ↦
      release_inactive now terminal_states id issue
        (cleanup_of id retry.identifier retry.workspace.path retry.workspace.root issue.state
          (continuation_for_retry retry))
        s
]

unfoldable pub inactive_retries :
    ℕ
    → Map Issue
    → TextSet
    → Map RetryEntry
    → OrchestratorState
    → OrchestratorState × List ReconciledCleanup
inactive_retries now issues terminal_states [] s = (s, [])
inactive_retries now issues terminal_states ((id, retry) ∷ rest) s =
    let (t, cleanup) = inactive_retry now issues terminal_states id retry s in
    let (u, cleanups) = inactive_retries now issues terminal_states rest t in
    (u, cleanup ++ cleanups)

unfoldable pub inactive_blocked :
    ℕ
    → Map Issue
    → TextSet
    → Text
    → BlockedEntry
    → OrchestratorState
    → OrchestratorState × List ReconciledCleanup
inactive_blocked now issues terminal_states id blocked s = elim (lookup id issues) [
  | none ↦ (s, [])
  | some issue ↦
      release_inactive now terminal_states id issue
        (cleanup_of id blocked.identifier blocked.workspace.path blocked.workspace.root issue.state
          none)
        s
]

unfoldable pub inactive_blockeds :
    ℕ
    → Map Issue
    → TextSet
    → Map BlockedEntry
    → OrchestratorState
    → OrchestratorState × List ReconciledCleanup
inactive_blockeds now issues terminal_states [] s = (s, [])
inactive_blockeds now issues terminal_states ((id, blocked) ∷ rest) s =
    let (t, cleanup) = inactive_blocked now issues terminal_states id blocked s in
    let (u, cleanups) = inactive_blockeds now issues terminal_states rest t in
    (u, cleanup ++ cleanups)

-- reconcileInactiveTrackerIssuesOp.apply.
unfoldable pub reconcile_inactive :
    ℕ → Map Issue → TextSet → OrchestratorState → OrchestratorState × Followup
reconcile_inactive now issues terminal_states s =
    let (t, canceled) = inactive_runs now issues terminal_states s.running s in
    let (u, retry_cleanups) = inactive_retries now issues terminal_states t.retry_attempts t in
    let (v, blocked_cleanups) = inactive_blockeds now issues terminal_states u.blocked u in
    (v, cancel_runs canceled (retry_cleanups ++ blocked_cleanups))

abbrev pub absent_entry : RunningEntry → RunningEntry
absent_entry run = clear_terminal_handoff (record run {
  reconcile_cancel = true;
  reconcile_cleanup_workspace = false;
  agent_current_issue_handoff = false;
})

unfoldable pub absent_runs : TextSet → Map ℕ → OrchestratorState → OrchestratorState × List ℕ
absent_runs absent [] s = (s, [])
absent_runs absent ((id, run) ∷ rest) s =
    let (t, canceled) = absent_runs absent rest (
      if has id absent
      then update_run run (absent_entry (s.runs run)) (release_claim id s)
      else s) in
    (t, if has id absent then run ∷ canceled else canceled)

unfoldable pub absent_blocked : TextSet → Map BlockedEntry → OrchestratorState → OrchestratorState
absent_blocked absent [] s = s
absent_blocked absent ((id, blocked) ∷ rest) s =
    absent_blocked absent rest (if has id absent then release_claim id s else s)

-- Failure and quota retries stay with their timers.
unfoldable pub absent_retries : TextSet → Map RetryEntry → OrchestratorState → OrchestratorState
absent_retries absent [] s = s
absent_retries absent ((id, retry) ∷ rest) s =
    absent_retries absent rest
      (if has id absent && is_continuation retry.kind then release_claim id s else s)

-- reconcileAbsentTrackerIssuesOp.apply.
unfoldable pub reconcile_absent : TextSet → OrchestratorState → OrchestratorState × Followup
reconcile_absent absent s =
    let (t, canceled) = absent_runs absent s.running s in
    let u = absent_blocked absent t.blocked t in
    (absent_retries absent u.retry_attempts u, cancel_runs canceled [])
