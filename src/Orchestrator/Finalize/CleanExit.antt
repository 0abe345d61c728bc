-- ===== src/Orchestrator/Finalize/CleanExit.antt =====
-- actor_finalize.go: the routes of a clean exit.
use aiops_platform.Common.{
  ℕ, ◌+◌, [], Bool, true, Option, none, some, ◌&&◌, ◌||◌, not, is_some, codes, is_empty, trim_space,
  ℤ, pos, if◌then◌else◌,
}
use aiops_platform.Orchestrator.Types.{OrchestratorState, RunningEntry, RuntimeEventKind, RetryKind}
use aiops_platform.Orchestrator.Recent.{record_event}
use aiops_platform.Orchestrator.Transitions.{
  claim, finish_run_succeeded, finish_run_active_success_no_handoff, finish_run_terminal_self_stop,
}
use aiops_platform.Orchestrator.Block.{block_run_with_reason}
use aiops_platform.Orchestrator.Dispatch.{
  continuation_budget_exceeded, continuation_budget_error, continuation_budget_block_method,
}
use aiops_platform.Orchestrator.Actor.{
  Actor, Followup, idle, schedule, Continuation, event, update_run, latch_operator_terminal_stop,
  run_has_completed_turn, run_has_current_issue_handoff, agent_owned_terminal_state_matches,
  continuation_turn_delta, reconciled_workspace_cleanup, reconciled_workspace_cleanup_followup,
}
use aiops_platform.Orchestrator.Finalize.Ops.{
  IssueStateSnapshot, WorkerResult, FinalizeOp, run_of, close_with, followup_if,
}

unfoldable pub apply_terminal_self_stop :
    Actor
    → ℕ
    → FinalizeOp
    → ℤ
    → IssueStateSnapshot
    → Bool
    → OrchestratorState
    → OrchestratorState × Followup
apply_terminal_self_stop o now f elapsed snapshot record_stop s =
    let run = run_of f s in
    let issue =
      if is_empty (trim_space snapshot.state)
      then run.issue
      else record (run.issue) { state = snapshot.state } in
    let latched = if record_stop then latch_operator_terminal_stop now f.id issue s else s in
    let flagged = record run { issue = issue; reconcile_cleanup_workspace = true } in
    let finished =
      finish_run_terminal_self_stop now f.id f.entry elapsed (update_run f.entry flagged latched) in
    (
      close_with f finished (λ t. t),
      followup_if finished (reconciled_workspace_cleanup o f.id flagged),
    )

abbrev next_turn_count : RunningEntry → ℕ
next_turn_count run = run.continuation_turn_count + continuation_turn_delta run

abbrev completed_event : ℕ → FinalizeOp → OrchestratorState → OrchestratorState
completed_event now f =
    record_event now
      (event RuntimeEventKind.completed f.id f.identifier (codes "worker exited cleanly"))

-- The branch of applyCleanExit for a run that reconciliation flagged for cleanup.
unfoldable pub apply_clean_cleanup :
    Actor → ℕ → FinalizeOp → ℤ → OrchestratorState → OrchestratorState × Followup
apply_clean_cleanup o now f elapsed s =
    let run = run_of f s in
    let continuation : Continuation = record {
      issue = run.issue;
      identifier = run.identifier;
      attempt = run.continuation_attempt + 1;
      continuation_turn_count = next_turn_count run;
      workspace = run.workspace;
    } in
    let finished = finish_run_succeeded now f.id f.entry elapsed s in
    (
      close_with f finished (completed_event now f),
      followup_if finished (reconciled_workspace_cleanup_followup o f.id run (some continuation)),
    )

unfoldable pub apply_continuation_budget_block :
    ℕ → FinalizeOp → ℤ → ℕ → OrchestratorState → OrchestratorState
apply_continuation_budget_block now f elapsed turn_count s =
    let run_err = continuation_budget_error turn_count s.max_continuation_turns in
    close_with f
      (block_run_with_reason now f.id f.entry now continuation_budget_block_method run_err elapsed
        s)
      (record_event now
        (event RuntimeEventKind.continuation_budget_blocked f.id f.identifier run_err))

unfoldable pub should_record_active_success_no_handoff : FinalizeOp → RunningEntry → Bool
should_record_active_success_no_handoff f run =
    not (is_some f.result.issue_exit_state)
    && not (run_has_current_issue_handoff run)
    && not (is_empty (trim_space run.issue.state))

abbrev no_handoff_event : ℕ → FinalizeOp → OrchestratorState → OrchestratorState
no_handoff_event now f = record_event now (
    event RuntimeEventKind.active_success_no_handoff f.id f.identifier
      (codes "worker exited cleanly while issue remained active with no agent handoff"))

-- A transition with what is logged if it was made.
unfoldable pub logged :
    OrchestratorState × Bool → (OrchestratorState → OrchestratorState) → OrchestratorState × Bool
logged (t, made) after = (if made then after t else t, made)

unfoldable pub finish_clean_continuation :
    ℕ → FinalizeOp → ℤ → OrchestratorState → OrchestratorState × Bool
finish_clean_continuation now f elapsed s =
    if should_record_active_success_no_handoff f (run_of f s)
    then logged (finish_run_active_success_no_handoff now f.id f.entry elapsed s)
        (λ t. no_handoff_event now f (completed_event now f t))
    else logged (finish_run_succeeded now f.id f.entry elapsed s) (completed_event now f)

unfoldable pub apply_clean_continuation :
    ℕ → FinalizeOp → ℤ → OrchestratorState → OrchestratorState × Followup
apply_clean_continuation now f elapsed s =
    let run = run_of f s in
    let finished = finish_clean_continuation now f elapsed s in
    (
      close_with f finished (claim f.id run.issue),
      followup_if finished (
          schedule (record {
            issue = run.issue;
            identifier = f.identifier;
            req = record {
              kind = RetryKind.continuation;
              attempt = run.continuation_attempt + 1;
              delay_override = pos 0;
            };
            run_err = [];
            workspace = run.workspace;
            startup_failure = none;
            continuation_turn_count = next_turn_count run;
          })),
    )

-- The terminal snapshot, if the exit has one.
abbrev pub terminal_exit : WorkerResult → Option IssueStateSnapshot
terminal_exit result = elim result.issue_exit_state [
  | none ↦ none
  | some snapshot ↦ if snapshot.terminal then some snapshot else none
]

unfoldable pub apply_clean_exit :
    Actor → ℕ → FinalizeOp → ℤ → OrchestratorState → OrchestratorState × Followup
apply_clean_exit o now f elapsed s =
    let run = run_of f s in
    elim (terminal_exit f.result) [
      | some snapshot ↦
          apply_terminal_self_stop o now f elapsed snapshot
            (snapshot.operator_terminal_stop
              || not (agent_owned_terminal_state_matches run snapshot.state))
            s
      | none ↦
          if run.reconcile_cleanup_workspace && run_has_completed_turn run
          then apply_clean_cleanup o now f elapsed s
          else if not (is_some f.result.issue_exit_state)
              && continuation_budget_exceeded s.max_continuation_turns (next_turn_count run)
          then (apply_continuation_budget_block now f elapsed (next_turn_count run) s, idle)
          else apply_clean_continuation now f elapsed s
    ]
