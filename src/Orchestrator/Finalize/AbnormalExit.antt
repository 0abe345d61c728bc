-- ===== src/Orchestrator/Finalize/AbnormalExit.antt =====
-- actor_finalize.go: the routes of an abnormal exit.
use aiops_platform.Common.{ℕ, Option, none, some, ◌&&◌, Text, codes, ℤ, pos, if◌then◌else◌}
use aiops_platform.Orchestrator.Types.{OrchestratorState, RunningEntry, RuntimeEventKind, RetryKind}
use aiops_platform.Orchestrator.Recent.{
  record_event, record_reconcile_stopped_with_progress, record_agent_handoff_reconcile_stopped,
}
use aiops_platform.Orchestrator.Transitions.{
  claim, finish_run_failed, finish_run_reconciled_cancelled,
}
use aiops_platform.Orchestrator.Spawn.{next_attempt}
use aiops_platform.Orchestrator.Actor.{
  Actor, Followup, schedule, ScheduleRequest, event, run_has_completed_turn,
  run_has_current_issue_handoff, reconciled_workspace_cleanup,
}
use aiops_platform.Orchestrator.Finalize.Ops.{
  QuotaBackoff, WorkerError, FinalizeOp, run_of, close_with, followup_if,
}

-- The progress and handoff that a reconcile-stopped run is recorded for.
abbrev record_handoff : ℕ → FinalizeOp → OrchestratorState → OrchestratorState
record_handoff now f t =
    record_event now
      (event RuntimeEventKind.agent_handoff_reconcile_stopped f.id f.identifier
        (codes "reconcile stopped run after agent-side current-issue state handoff"))
      (record_agent_handoff_reconcile_stopped f.id t)

abbrev record_progress : ℕ → FinalizeOp → OrchestratorState → OrchestratorState
record_progress now f t =
    record_event now
      (event RuntimeEventKind.reconcile_stopped f.id f.identifier
        (codes "reconcile stopped run after ≥1 completed turn"))
      (record_reconcile_stopped_with_progress f.id t)

unfoldable pub record_reconcile_stop :
    ℕ → FinalizeOp → RunningEntry → OrchestratorState → OrchestratorState
record_reconcile_stop now f run t =
    let progressed = if run_has_completed_turn run then record_progress now f t else t in
    if run_has_current_issue_handoff run then record_handoff now f progressed else progressed

-- The body that applyReconciledCancelCleanup and applyReconcileCancel share behind their guards.
unfoldable pub cancel_reconciled :
    Actor → ℕ → FinalizeOp → ℤ → OrchestratorState → OrchestratorState × Followup
cancel_reconciled o now f elapsed s =
    let run = run_of f s in
    let finished = finish_run_reconciled_cancelled now f.id f.entry elapsed s in
    (
      close_with f finished (record_reconcile_stop now f run),
      followup_if finished (reconciled_workspace_cleanup o f.id run),
    )

-- The retry that follows an abnormal exit keeps the claim.
unfoldable pub apply_retry :
    ℕ → FinalizeOp → ℤ → Text → ScheduleRequest → OrchestratorState → OrchestratorState × Followup
apply_retry now f elapsed run_err request s =
    let finished = finish_run_failed now f.id f.entry elapsed s in
    (
      close_with f finished (λ t.
          claim f.id (run_of f s).issue
            (record_event now (event RuntimeEventKind.failed f.id f.identifier run_err) t)),
      followup_if finished (schedule request),
    )

abbrev quota_attempt : Option ℕ → ℕ
quota_attempt none = 0
quota_attempt (some attempt) = attempt

unfoldable pub apply_quota_backoff :
    ℕ → FinalizeOp → ℤ → QuotaBackoff → OrchestratorState → OrchestratorState × Followup
apply_quota_backoff now f elapsed quota s =
    apply_retry now f elapsed quota.message
      (record {
        issue = (run_of f s).issue;
        identifier = f.identifier;
        req = record {
          kind = RetryKind.quota_backoff;
          attempt = quota_attempt f.attempt;
          delay_override = quota.retry_after;
        };
        run_err = quota.message;
        workspace = (run_of f s).workspace;
        startup_failure = none;
        continuation_turn_count = 0;
      })
      s

unfoldable pub apply_failure_retry :
    ℕ → FinalizeOp → ℤ → Text → OrchestratorState → OrchestratorState × Followup
apply_failure_retry now f elapsed run_err s =
    apply_retry now f elapsed run_err
      (record {
        issue = (run_of f s).issue;
        identifier = f.identifier;
        req = record {
          kind = RetryKind.failure;
          attempt = next_attempt f.attempt;
          delay_override = pos 0;
        };
        run_err = run_err;
        workspace = (run_of f s).workspace;
        startup_failure = (run_of f s).last_startup_failure;
        continuation_turn_count = 0;
      })
      s

-- The routes of an abnormal exit, in their order.
unfoldable pub apply_abnormal_exit :
    Actor → ℕ → FinalizeOp → ℤ → WorkerError → OrchestratorState → OrchestratorState × Followup
apply_abnormal_exit o now f elapsed err s =
    let run = run_of f s in
    if run.reconcile_cleanup_workspace && run_has_completed_turn run
    then cancel_reconciled o now f elapsed s
    else elim err.quota [
      | some quota ↦ apply_quota_backoff now f elapsed quota s
      | none ↦
          if run.reconcile_cancel
          then cancel_reconciled o now f elapsed s
          else apply_failure_retry now f elapsed err.message s
    ]
