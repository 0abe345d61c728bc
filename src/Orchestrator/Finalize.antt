-- ===== src/Orchestrator/Finalize.antt =====
-- actor_finalize.go: the operation that applies a worker's result.
pub mod Ops
pub mod Blocks
pub mod CleanExit
pub mod AbnormalExit
pub mod Done
use aiops_platform.Common.{
  ℕ, suc, ◌+◌, ◌-◌, ◌*◌, ◌/◌, ◌%◌, List, [], ◌∷◌, ◌++◌, Bool, true, false, Option, none, some, ◌&&◌,
  ◌||◌, not, ltb, ◌==◌, is_some, Text, codes, decimal, is_empty, trim_space, ℤ, pos, is_zero,
  if◌then◌else◌,
}
use aiops_platform.Tracker.{Issue}
use aiops_platform.Orchestrator.Types.{
  OrchestratorState, RunningEntry, RuntimeEventKind, RetryKind, StartupFailure,
}
use aiops_platform.Orchestrator.Recent.{
  record_event, record_reconcile_stopped_with_progress, record_agent_handoff_reconcile_stopped,
}
use aiops_platform.Orchestrator.Transitions.{
  claim, finish_run_succeeded, finish_run_active_success_no_handoff, finish_run_failed,
  finish_run_reconciled_cancelled, finish_run_terminal_self_stop,
}
use aiops_platform.Orchestrator.Usage.{elapsed_nanos}
use aiops_platform.Orchestrator.Block.{block_run, block_run_with_reason}
use aiops_platform.Orchestrator.Dispatch.{
  continuation_budget_exceeded, continuation_budget_error, continuation_budget_block_method,
}
use aiops_platform.Orchestrator.Spawn.{next_attempt}
use aiops_platform.Orchestrator.Actor.{
  Actor, Followup, idle, schedule, ScheduleRequest, Continuation, event, update_run, close_done,
  latch_operator_terminal_stop, run_has_completed_turn, run_has_current_issue_handoff,
  agent_owned_terminal_state_matches, continuation_turn_delta, reconciled_workspace_cleanup,
  reconciled_workspace_cleanup_followup,
}
use aiops_platform.Orchestrator.Finalize.Ops.{
  QuotaBackoff, WorkerError, IssueStateSnapshot, WorkerResult, FinalizeOp, elapsed_of, run_of,
  close_with, followup_if, is_input_required, error_text_or,
}
use Blocks.{apply_input_required_block, apply_budget_exceeded_block}
use CleanExit.{apply_clean_exit}
use AbnormalExit.{apply_abnormal_exit}

unfoldable pub apply_exit :
    Actor → ℕ → FinalizeOp → ℤ → OrchestratorState → OrchestratorState × Followup
apply_exit o now f elapsed s = elim f.result.err [
  | none ↦ apply_clean_exit o now f elapsed s
  | some err ↦ apply_abnormal_exit o now f elapsed err s
]

-- finalizeRunOp.apply.
unfoldable pub finalize : Actor → ℕ → FinalizeOp → OrchestratorState → OrchestratorState × Followup
finalize o now f s =
    let elapsed = elapsed_of now f in
    elim (apply_input_required_block now f elapsed s) [
      | some t ↦ (t, idle)
      | none ↦ elim (apply_budget_exceeded_block now f elapsed s) [
        | some t ↦ (t, idle)
        | none ↦ apply_exit o now f elapsed s
      ]
    ]
