-- ===== src/Orchestrator/Finalize/Done.antt =====
-- actor_finalize.go: every route of a worker's exit closes the channel Done of its run.
use aiops_platform.Common.{
  ◌&&◌, not, inr, inl, Bool-cases, if_intro, arith, elim_intro, true, ◌≡◌, Bool, ℤ, ℕ, none, some,
  Text,
}
use aiops_platform.Orchestrator.Finalize.Ops.{
  close_with, is_input_required, run_of, elapsed_of, QuotaBackoff, WorkerError, IssueStateSnapshot,
  FinalizeOp,
}
use aiops_platform.Orchestrator.Actor.{idle, Followup, update_run, Actor, close_done}
use aiops_platform.Orchestrator.Finalize.{apply_exit, finalize}
use aiops_platform.Orchestrator.Types.{OrchestratorState}
use aiops_platform.Orchestrator.Finalize.CleanExit.{
  terminal_exit, apply_clean_exit, apply_clean_continuation, apply_continuation_budget_block,
  apply_clean_cleanup, apply_terminal_self_stop,
}
use aiops_platform.Orchestrator.Finalize.AbnormalExit.{
  apply_retry, apply_abnormal_exit, apply_failure_retry, apply_quota_backoff, cancel_reconciled,
}
use aiops_platform.Orchestrator.Finalize.Blocks.{
  apply_budget_exceeded_block, apply_input_required_block,
}

-- The channel of the run is closed after a handler.
record IsDone (f : FinalizeOp) (t : OrchestratorState × Followup) : Type 0 where
  closed : (t.0.runs f.entry).done ≡ true

close_done-IsDone :
    (f : FinalizeOp) (t : OrchestratorState) (fu : Followup) → IsDone f (close_done f.entry t, fu)
unfolding close_done update_run
close_done-IsDone f t fu = record { closed = ground arith }

module _ (o : Actor) (now : ℕ) (f : FinalizeOp) (elapsed : ℤ) (s : OrchestratorState) where
  self_stop-IsDone :
      (snapshot : IssueStateSnapshot) (record_stop : Bool)
      → IsDone f (apply_terminal_self_stop o now f elapsed snapshot record_stop s)
  unfolding apply_terminal_self_stop close_with
  self_stop-IsDone snapshot record_stop = close_done-IsDone f _ _

  cleanup-IsDone : IsDone f (apply_clean_cleanup o now f elapsed s)
  unfolding apply_clean_cleanup close_with
  cleanup-IsDone = close_done-IsDone f _ _

  budget-IsDone :
      (turn_count : ℕ) → IsDone f (apply_continuation_budget_block now f elapsed turn_count s, idle)
  unfolding apply_continuation_budget_block close_with
  budget-IsDone turn_count = close_done-IsDone f _ _

  continuation-IsDone : IsDone f (apply_clean_continuation now f elapsed s)
  unfolding apply_clean_continuation close_with
  continuation-IsDone = close_done-IsDone f _ _

  cancel-IsDone : IsDone f (cancel_reconciled o now f elapsed s)
  unfolding cancel_reconciled close_with
  cancel-IsDone = close_done-IsDone f _ _

  quota-IsDone : (quota : QuotaBackoff) → IsDone f (apply_quota_backoff now f elapsed quota s)
  unfolding apply_quota_backoff apply_retry close_with
  quota-IsDone quota = close_done-IsDone f _ _

  failure-IsDone : (run_err : Text) → IsDone f (apply_failure_retry now f elapsed run_err s)
  unfolding apply_failure_retry apply_retry close_with
  failure-IsDone run_err = close_done-IsDone f _ _

  clean_exit-IsDone : IsDone f (apply_clean_exit o now f elapsed s)
  unfolding apply_clean_exit
  clean_exit-IsDone =
      elim_intro (IsDone f) (terminal_exit f.result)
        (if_intro (IsDone f) _ cleanup-IsDone
          (if_intro (IsDone f) _ (budget-IsDone _) continuation-IsDone))
        (λ snapshot. self_stop-IsDone snapshot _)

  abnormal_exit-IsDone : (err : WorkerError) → IsDone f (apply_abnormal_exit o now f elapsed err s)
  unfolding apply_abnormal_exit
  abnormal_exit-IsDone err = if_intro (IsDone f) _ cancel-IsDone (
      elim_intro (IsDone f) err.quota
        (if_intro (IsDone f) _ cancel-IsDone (failure-IsDone err.message)) quota-IsDone)

  exit-IsDone : IsDone f (apply_exit o now f elapsed s)
  unfolding apply_exit
  exit-IsDone = elim_intro (IsDone f) f.result.err clean_exit-IsDone abnormal_exit-IsDone

  input_block-IsDone :
      (u : OrchestratorState × Followup)
      → IsDone f u
      → IsDone f
          (elim (apply_input_required_block now f elapsed s) [ none ↦ u | some t ↦ (t, idle) ])
  unfolding apply_input_required_block close_with
  input_block-IsDone u h =
      elim (Bool-cases (
        not (run_of f s).input_required
        && not f.result.input_required
        && not (is_input_required f.result.err))) [
          | inl e ↦ rw e h
          | inr e ↦ rw e (close_done-IsDone f _ _)
        ]

  budget_block-IsDone :
      (u : OrchestratorState × Followup)
      → IsDone f u
      → IsDone f
          (elim (apply_budget_exceeded_block now f elapsed s) [ none ↦ u | some t ↦ (t, idle) ])
  unfolding apply_budget_exceeded_block close_with
  budget_block-IsDone u h = elim (Bool-cases (run_of f s).budget_exceeded) [
    | inl e ↦ rw e (close_done-IsDone f _ _)
    | inr e ↦ rw e h
  ]

pub finalize-closes_done :
    (o : Actor) (now : ℕ) (f : FinalizeOp) (s : OrchestratorState)
    → ((finalize o now f s).0.runs f.entry).done ≡ true
unfolding finalize
finalize-closes_done o now f s =
    let elapsed = elapsed_of now f in
    (input_block-IsDone o now f elapsed s _
      (budget_block-IsDone o now f elapsed s _ (exit-IsDone o now f elapsed s))).closed
