-- ===== src/Orchestrator/System/Finalized.antt =====
-- actor_finalize.go: the move that a worker's exit makes at any issue `j`, on every route.
use aiops_platform.Orchestrator.System.Owners.{Moves}
use aiops_platform.Orchestrator.Finalize.Ops.{run_of}
use aiops_platform.Orchestrator.System.Routes.{
  cleanup-free, record_event-Logs, continuation-Moved, retry-Moved, cancel-Moved, blocked-Moved,
}
use aiops_platform.Orchestrator.Finalize.AbnormalExit.{
  apply_abnormal_exit, apply_failure_retry, apply_quota_backoff,
}
use aiops_platform.Orchestrator.Finalize.{finalize, apply_exit}
use aiops_platform.Orchestrator.Finalize.Blocks.{
  apply_input_required_block, apply_budget_exceeded_block,
}
use aiops_platform.Orchestrator.Finalize.Ops.{
  WorkerError, QuotaBackoff, is_input_required, elapsed_of,
}
use aiops_platform.Orchestrator.Block.{block_run}
use aiops_platform.Common.{
  ◌&&◌, not, trim_space, is_empty, true, false, ℤ, ◌≡◌, Bool, Text, ℕ, if◌then◌else◌, inl, inr,
  none, some, Bool-cases, ◌∙◌, refl, ap, if_intro, elim_intro,
}
use aiops_platform.Orchestrator.Actor.{
  Followup, idle, reconciled_workspace_cleanup, latch_operator_terminal_stop, Actor, update_run,
}
use aiops_platform.Tracker.{Issue}
use aiops_platform.Orchestrator.Types.{Outcome, OrchestratorState, RunningEntry}
use aiops_platform.Orchestrator.System.Owners.{holdings_of, Moved, Held, holdings, Holdings}
use aiops_platform.Orchestrator.Finalize.Ops.{IssueStateSnapshot, FinalizeOp}
use aiops_platform.Orchestrator.Finalize.CleanExit.{
  terminal_exit, apply_clean_exit, apply_continuation_budget_block, apply_terminal_self_stop,
}
use aiops_platform.Orchestrator.Transitions.{finish_run_aborted, finish_run_terminal_self_stop}
use aiops_platform.Orchestrator.System.Exits.{closed-Moved, IsKeyed}
use aiops_platform.Orchestrator.System.Tables.{latch-tables}
use aiops_platform.Orchestrator.System.Routes.{cleanup-Moved, blocked-Moved}
use aiops_platform.Orchestrator.System.Endings.{finish_run_aborted-Ends}

pub latched-holdings :
    (now : ℕ) (id : Text) (issue : Issue) (record_stop : Bool) (s : OrchestratorState)
    → holdings (if record_stop then latch_operator_terminal_stop now id issue s else s) ≡ holdings s
latched-holdings now id issue true s = ap holdings_of (latch-tables now id issue s)
latched-holdings now id issue false s = refl

pub update_run-holdings :
    (run : ℕ) (entry : RunningEntry) (s : OrchestratorState)
    → holdings (update_run run entry s) ≡ holdings s
unfolding update_run
update_run-holdings run entry s = refl

pub Moved-from :
    (j : Text) (s s' t : Holdings) (p : ℕ)
    → s' ≡ s
    → (Held j s' → Moved j s' t p)
    → Held j s
    → Moved j s t p
Moved-from j s s' t p e m h = rw⁻¹ e (m (rw e h))

module _ (j : Text) (o : Actor) (now : ℕ) (f : FinalizeOp) (elapsed : ℤ) (s : OrchestratorState)
    (h : Held j (holdings s)) where
  self_stop-Moved :
      (snapshot : IssueStateSnapshot) (record_stop : Bool)
      → Moves j s (apply_terminal_self_stop o now f elapsed snapshot record_stop s)
  unfolding apply_terminal_self_stop finish_run_terminal_self_stop reconciled_workspace_cleanup
  self_stop-Moved snapshot record_stop =
      let run = run_of f s in
      let issue =
        if is_empty (trim_space snapshot.state)
        then run.issue
        else record (run.issue) { state = snapshot.state } in
      let flagged = record run { issue = issue; reconcile_cleanup_workspace = true } in
      let latched = if record_stop then latch_operator_terminal_stop now f.id issue s else s in
      let written = update_run f.entry flagged latched in
      record {
        moved =
            Moved-from j (holdings s) (holdings written) _ _
              (update_run-holdings f.entry flagged latched
                ∙ latched-holdings now f.id issue record_stop s)
              (λ held.
                closed-Moved j f written held
                  (finish_run_aborted now f.id f.entry elapsed Outcome.terminal_self_stop written)
                  (λ t. t) _
                  (finish_run_aborted-Ends now f.id f.entry elapsed written
                    Outcome.terminal_self_stop)
                  (λ t. refl) (cleanup-free j o f.id flagged none))
              h;
      }

  budget-Moved :
      (turn_count : ℕ)
      → Moves j s (apply_continuation_budget_block now f elapsed turn_count s, idle)
  unfolding apply_continuation_budget_block
  budget-Moved turn_count = blocked-Moved j o now f elapsed s h _ _ _ _ (record_event-Logs now _)

  clean_exit-Moved : IsKeyed f s → Moves j s (apply_clean_exit o now f elapsed s)
  unfolding apply_clean_exit
  clean_exit-Moved keyed =
      elim_intro (Moves j s) (terminal_exit f.result)
        (if_intro (Moves j s) _ (cleanup-Moved j o now f elapsed s h) (
          if_intro (Moves j s) _ (budget-Moved _) (continuation-Moved j o now f elapsed s h keyed)))
        (λ snapshot. self_stop-Moved snapshot _)

  quota-Moved :
      IsKeyed f s → (quota : QuotaBackoff) → Moves j s (apply_quota_backoff now f elapsed quota s)
  unfolding apply_quota_backoff
  quota-Moved keyed quota = retry-Moved j o now f elapsed s h quota.message _ keyed.keyed

  failure-Moved :
      IsKeyed f s → (run_err : Text) → Moves j s (apply_failure_retry now f elapsed run_err s)
  unfolding apply_failure_retry
  failure-Moved keyed run_err = retry-Moved j o now f elapsed s h run_err _ keyed.keyed

  abnormal_exit-Moved :
      IsKeyed f s → (err : WorkerError) → Moves j s (apply_abnormal_exit o now f elapsed err s)
  unfolding apply_abnormal_exit
  abnormal_exit-Moved keyed err = if_intro (Moves j s) _ (cancel-Moved j o now f elapsed s h) (
      elim_intro (Moves j s) err.quota
        (if_intro (Moves j s) _ (cancel-Moved j o now f elapsed s h)
          (failure-Moved keyed err.message))
        (quota-Moved keyed))

  exit-Moved : IsKeyed f s → Moves j s (apply_exit o now f elapsed s)
  unfolding apply_exit
  exit-Moved keyed =
      elim_intro (Moves j s) f.result.err (clean_exit-Moved keyed) (abnormal_exit-Moved keyed)

  input_block-Moved :
      (u : OrchestratorState × Followup)
      → Moves j s u
      → Moves j s
          (elim (apply_input_required_block now f elapsed s) [ none ↦ u | some t ↦ (t, idle) ])
  unfolding apply_input_required_block block_run
  input_block-Moved u m =
      elim (Bool-cases (
        not (run_of f s).input_required
        && not f.result.input_required
        && not (is_input_required f.result.err))) [
          | inl e ↦ rw e m
          | inr e ↦ rw e (blocked-Moved j o now f elapsed s h _ _ _ _ (record_event-Logs now _))
        ]

  budget_block-Moved :
      (u : OrchestratorState × Followup)
      → Moves j s u
      → Moves j s
          (elim (apply_budget_exceeded_block now f elapsed s) [ none ↦ u | some t ↦ (t, idle) ])
  unfolding apply_budget_exceeded_block
  budget_block-Moved u m = elim (Bool-cases (run_of f s).budget_exceeded) [
    | inl e ↦ rw e (blocked-Moved j o now f elapsed s h _ _ _ (λ t. t) (λ t. refl))
    | inr e ↦ rw e m
  ]

-- At every issue, a worker's exit on any route adds no owner: what held the issue before, holds it
-- after, moved to a blocked entry or to the retry that is to be scheduled, or the claim is dropped
-- too; other issues keep their claims, and the workspaces in cleaning stay. Before, the issue has at
-- most one owner and its retry or blocked entry is claimed, and the exit's run is about its own id.
pub finalize-Moved :
    (j : Text) (o : Actor) (now : ℕ) (f : FinalizeOp) (s : OrchestratorState)
    → Held j (holdings s)
    → IsKeyed f s
    → Moves j s (finalize o now f s)
unfolding finalize
finalize-Moved j o now f s h keyed =
    let elapsed = elapsed_of now f in
    input_block-Moved j o now f elapsed s h _
      (budget_block-Moved j o now f elapsed s h _ (exit-Moved j o now f elapsed s h keyed))
