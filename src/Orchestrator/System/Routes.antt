-- ===== src/Orchestrator/System/Routes.antt =====
-- actor_finalize.go: the move that each route of a worker's exit makes at any issue `j`.
use aiops_platform.Orchestrator.System.Owners.{Moves}
use aiops_platform.Orchestrator.Transitions.{
  claim, is_current, finish_run_failed, finish_run_reconciled_cancelled,
}
use aiops_platform.Common.{
  inl, inr, inl, Bool-cases, false, ◌∙◌, if_intro, Bool, text_eq, true, arith, ◌≡◌, ℤ, Option, Text,
  ℕ, refl, ap,
}
use aiops_platform.Orchestrator.Actor.{
  idle, update_run, close_done, schedule, event, ScheduleRequest, reconciled_workspace_cleanup,
  Continuation, Actor, reconciled_workspace_cleanup_followup,
}
use aiops_platform.Orchestrator.Recent.{
  record_agent_handoff_reconcile_stopped, record_reconcile_stopped_with_progress, record_event,
}
use aiops_platform.Orchestrator.Finalize.AbnormalExit.{
  apply_retry, cancel_reconciled, record_reconcile_stop,
}
use aiops_platform.Orchestrator.Types.{
  RuntimeEventKind, Outcome, OrchestratorState, RunningEntry, RuntimeEvent,
}
use aiops_platform.Orchestrator.Finalize.Ops.{close_with, run_of, FinalizeOp}
use aiops_platform.Orchestrator.System.Owners.{Moved-refl, count_of, holdings, Held, pending}
use aiops_platform.Orchestrator.Finalize.CleanExit.{
  apply_clean_continuation, finish_clean_continuation, logged, apply_clean_cleanup,
}
use aiops_platform.Orchestrator.System.Exits.{Moved-at, IsKeyed, requeued-Moved, closed-Moved, Logs}
use aiops_platform.Orchestrator.System.Endings.{
  finish_run_active_success_no_handoff-Ends, Ends, finish_run_aborted-Ends,
  finish_run_succeeded-Ends,
}
use aiops_platform.Orchestrator.Block.{block_run_with_reason}
use aiops_platform.Orchestrator.System.Moves.{block_run-Moved}

-- The followup of a cleanup holds no issue.
pub cleanup-free :
    (j : Text) (o : Actor) (id : Text) (entry : RunningEntry) (continuation : Option Continuation)
    → pending j (reconciled_workspace_cleanup_followup o id entry continuation) ≡ 0
unfolding reconciled_workspace_cleanup_followup
cleanup-free j o id entry continuation = ground arith

pub record_event-Logs : (now : ℕ) (ev : RuntimeEvent) → Logs (record_event now ev)
unfolding record_event
record_event-Logs now ev t = refl

pub record_reconcile_stop-Logs :
    (now : ℕ) (f : FinalizeOp) (run : RunningEntry) → Logs (record_reconcile_stop now f run)
unfolding record_reconcile_stop record_event record_reconcile_stopped_with_progress
    record_agent_handoff_reconcile_stopped
record_reconcile_stop-Logs now f run t = ground arith

logged-Ends :
    (id : Text) (run : ℕ) (s : OrchestratorState) (p : OrchestratorState × Bool)
    (after : OrchestratorState → OrchestratorState)
    → Ends id run s p
    → Logs after
    → Ends id run s (logged p after)
unfolding logged
logged-Ends id run s p after ends logs = record {
  made = ends.made;
  dropped = λ current. rw (ends.made ∙ current) (logs p.0 ∙ ends.dropped current);
  stale = λ other. rw (ends.made ∙ other) (ends.stale other);
}

pub blocked-made :
    (now : ℕ) (id : Text) (run blocked_at : ℕ) (method run_err : Text) (elapsed : ℤ)
    (s : OrchestratorState)
    → (block_run_with_reason now id run blocked_at method run_err elapsed s).1 ≡ is_current id run s
unfolding block_run_with_reason
blocked-made now id run blocked_at method run_err elapsed s = ground arith

pub blocked-stale :
    (now : ℕ) (id : Text) (run blocked_at : ℕ) (method run_err : Text) (elapsed : ℤ)
    (s : OrchestratorState)
    → is_current id run s ≡ false
    → (block_run_with_reason now id run blocked_at method run_err elapsed s).0 ≡ s
unfolding block_run_with_reason
blocked-stale now id run blocked_at method run_err elapsed s other = rw other refl

module _ (j : Text) (o : Actor) (now : ℕ) (f : FinalizeOp) (elapsed : ℤ) (s : OrchestratorState)
    (h : Held j (holdings s)) where
  pub cleanup-Moved : Moves j s (apply_clean_cleanup o now f elapsed s)
  unfolding apply_clean_cleanup
  cleanup-Moved = record {
    moved =
        closed-Moved j f s h _ _ _ (finish_run_succeeded-Ends now f.id f.entry elapsed s)
          (record_event-Logs now _) (cleanup-free j o f.id _ _);
  }

  pub cancel-Moved : Moves j s (cancel_reconciled o now f elapsed s)
  unfolding cancel_reconciled finish_run_reconciled_cancelled reconciled_workspace_cleanup
  cancel-Moved = record {
    moved =
        closed-Moved j f s h _ _ _
          (finish_run_aborted-Ends now f.id f.entry elapsed s Outcome.reconcile_ineligible)
          (record_reconcile_stop-Logs now f _) (cleanup-free j o f.id _ _);
  }

  pub retry-Moved :
      (run_err : Text) (request : ScheduleRequest)
      → (is_current f.id f.entry s ≡ true → request.issue.id ≡ f.id)
      → Moves j s (apply_retry now f elapsed run_err request s)
  unfolding apply_retry finish_run_failed record_event claim
  retry-Moved run_err request keyed = record {
    moved =
        requeued-Moved j f s h _
          (λ t.
            claim f.id (run_of f s).issue
              (record_event now (event RuntimeEventKind.failed f.id f.identifier run_err) t))
          (schedule request) (run_of f s).issue
          (finish_run_aborted-Ends now f.id f.entry elapsed s Outcome.failed) (λ t. refl)
          (λ current. ap (λ id. count_of (text_eq id j)) (keyed current));
  }

  pub finish_clean_continuation-Ends :
      Ends f.id f.entry s (finish_clean_continuation now f elapsed s)
  unfolding finish_clean_continuation record_event
  finish_clean_continuation-Ends =
      let succeeded = finish_run_succeeded-Ends now f.id f.entry elapsed s in
      let no_handoff = finish_run_active_success_no_handoff-Ends now f.id f.entry elapsed s in
      if_intro (Ends f.id f.entry s) _ (logged-Ends f.id f.entry s _ _ no_handoff (λ t. refl))
        (logged-Ends f.id f.entry s _ _ succeeded (λ t. refl))

  pub continuation-Moved : IsKeyed f s → Moves j s (apply_clean_continuation now f elapsed s)
  unfolding apply_clean_continuation
  continuation-Moved keyed = record {
    moved =
        requeued-Moved j f s h _ (claim f.id (run_of f s).issue) _ (run_of f s).issue
          finish_clean_continuation-Ends (λ t. refl)
          (λ current. ap (λ id. count_of (text_eq id j)) (keyed.keyed current));
  }

  pub blocked-Moved :
      (blocked_at : ℕ) (method run_err : Text) (after : OrchestratorState → OrchestratorState)
      → Logs after
      → Moves j s (
        close_with f
            (block_run_with_reason now f.id f.entry blocked_at method run_err elapsed s)
            after,
        idle,
      )
  unfolding close_with close_done update_run
  blocked-Moved blocked_at method run_err after logs =
      let p = block_run_with_reason now f.id f.entry blocked_at method run_err elapsed s in
      record {
        moved = elim (Bool-cases (is_current f.id f.entry s)) [
          | inl current ↦
              rw (blocked-made now f.id f.entry blocked_at method run_err elapsed s ∙ current) (
                Moved-at j _ _ _ _ _ (logs p.0) refl (
                  block_run-Moved j s h f.id now f.entry blocked_at method run_err elapsed current))
          | inr other ↦
              rw (blocked-made now f.id f.entry blocked_at method run_err elapsed s ∙ other) (
                Moved-at j _ _ _ _ _
                  (ap holdings
                    (blocked-stale now f.id f.entry blocked_at method run_err elapsed s other))
                  refl (Moved-refl j (holdings s) h))
        ];
      }
