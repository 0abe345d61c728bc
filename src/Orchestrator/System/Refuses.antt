-- ===== src/Orchestrator/System/Refuses.antt =====
-- actor_dispatch.go: a dispatch that is not accepted moves no issue to another owner, but for a
-- continuation over its budget, which is parked.
use aiops_platform.Orchestrator.Dispatch.{
  reserve, dispatch_spawn, exceeds_continuation_budget, capacity_excluded,
}
use aiops_platform.Orchestrator.Counts.{running_count, state_capacity_full_excluding}
use aiops_platform.Common.{leb}
use aiops_platform.Orchestrator.Block.{block_retry_with_reason, is_current_retry}
use aiops_platform.Orchestrator.Dispatch.{
  suppress_dispatch, capacity_full, not_dispatched, block_consumed, accepted, DispatchReply,
  DispatchOp, block_consumed_continuation, dispatch, dispatch_claimed, continuation_budget_error,
  continuation_budget_block_method,
}
use aiops_platform.Orchestrator.Recent.{record_event}
use aiops_platform.Orchestrator.System.Exits.{Moved-at}
use aiops_platform.Orchestrator.System.Moves.{block_retry-Moved}
use aiops_platform.Common.{
  ℕ, false, none, some, refl, arith, ◌≡◌, Text, Option, Bool-cases, inl, inr, ap, if_intro, ◌∙◌,
}
use aiops_platform.Orchestrator.Types.{RetryEntry, OrchestratorState}
use aiops_platform.Tracker.{Issue}
use aiops_platform.Orchestrator.System.Owners.{
  pending, holdings_of, Moved-refl, Moved, Held, holdings,
}
use aiops_platform.Orchestrator.Actor.{spawn, idle, Followup}
use aiops_platform.Orchestrator.System.Tables.{suppress_dispatch-tables}

-- An accepted dispatch, or a move.
pub data Decides (j : Text) (s : OrchestratorState)
    (p : OrchestratorState × DispatchReply × Followup) : Type 0 where
  took : p.1 ≡ accepted → Decides j s p
  refused : Moved j (holdings s) (holdings p.0) (pending j p.2) → Decides j s p

blocked_retry-done :
    (now : ℕ) (id : Text) (retry : RetryEntry) (issue : Issue) (blocked_at : ℕ)
    (method run_err : Text) (s : OrchestratorState)
    → (block_retry_with_reason now id retry issue blocked_at method run_err s).1
      ≡ is_current_retry id retry s
unfolding block_retry_with_reason
blocked_retry-done now id retry issue blocked_at method run_err s = ground arith

blocked_retry-stale :
    (now : ℕ) (id : Text) (retry : RetryEntry) (issue : Issue) (blocked_at : ℕ)
    (method run_err : Text) (s : OrchestratorState)
    → is_current_retry id retry s ≡ false
    → holdings (block_retry_with_reason now id retry issue blocked_at method run_err s).0
      ≡ holdings s
unfolding block_retry_with_reason
blocked_retry-stale now id retry issue blocked_at method run_err s other = rw other refl

parked-Moved :
    (j : Text) (now : ℕ) (issue : Issue) (retry : RetryEntry) (s : OrchestratorState)
    → Held j (holdings s)
    → Moved j (holdings s) (holdings (block_consumed_continuation now issue retry s)) 0
unfolding block_consumed_continuation record_event
parked-Moved j now issue retry s h =
    let run_err =
      continuation_budget_error retry.continuation_turn_count s.max_continuation_turns in
    elim (Bool-cases (is_current_retry issue.id retry s)) [
      | inl current ↦
          rw
            (blocked_retry-done now issue.id retry issue now continuation_budget_block_method
                run_err s
              ∙ current)
            (block_retry-Moved j s h issue.id now retry issue now continuation_budget_block_method
              run_err current)
      | inr other ↦
          rw
            (blocked_retry-done now issue.id retry issue now continuation_budget_block_method
                run_err s
              ∙ other)
            (Moved-at j _ _ _ _ _
              (blocked_retry-stale now issue.id retry issue now continuation_budget_block_method
                run_err s other)
              refl (Moved-refl j (holdings s) h))
    ]

block_consumed-Moved :
    (j : Text) (now : ℕ) (issue : Issue) (consumed : Option RetryEntry) (s : OrchestratorState)
    → Held j (holdings s)
    → Moved j (holdings s) (holdings (block_consumed now issue consumed s)) 0
block_consumed-Moved j now issue none s h = Moved-refl j (holdings s) h
block_consumed-Moved j now issue (some retry) s h = parked-Moved j now issue retry s h

idle-Decides :
    (j : Text) (s : OrchestratorState) (reply : DispatchReply)
    → Held j (holdings s)
    → Decides j s (s, reply, idle)
idle-Decides j s reply h = refused (Moved-refl j (holdings s) h)

Moved-Decides :
    (j : Text) (s t : OrchestratorState) (reply : DispatchReply)
    → Moved j (holdings s) (holdings t) 0
    → Decides j s (t, reply, idle)
Moved-Decides j s t reply m = refused m

accepted-Decides :
    (j : Text) (s t : OrchestratorState) (fu : Followup) → Decides j s (t, accepted, fu)
accepted-Decides j s t fu = took refl

dispatch_claimed-Decides :
    (j : Text) (now : ℕ) (op : DispatchOp) (consumed : Option RetryEntry) (s : OrchestratorState)
    → Held j (holdings s)
    → Decides j s (dispatch_claimed now op consumed s)
unfolding dispatch_claimed
dispatch_claimed-Decides j now op consumed s h =
    let excluded = capacity_excluded op.issue.id consumed in
    if_intro (Decides j s) (exceeds_continuation_budget consumed s)
      (Moved-Decides j s (block_consumed now op.issue consumed s) not_dispatched
        (block_consumed-Moved j now op.issue consumed s h))
      (if_intro (Decides j s) (leb s.max_concurrent_agents (running_count s))
        (idle-Decides j s capacity_full h)
        (if_intro (Decides j s) (state_capacity_full_excluding s op.issue.state excluded)
          (idle-Decides j s capacity_full h)
          (accepted-Decides j s (reserve now op consumed s)
            (spawn (dispatch_spawn op consumed s)))))

pub dispatch-Decides :
    (j : Text) (now : ℕ) (op : DispatchOp) (s : OrchestratorState)
    → Held j (holdings s)
    → Decides j s (dispatch now op s)
unfolding dispatch
dispatch-Decides j now op s h = if_intro (Decides j s) _ (idle-Decides j s not_dispatched h) (
    if_intro (Decides j s) _
      (Moved-Decides j s (suppress_dispatch now op.issue.id op.issue s) not_dispatched (
        Moved-at j _ _ _ _ _ (ap holdings_of (suppress_dispatch-tables now op.issue.id op.issue s))
          refl (Moved-refl j (holdings s) h)))
      (if_intro (Decides j s) _ (idle-Decides j s not_dispatched h)
        (dispatch_claimed-Decides j now op _ s h)))
