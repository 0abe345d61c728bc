-- ===== src/Orchestrator/Dispatch/Capacity.antt =====
-- actor_dispatch.go: a dispatch keeps the number of slots in use under the global limit.
use aiops_platform.Common.{
  none, some, text_eq_iff, is_empty, if◌then◌else◌, ◌||◌, some, text_eq, true, arith, ◌≡◌, ◌≤◌,
  Text, Option, ℕ,
}
use aiops_platform.Orchestrator.Dispatch.{
  continuation_budget_error, continuation_budget_block_method, resolve_dispatch_claim,
  block_consumed, consume_continuation_retry, DispatchOp, dispatch, dispatch_claimed, reserve,
  block_consumed_continuation, suppress_dispatch,
}
use aiops_platform.Orchestrator.Recent.{record_event}
use aiops_platform.Orchestrator.Block.{
  or_now, blocked_retry, is_current_retry, block_retry_with_reason,
}
use aiops_platform.Orchestrator.Transitions.{claim}
use aiops_platform.Orchestrator.OperatorStop.{record_operator_terminal_dispatch_suppressed}
use aiops_platform.Orchestrator.Types.{RetryEntry, OrchestratorState}
use aiops_platform.Tracker.{Issue}
use aiops_platform.Orchestrator.Counts.{running_count}
use aiops_platform.Orchestrator.Counts.Members.{holds_slot}
use aiops_platform.Orchestrator.Counts.Sizes.{
  running_count-le_of_one_slot, running_count-le_of_slots,
}
use aiops_platform.Common.Map.{has-delete, delete, has-insert}

suppress_dispatch-slots :
    (now : ℕ) (id : Text) (issue : Issue) (s : OrchestratorState) (j : Text)
    → holds_slot j (suppress_dispatch now id issue s) ≡ holds_slot j s
unfolding suppress_dispatch record_event record_operator_terminal_dispatch_suppressed
suppress_dispatch-slots now id issue s j = ground arith

block_consumed-slots :
    (now : ℕ) (issue : Issue) (consumed : Option RetryEntry) (s : OrchestratorState) (j : Text)
    → holds_slot j (block_consumed now issue consumed s) ≡ true
    → holds_slot j s ≡ true
unfolding block_consumed_continuation block_retry_with_reason claim is_current_retry record_event
block_consumed-slots now issue none s j h = h
block_consumed-slots now issue (some retry) s j h =
    let known = if is_empty issue.id then retry.issue else issue in
    let entry =
      blocked_retry retry known (or_now now now) continuation_budget_block_method
        (continuation_budget_error retry.continuation_turn_count s.max_continuation_turns) in
    ground (
      arith,
      text_eq_iff issue.id j,
      has-insert j issue.id tt s.claimed,
      has-delete j issue.id s.retry_attempts,
      has-insert j issue.id entry s.blocked,
    )

reserve-slots :
    (now : ℕ) (op : DispatchOp) (consumed : Option RetryEntry) (s : OrchestratorState) (j : Text)
    → holds_slot j (reserve now op consumed s) ≡ true
    → (text_eq op.issue.id j || holds_slot j s) ≡ true
unfolding reserve claim record_event consume_continuation_retry
reserve-slots now op none s j h = ground (arith, has-insert j op.issue.id tt s.claimed)
reserve-slots now op (some entry) s j h = ground (
  arith,
  has-insert j op.issue.id tt (delete op.issue.id s.claimed),
  has-delete j op.issue.id s.claimed,
  has-delete j op.issue.id s.retry_attempts,
)

dispatch_claimed-running_count :
    (now : ℕ) (op : DispatchOp) (consumed : Option RetryEntry) (s : OrchestratorState)
    → running_count s ≤ s.max_concurrent_agents
    → running_count (dispatch_claimed now op consumed s).0 ≤ s.max_concurrent_agents
unfolding dispatch_claimed
dispatch_claimed-running_count now op consumed s h = ground (
  arith,
  running_count-le_of_slots (block_consumed now op.issue consumed s) s
      (block_consumed-slots now op.issue consumed s),
  running_count-le_of_one_slot s (reserve now op consumed s) op.issue.id
      (reserve-slots now op consumed s),
)

-- A dispatch, whatever it answers, keeps the slots in use under the limit of concurrent agents.
pub dispatch-running_count :
    (now : ℕ) (op : DispatchOp) (s : OrchestratorState)
    → running_count s ≤ s.max_concurrent_agents
    → running_count (dispatch now op s).0 ≤ s.max_concurrent_agents
unfolding dispatch
dispatch-running_count now op s h = ground (
  arith,
  running_count-le_of_slots (suppress_dispatch now op.issue.id op.issue s) s
      (λ j k. ground (arith, suppress_dispatch-slots now op.issue.id op.issue s j)),
  dispatch_claimed-running_count now op
      (resolve_dispatch_claim s op.issue.id op.tracker_rechecked now).entry s h,
)
