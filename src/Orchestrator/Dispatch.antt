-- ===== src/Orchestrator/Dispatch.antt =====
-- actor_dispatch.go: the dispatch operation, its claim gate, and the registration of a spawned run.
pub mod Claims
pub mod Capacity
use aiops_platform.Common.{
  ℕ, suc, ◌+◌, ◌-◌, List, [], ◌∷◌, ◌++◌, Bool, true, false, Option, none, some, ◌&&◌, ◌||◌, not,
  ltb, leb, Text, codes, decimal, is_empty, if◌then◌else◌,
}
use aiops_platform.Common.Map.{TextSet, lookup, insert, delete}
use aiops_platform.Tracker.{Issue}
use aiops_platform.Orchestrator.Types.{
  OrchestratorState, RunningEntry, RetryEntry, RuntimeEventKind, Workspace,
}
use aiops_platform.Orchestrator.Recent.{record_event}
use aiops_platform.Orchestrator.Counts.{is_claimed, running_count, state_capacity_full_excluding}
use aiops_platform.Orchestrator.Transitions.{claim}
use aiops_platform.Orchestrator.Block.{block_retry_with_reason}
use aiops_platform.Orchestrator.OperatorStop.{
  is_operator_terminal_stopped, record_operator_terminal_dispatch_suppressed,
}
use aiops_platform.Orchestrator.Backoff.{is_continuation, is_due}
use aiops_platform.Orchestrator.Actor.{
  SpawnRequest, Followup, idle, spawn, event, update_run, is_cleaning_workspace,
}

-- nil (sent by the followup once the worker is spawned), ErrNotDispatched and ErrCapacityFull.
pub data DispatchReply : Type 0 where
  accepted not_dispatched capacity_full : DispatchReply

pub record DispatchOp : Type 0 where
  pub issue : Issue
  pub attempt : Option ℕ
  pub tracker_rechecked : Bool

pub record ClaimGate : Type 0 where
  pub entry : Option RetryEntry
  pub allow : Bool

unfoldable pub dispatch_claim_gate_allows : OrchestratorState → Text → ℕ → ClaimGate
dispatch_claim_gate_allows s id now = elim (lookup id s.retry_attempts) [
  | none ↦ record { entry = none; allow = not (is_claimed id s) }
  | some queued ↦
      if not (is_continuation queued.kind) || not (is_due queued now)
      then record { entry = none; allow = false }
      else record { entry = some queued; allow = true }
]

-- The loop of dispatchClaimableIssueIDsOp.
unfoldable pub dispatch_claimable_issue_ids : OrchestratorState → ℕ → List Text → TextSet → TextSet
dispatch_claimable_issue_ids s now [] claimable = claimable
dispatch_claimable_issue_ids s now (id ∷ ids) claimable =
    dispatch_claimable_issue_ids s now ids
      (if (dispatch_claim_gate_allows s id now).allow then insert id tt claimable else claimable)

unfoldable pub resolve_dispatch_claim : OrchestratorState → Text → Bool → ℕ → ClaimGate
resolve_dispatch_claim s id tracker_rechecked now =
    if tracker_rechecked
    then dispatch_claim_gate_allows s id now
    else record { entry = none; allow = not (is_claimed id s) }

-- The attempt and the turn count that a consumed continuation carries forward.
abbrev pub consumed_attempt : Option RetryEntry → ℕ
consumed_attempt none = 0
consumed_attempt (some entry) = entry.attempt

abbrev pub consumed_turn_count : Option RetryEntry → ℕ
consumed_turn_count none = 0
consumed_turn_count (some entry) = entry.continuation_turn_count

abbrev no_workspace : Workspace
no_workspace = record { path = []; root = []; key = []; created_now = false }

abbrev pub consumed_workspace : Option RetryEntry → Workspace
consumed_workspace none = no_workspace
consumed_workspace (some entry) = entry.workspace

unfoldable pub continuation_budget_exceeded : ℕ → ℕ → Bool
continuation_budget_exceeded max_continuation_turns cumulative_turns =
    ltb 0 max_continuation_turns && leb max_continuation_turns cumulative_turns

unfoldable pub continuation_budget_error : ℕ → ℕ → Text
continuation_budget_error cumulative_turns max_continuation_turns =
    codes "continuation budget exhausted: cumulative_turns="
    ++ decimal cumulative_turns
    ++ codes " max_continuation_turns="
    ++ decimal max_continuation_turns

abbrev pub continuation_budget_block_method : Text
continuation_budget_block_method = codes "continuation_budget"

-- cleanTurnBudgetForContinuationBudget: the truncated `-` is its clamp at zero.
unfoldable pub clean_turn_budget_for_continuation_budget : ℕ → ℕ → ℕ
clean_turn_budget_for_continuation_budget max_continuation_turns continuation_turn_count =
    max_continuation_turns - continuation_turn_count

abbrev pub continuation_budget_identifier : Issue → RetryEntry → Text
continuation_budget_identifier issue retry =
    if is_empty issue.identifier then retry.identifier else issue.identifier

-- The body of blockConsumedContinuationIfBudgetExceeded behind its guard.
unfoldable pub block_consumed_continuation :
    ℕ → Issue → RetryEntry → OrchestratorState → OrchestratorState
block_consumed_continuation now issue retry s =
    let run_err =
      continuation_budget_error retry.continuation_turn_count s.max_continuation_turns in
    let (blocked, done) =
      block_retry_with_reason now issue.id retry issue now continuation_budget_block_method run_err
        s in
    if done
    then record_event now
        (event RuntimeEventKind.continuation_budget_blocked issue.id
          (continuation_budget_identifier issue retry) run_err)
        blocked
    else blocked

abbrev pub exceeds_continuation_budget : Option RetryEntry → OrchestratorState → Bool
exceeds_continuation_budget none s = false
exceeds_continuation_budget (some retry) s =
    continuation_budget_exceeded s.max_continuation_turns retry.continuation_turn_count

unfoldable pub consume_continuation_retry :
    Text → Option RetryEntry → OrchestratorState → OrchestratorState
consume_continuation_retry id none s = s
consume_continuation_retry id (some retry) s = record s {
  retry_attempts = delete id s.retry_attempts;
  claimed = delete id s.claimed;
}

abbrev pub block_consumed : ℕ → Issue → Option RetryEntry → OrchestratorState → OrchestratorState
block_consumed now issue none s = s
block_consumed now issue (some retry) s = block_consumed_continuation now issue retry s

-- A dispatch that meets the operator's latch is counted there, the first one also in the log.
unfoldable pub suppress_dispatch : ℕ → Text → Issue → OrchestratorState → OrchestratorState
suppress_dispatch now id issue s =
    let (counted, entry, first) =
      record_operator_terminal_dispatch_suppressed now id issue
        (codes "active_candidate_after_operator_terminal_stop") s in
    elim entry [
      | none ↦ counted
      | some stop ↦
          if first
          then record_event now
              (event RuntimeEventKind.operator_terminal_stop_dispatch_suppressed id stop.identifier
                (codes "dispatch suppressed after Operator Terminal Stop"))
              counted
          else counted
    ]

-- The tail of dispatchOp.apply: consume the continuation, log, and reserve the slot.
unfoldable pub reserve : ℕ → DispatchOp → Option RetryEntry → OrchestratorState → OrchestratorState
reserve now op consumed s = claim op.issue.id op.issue (
    record_event now
      (event RuntimeEventKind.candidate op.issue.id op.issue.identifier
        (codes "candidate fetched from tracker"))
      (consume_continuation_retry op.issue.id consumed s))

abbrev pub dispatch_spawn : DispatchOp → Option RetryEntry → OrchestratorState → SpawnRequest
dispatch_spawn op consumed s = record {
  id = op.issue.id;
  issue = op.issue;
  attempt = op.attempt;
  continuation_attempt = consumed_attempt consumed;
  continuation_turn_count = consumed_turn_count consumed;
  clean_turn_budget =
      clean_turn_budget_for_continuation_budget s.max_continuation_turns
        (consumed_turn_count consumed);
  workspace = consumed_workspace consumed;
}

abbrev pub capacity_excluded : Text → Option RetryEntry → Text
capacity_excluded id none = []
capacity_excluded id (some retry) = id

-- The part of dispatchOp.apply behind the claim gate.
unfoldable pub dispatch_claimed :
    ℕ
    → DispatchOp
    → Option RetryEntry
    → OrchestratorState
    → OrchestratorState × DispatchReply × Followup
dispatch_claimed now op consumed s =
    if exceeds_continuation_budget consumed s
    then (block_consumed now op.issue consumed s, not_dispatched, idle)
    else if leb s.max_concurrent_agents (running_count s)
    then (s, capacity_full, idle)
    else if state_capacity_full_excluding s op.issue.state (capacity_excluded op.issue.id consumed)
    then (s, capacity_full, idle)
    else (reserve now op consumed s, accepted, spawn (dispatch_spawn op consumed s))

unfoldable pub dispatch :
    ℕ → DispatchOp → OrchestratorState → OrchestratorState × DispatchReply × Followup
dispatch now op s =
    let id = op.issue.id in
    let gate = resolve_dispatch_claim s id op.tracker_rechecked now in
    if is_cleaning_workspace id s
    then (s, not_dispatched, idle)
    else if is_operator_terminal_stopped id s
    then (suppress_dispatch now id op.issue s, not_dispatched, idle)
    else if not gate.allow
    then (s, not_dispatched, idle)
    else dispatch_claimed now op gate.entry s
