-- ===== src/Orchestrator/Dispatch/Claims.antt =====
-- actor_dispatch.go: what a dispatch decision promises about the claim of its issue.
use aiops_platform.Common.{
  refl, text_eq_refl, Option, none, Bool, Text, Bool-cases, inr, inl, Option-cases, some, ◌<◌, ◌⊎◌,
  arith, true, false, ◌≡◌, ℕ,
}
use aiops_platform.Orchestrator.Dispatch.{
  consume_continuation_retry, reserve, not_dispatched, accepted, dispatch_claimed,
  dispatch_claim_gate_allows, dispatch, resolve_dispatch_claim, DispatchOp,
}
use aiops_platform.Orchestrator.Types.{RetryEntry, OrchestratorState}
use aiops_platform.Orchestrator.Actor.{idle, is_cleaning_workspace}
use aiops_platform.Orchestrator.OperatorStop.{is_operator_terminal_stopped}
use aiops_platform.Orchestrator.Counts.{running_count, is_claimed}
use aiops_platform.Common.Map.{lookup-delete, delete, has-insert, has, lookup}
use aiops_platform.Orchestrator.Backoff.{is_due, is_continuation}
use aiops_platform.Orchestrator.Transitions.{claim}
use aiops_platform.Orchestrator.Recent.{record_event}

-- What an accepted dispatch has found: nobody cleans the workspace, no latch stops the issue, and
-- nobody holds it, or a continuation retry that is due does and the tracker was asked again.
pub record IsDispatchable (now : ℕ) (op : DispatchOp) (s : OrchestratorState) : Type 0 where
  pub not_cleaning : is_cleaning_workspace op.issue.id s ≡ false
  pub not_stopped : is_operator_terminal_stopped op.issue.id s ≡ false
  pub slot_free : running_count s < s.max_concurrent_agents
  pub unheld :
      (is_claimed op.issue.id s ≡ false)
      ⊎ ((entry : RetryEntry) × (lookup op.issue.id s.retry_attempts ≡ some entry)
          × (is_continuation entry.kind ≡ true)
          × (is_due entry now ≡ true)
          × (op.tracker_rechecked ≡ true))

gate-unheld :
    (now : ℕ) (op : DispatchOp) (s : OrchestratorState)
    → (resolve_dispatch_claim s op.issue.id op.tracker_rechecked now).allow ≡ true
    → (is_claimed op.issue.id s ≡ false)
      ⊎ ((entry : RetryEntry) × (lookup op.issue.id s.retry_attempts ≡ some entry)
          × (is_continuation entry.kind ≡ true)
          × (is_due entry now ≡ true)
          × (op.tracker_rechecked ≡ true))
unfolding resolve_dispatch_claim dispatch_claim_gate_allows
gate-unheld now op s h = elim (Option-cases (lookup op.issue.id s.retry_attempts)) [
  | inl e ↦ inl (ground arith)
  | inr (entry, e) ↦ elim (Bool-cases op.tracker_rechecked) [
    | inl r ↦ inr (entry, e, ground arith, ground arith, r)
    | inr r ↦ inl (ground arith)
  ]
]

-- An accepted dispatch is one of an issue that is dispatchable.
pub dispatch-IsDispatchable :
    (now : ℕ) (op : DispatchOp) (s : OrchestratorState)
    → (dispatch now op s).1 ≡ accepted
    → IsDispatchable now op s
unfolding dispatch dispatch_claimed
dispatch-IsDispatchable now op s h = record {
  not_cleaning = ground arith;
  not_stopped = ground arith;
  slot_free = ground arith;
  unheld = gate-unheld now op s (ground arith);
}

-- A state that denies every dispatch of an issue: it is claimed, and no retry entry holds it.
record IsDenying (id : Text) (s : OrchestratorState) : Type 0 where
  claimed : has id s.claimed ≡ true
  no_retry : lookup id s.retry_attempts ≡ none
  not_stopped : is_operator_terminal_stopped id s ≡ false

dispatch-denied :
    (now : ℕ) (op : DispatchOp) (s : OrchestratorState)
    → IsDenying op.issue.id s
    → dispatch now op s ≡ (s, not_dispatched, idle)
unfolding dispatch resolve_dispatch_claim dispatch_claim_gate_allows is_claimed
dispatch-denied now op s d = ground arith

reserve-IsDenying :
    (now : ℕ) (op : DispatchOp) (consumed : Option RetryEntry) (s : OrchestratorState)
    → is_operator_terminal_stopped op.issue.id s ≡ false
    → (consumed ≡ none → lookup op.issue.id s.retry_attempts ≡ none)
    → IsDenying op.issue.id (reserve now op consumed s)
unfolding reserve claim record_event consume_continuation_retry is_operator_terminal_stopped
reserve-IsDenying now op none s h e = record {
  claimed =
      ground (arith, has-insert op.issue.id op.issue.id tt s.claimed, text_eq_refl op.issue.id);
  no_retry = e refl;
  not_stopped = h;
}
reserve-IsDenying now op (some entry) s h e = record {
  claimed = ground (
    arith,
    has-insert op.issue.id op.issue.id tt (delete op.issue.id s.claimed),
    text_eq_refl op.issue.id,
  );
  no_retry =
      ground
        (arith, lookup-delete op.issue.id op.issue.id s.retry_attempts, text_eq_refl op.issue.id);
  not_stopped = h;
}

pub gate-consumes :
    (s : OrchestratorState) (id : Text) (rechecked : Bool) (now : ℕ)
    → (resolve_dispatch_claim s id rechecked now).allow ≡ true
    → (resolve_dispatch_claim s id rechecked now).entry ≡ none
    → lookup id s.retry_attempts ≡ none
unfolding resolve_dispatch_claim dispatch_claim_gate_allows is_claimed
gate-consumes s id rechecked now h e = elim (Option-cases (lookup id s.retry_attempts)) [
  | inl none_there ↦ none_there
  | inr (entry, there) ↦ ground arith
]

pub dispatch-reserves :
    (now : ℕ) (op : DispatchOp) (s : OrchestratorState)
    → (dispatch now op s).1 ≡ accepted
    → (let gate = resolve_dispatch_claim s op.issue.id op.tracker_rechecked now in
        (gate.allow ≡ true) × ((dispatch now op s).0 ≡ reserve now op gate.entry s))
unfolding dispatch dispatch_claimed
dispatch-reserves now op s h = ground arith

-- An accepted dispatch claims its issue.
pub dispatch-claims :
    (now : ℕ) (op : DispatchOp) (s : OrchestratorState)
    → (dispatch now op s).1 ≡ accepted
    → has op.issue.id (dispatch now op s).0.claimed ≡ true
dispatch-claims now op s h =
    let gate = resolve_dispatch_claim s op.issue.id op.tracker_rechecked now in
    let (allowed, reserved) = dispatch-reserves now op s h in
    rw reserved
      (reserve-IsDenying now op gate.entry s (dispatch-IsDispatchable now op s h).not_stopped
        (gate-consumes s op.issue.id op.tracker_rechecked now allowed)).claimed

-- After an accepted dispatch, every further dispatch of the issue is refused, and changes nothing,
-- whether or not it has asked the tracker again.
pub dispatch-refuses_second :
    (now later : ℕ) (op second : DispatchOp) (s : OrchestratorState)
    → (dispatch now op s).1 ≡ accepted
    → second.issue.id ≡ op.issue.id
    → dispatch later second (dispatch now op s).0 ≡ ((dispatch now op s).0, not_dispatched, idle)
dispatch-refuses_second now later op second s h e =
    let id = op.issue.id in
    let found = dispatch-IsDispatchable now op s h in
    let gate = resolve_dispatch_claim s id op.tracker_rechecked now in
    let (allowed, reserved) = dispatch-reserves now op s h in
    let denying =
      reserve-IsDenying now op gate.entry s found.not_stopped
        (gate-consumes s id op.tracker_rechecked now allowed) in
    rw reserved (dispatch-denied later second (reserve now op gate.entry s) (rw e denying))
