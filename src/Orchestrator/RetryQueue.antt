-- ===== src/Orchestrator/RetryQueue.antt =====
-- actor_retry.go: the operations of a fired retry. `found` is the fetched issue where the candidates
-- still hold it.
pub mod Fire
use aiops_platform.Common.{
  ℕ, suc, ◌+◌, List, [], ◌∷◌, ◌++◌, Bool, true, false, Option, none, some, ◌&&◌, ◌||◌, not, ltb,
  leb, ◌==◌, is_some, Text, codes, text_eq, is_empty, trim_space, ℤ, pos, pos_part, if◌then◌else◌,
}
use aiops_platform.Common.Map.{TextSet, lookup, insert, delete}
use aiops_platform.Tracker.{Issue, IssueState, IssueStateOutcome}
use aiops_platform.Orchestrator.Types.{
  OrchestratorState, RetryEntry, RetryKind, RuntimeEventKind, OperatorTerminalStopEntry,
}
use aiops_platform.Orchestrator.Recent.{record_event}
use aiops_platform.Orchestrator.Counts.{running_count, state_capacity_full}
use aiops_platform.Orchestrator.Transitions.{schedule_retry, release_claim}
use aiops_platform.Orchestrator.OperatorStop.{
  is_operator_terminal_stopped, record_operator_terminal_dispatch_suppressed,
}
use aiops_platform.Orchestrator.Backoff.{
  next_delay, is_continuation, is_quota_backoff, is_failure, quota_backoff_delay_override,
}
use aiops_platform.Orchestrator.Actor.{
  Actor, Followup, idle, wake, spawn, schedule, clean_up, fetch_candidates, ScheduleRequest, event,
  is_tracker_state, latch_operator_terminal_stop, terminal_workspace_for_cleanup,
}
use aiops_platform.Orchestrator.Reschedule.{reschedule, capacity_defer_retry}

abbrev pub same_kind : RetryKind → RetryKind → Bool
same_kind RetryKind.failure RetryKind.failure = true
same_kind RetryKind.continuation RetryKind.continuation = true
same_kind RetryKind.quota_backoff RetryKind.quota_backoff = true
same_kind _ _ = false

unfoldable pub matching_retry_entry : OrchestratorState → Text → ℕ → RetryKind → Option RetryEntry
matching_retry_entry s id attempt kind = elim (lookup id s.retry_attempts) [
  | none ↦ none
  | some entry ↦
      if not (entry.attempt == attempt) || not (same_kind entry.kind kind) then none else some entry
]

-- A write through the *RetryEntry that the map holds.
unfoldable pub store_retry : Text → RetryEntry → OrchestratorState → OrchestratorState
store_retry id entry s = record s { retry_attempts = insert id entry s.retry_attempts }

-- The event that a retry's first suppressed dispatch logs.
unfoldable pub log_suppressed_retry :
    ℕ → Text → OrchestratorState × Option OperatorTerminalStopEntry × Bool → OrchestratorState
log_suppressed_retry now id (counted, none, first) = counted
log_suppressed_retry now id (counted, some latch, first) =
    if first
    then record_event now
        (event RuntimeEventKind.operator_terminal_stop_dispatch_suppressed id latch.identifier
          (codes "retry dispatch suppressed after Operator Terminal Stop"))
        counted
    else counted

-- The suppression's half of suppressRetryFireAfterOperatorStop, behind the test of the latch.
unfoldable pub suppress_retry_fire : ℕ → Text → RetryEntry → OrchestratorState → OrchestratorState
suppress_retry_fire now id entry s = release_claim id (
    log_suppressed_retry now id (
      record_operator_terminal_dispatch_suppressed now id entry.issue
        (codes "retry_fire_after_operator_terminal_stop") s))

unfoldable pub retry_fire_dispatch_tail :
    Actor → ℕ → RetryEntry → Text → ℕ → OrchestratorState → OrchestratorState × Followup
retry_fire_dispatch_tail o now entry id attempt s =
    if is_operator_terminal_stopped id s
    then (suppress_retry_fire now id entry s, idle)
    else if leb s.max_concurrent_agents (running_count s)
    then capacity_defer_retry o now id entry attempt s
    else if state_capacity_full s entry.issue.state
    then capacity_defer_retry o now id entry attempt s
    else (
      record s { retry_attempts = delete id s.retry_attempts },
      spawn (record {
        id = id;
        issue = entry.issue;
        attempt = if not (is_quota_backoff entry.kind) || ltb 0 attempt then some attempt else none;
        continuation_attempt = 0;
        continuation_turn_count = 0;
        clean_turn_budget = 0;
        workspace = entry.workspace;
      }),
    )

-- retryFireOp.apply: a continuation only wakes the poll loop.
unfoldable pub retry_fire_op :
    Actor → ℕ → Text → ℕ → RetryKind → OrchestratorState → OrchestratorState × Followup
retry_fire_op o now id attempt kind s = elim (matching_retry_entry s id attempt kind) [
  | none ↦ (s, idle)
  | some entry ↦
      let fired = store_retry id (record entry { has_timer = false }) s in
      if is_continuation entry.kind
      then (fired, wake)
      else if o.has_lister
      then (fired, fetch_candidates id attempt kind entry.identifier)
      else retry_fire_dispatch_tail o now entry id attempt s
]

-- retryPollFailedOp.apply.
unfoldable pub retry_poll_failed_op :
    Actor
    → ℕ
    → Text
    → ℕ
    → RetryKind
    → Option Text
    → OrchestratorState
    → OrchestratorState × Followup
retry_poll_failed_op o now id attempt kind fetch_err s =
    let run_err =
      codes "retry poll failed"
      ++ elim fetch_err [ none ↦ [] | some message ↦ codes ": " ++ message ] in
    elim (matching_retry_entry s id attempt kind) [
      | none ↦ (s, idle)
      | some entry ↦ if o.stopping then (s, idle) else (
        record_event now (event RuntimeEventKind.failed id entry.identifier run_err) s,
        schedule (reschedule now entry attempt run_err),
      )
    ]

-- The branch of retryFireAfterFetchOp.apply for an issue that is no candidate any more.
unfoldable pub release_absent_retry :
    ℕ → Text → RetryEntry → Option Text → OrchestratorState → OrchestratorState × Followup
release_absent_retry now id entry terminal s =
    let released = λ (message : Text) (t : OrchestratorState).
      record_event now (event RuntimeEventKind.failed id entry.identifier message)
        (release_claim id t) in
    elim terminal [
      | none ↦ (released (codes "retry released: issue absent from active candidates") s, idle)
      | some state ↦
          let stopped =
            latch_operator_terminal_stop now id (record (entry.issue) { state = state }) s in
          elim (terminal_workspace_for_cleanup id entry.identifier entry.workspace.path
            entry.workspace.root state) [
              | none ↦ (
                released (codes "retry released: issue absent from active candidates") stopped,
                idle,
              )
              | some w ↦ (
                released (codes "retry released: issue terminal, removing workspace") stopped,
                clean_up w none,
              )
            ]
    ]

-- The entry that carries the fetched issue; a blank identifier keeps the old one.
unfoldable pub refreshed_entry : RetryEntry → Issue → RetryEntry
refreshed_entry entry issue =
    let fresh = record entry { issue = issue } in
    if is_empty (trim_space issue.identifier)
    then fresh
    else record fresh { identifier = trim_space issue.identifier }

-- retryFireAfterFetchOp.apply; `terminal` is the terminal state that the resolver reported.
unfoldable pub retry_fire_after_fetch_op :
    Actor
    → ℕ
    → Text
    → ℕ
    → RetryKind
    → Option Issue
    → Option Text
    → OrchestratorState
    → OrchestratorState × Followup
retry_fire_after_fetch_op o now id attempt kind found terminal s =
    elim (matching_retry_entry s id attempt kind) [
      | none ↦ (s, idle)
      | some entry ↦ elim found [
        | none ↦ release_absent_retry now id entry terminal s
        | some issue ↦
            let fresh = refreshed_entry entry issue in
            retry_fire_dispatch_tail o now fresh id attempt (record (store_retry id fresh s) {
              claimed_issues = insert id issue s.claimed_issues;
            })
      ]
    ]

-- findIssueByID.
unfoldable pub find_issue_by_id : List Issue → Text → Option Issue
find_issue_by_id [] id = none
find_issue_by_id (issue ∷ rest) id =
    if text_eq issue.id id then some issue else find_issue_by_id rest id

-- resolveRetryTerminalState: `row` is what the resolver answered for the id, `none` where no
-- resolver is wired or the fetch failed.
unfoldable pub resolve_retry_terminal_state : Option IssueState → TextSet → Option Text
resolve_retry_terminal_state none terminal_states = none
resolve_retry_terminal_state (some row) terminal_states = elim row.outcome [
  | IssueStateOutcome.current ↦
      let state = trim_space row.state in
      if is_empty state || not (is_tracker_state state terminal_states) then none else some state
  | _ ↦ none
]

-- The operation that the followup of fireWithCandidateFetch submits.
pub data FetchedOp : Type 0 where
  poll_failed : Option Text → FetchedOp
  after_fetch : Option Issue → Option Text → FetchedOp

unfoldable pub fire_with_candidate_fetch :
    Text → List Issue → Option Text → Option IssueState → TextSet → FetchedOp
fire_with_candidate_fetch id issues fetch_err row terminal_states =
    let found = find_issue_by_id issues id in
    if is_some fetch_err && not (is_some found)
    then poll_failed fetch_err
    else after_fetch found
        (if is_some found then none else resolve_retry_terminal_state row terminal_states)
