-- ===== src/Orchestrator/Reschedule.antt =====
-- actor_retry.go: scheduling a retry, and rescheduling a fired one.
use aiops_platform.Common.{
  ℕ, suc, ◌+◌, true, none, ◌&&◌, ltb, Text, codes, pos, pos_part, if◌then◌else◌,
}
use aiops_platform.Orchestrator.Types.{OrchestratorState, RetryEntry, RetryKind, RuntimeEventKind}
use aiops_platform.Orchestrator.Recent.{record_event}
use aiops_platform.Orchestrator.Transitions.{schedule_retry}
use aiops_platform.Orchestrator.Backoff.{next_delay, is_quota_backoff, quota_backoff_delay_override}
use aiops_platform.Orchestrator.Actor.{Actor, Followup, idle, schedule, ScheduleRequest, event}

-- The entry of scheduleRetryOp; `now` is the clock, and the entry gets a new address.
unfoldable pub scheduled_entry : Actor → ℕ → ℕ → ScheduleRequest → RetryEntry
scheduled_entry o now address r =
    let due_at = now + next_delay o.max_backoff r.req in
    record {
      address = address;
      issue = r.issue;
      issue_id = r.issue.id;
      identifier = r.identifier;
      attempt = r.req.attempt;
      due_at = due_at;
      has_timer = true;
      error = r.run_err;
      kind = r.req.kind;
      quota_backoff_due_at =
          if is_quota_backoff r.req.kind && ltb 0 (pos_part r.req.delay_override)
          then due_at
          else 0;
      startup_failure = r.startup_failure;
      continuation_turn_count = r.continuation_turn_count;
      workspace = r.workspace;
    }

unfoldable pub schedule_retry_op :
    Actor → ℕ → ScheduleRequest → OrchestratorState → OrchestratorState
schedule_retry_op o now r s =
    schedule_retry (scheduled_entry o now s.next_address r)
      (record s { next_address = suc s.next_address })

-- The request behind the reschedules of a fired retry: quota retries keep their attempt and the rest
-- of their quiet window, the others go on to the next attempt.
unfoldable pub reschedule : ℕ → RetryEntry → ℕ → Text → ScheduleRequest
reschedule now entry attempt run_err =
    let quota = is_quota_backoff entry.kind in
    record {
      issue = entry.issue;
      identifier = entry.identifier;
      req = record {
        kind = if quota then RetryKind.quota_backoff else RetryKind.failure;
        attempt = if quota then attempt else attempt + 1;
        delay_override = pos (if quota then quota_backoff_delay_override entry now else 0);
      };
      run_err = run_err;
      workspace = entry.workspace;
      startup_failure = if quota then none else entry.startup_failure;
      continuation_turn_count = 0;
    }

unfoldable pub capacity_defer_retry :
    Actor → ℕ → Text → RetryEntry → ℕ → OrchestratorState → OrchestratorState × Followup
capacity_defer_retry o now id entry attempt s =
    let run_err = codes "no available orchestrator slots" in
    if o.stopping then (s, idle) else (
      record_event now (event RuntimeEventKind.failed id entry.identifier run_err) s,
      schedule (reschedule now entry attempt run_err),
    )
