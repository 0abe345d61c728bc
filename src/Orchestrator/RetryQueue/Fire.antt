-- ===== src/Orchestrator/RetryQueue/Fire.antt =====
-- actor_retry.go: which timer fires find the retry entry that armed them.
use aiops_platform.Common.Map.{lookup-insert}
use aiops_platform.Orchestrator.Transitions.{schedule_retry, claim}
use aiops_platform.Common.{◌≡◌, ◌⊎◌, ◌≢◌, text_eq_refl}
use aiops_platform.Common.{ℕ, true, some, refl, arith}
use aiops_platform.Orchestrator.Types.{OrchestratorState, RetryKind}
use aiops_platform.Orchestrator.RetryQueue.{retry_fire_op, same_kind, matching_retry_entry}
use aiops_platform.Orchestrator.Reschedule.{scheduled_entry, schedule_retry_op}
use aiops_platform.Orchestrator.Actor.{idle, ScheduleRequest, Actor}

same_kind_refl : (kind : RetryKind) → same_kind kind kind ≡ true
same_kind_refl RetryKind.failure = refl
same_kind_refl RetryKind.continuation = refl
same_kind_refl RetryKind.quota_backoff = refl

same_kind_eq : (kind other : RetryKind) → same_kind kind other ≡ true → kind ≡ other
same_kind_eq RetryKind.failure RetryKind.failure h = refl
same_kind_eq RetryKind.continuation RetryKind.continuation h = refl
same_kind_eq RetryKind.quota_backoff RetryKind.quota_backoff h = refl
same_kind_eq RetryKind.failure RetryKind.continuation h = cc
same_kind_eq RetryKind.failure RetryKind.quota_backoff h = cc
same_kind_eq RetryKind.continuation RetryKind.failure h = cc
same_kind_eq RetryKind.continuation RetryKind.quota_backoff h = cc
same_kind_eq RetryKind.quota_backoff RetryKind.failure h = cc
same_kind_eq RetryKind.quota_backoff RetryKind.continuation h = cc

-- After a retry is scheduled, the timer with its attempt and its kind finds the new entry; every
-- other timer of the issue, an older one above all, finds nothing, so that its fire changes nothing
-- and starts nothing.
pub schedule_retry_op-retry_fire :
    (o : Actor) (now later : ℕ) (r : ScheduleRequest) (s : OrchestratorState) (attempt : ℕ)
    (kind : RetryKind)
    → (matching_retry_entry (schedule_retry_op o now r s) r.issue.id r.req.attempt r.req.kind
        ≡ some (scheduled_entry o now s.next_address r))
      × ((attempt ≢ r.req.attempt) ⊎ (kind ≢ r.req.kind)
          → retry_fire_op o later r.issue.id attempt kind (schedule_retry_op o now r s)
            ≡ (schedule_retry_op o now r s, idle))
unfolding matching_retry_entry schedule_retry_op schedule_retry claim retry_fire_op scheduled_entry
schedule_retry_op-retry_fire o now later r s attempt kind =
    let entry = scheduled_entry o now s.next_address r in
    let found = lookup-insert r.issue.id r.issue.id entry s.retry_attempts in
    (
      ground (arith, found, text_eq_refl r.issue.id, same_kind_refl r.req.kind),
      λ other. ground (arith, found, text_eq_refl r.issue.id, same_kind_eq r.req.kind kind, other),
    )
