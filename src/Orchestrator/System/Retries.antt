-- ===== src/Orchestrator/System/Retries.antt =====
-- actor_retry.go: what a fired retry does to the owners of any issue `j`, on every branch.
use aiops_platform.Common.Map.{insert, has-insert}
use aiops_platform.Common.{text_eq_refl, text_eq_iff}
use aiops_platform.Orchestrator.RetryQueue.{retry_fire_after_fetch_op, refreshed_entry}
use aiops_platform.Orchestrator.System.Owners.{Moved-trans, Moved-Held}
use aiops_platform.Orchestrator.Backoff.{is_continuation}
use aiops_platform.Orchestrator.System.Fired.{release-Moves}
use aiops_platform.Orchestrator.System.Fired.{matching-has, suppress-unparked, absent-unparked}
use aiops_platform.Orchestrator.RetryQueue.{
  matching_retry_entry, retry_fire_op, retry_poll_failed_op, store_retry,
}
use aiops_platform.Common.{false, none, some, Option, arith}
use aiops_platform.Common.Map.{lookup}
use aiops_platform.Orchestrator.System.Exits.{Moved-at}
use aiops_platform.Orchestrator.System.Moves.{store_retry-Moved}
use aiops_platform.Orchestrator.System.Fired.{suppress-Moves, spawn-Moves}
use aiops_platform.Orchestrator.RetryQueue.{retry_fire_dispatch_tail}
use aiops_platform.Orchestrator.Reschedule.{
  capacity_defer_retry, reschedule, schedule_retry_op, scheduled_entry,
}
use aiops_platform.Orchestrator.Transitions.{schedule_retry, claim}
use aiops_platform.Orchestrator.Recent.{record_event}
use aiops_platform.Common.{codes, ◌≡◌, Text, if◌then◌else◌}
use aiops_platform.Common.{ℕ, true, refl, if_intro}
use aiops_platform.Orchestrator.Types.{RetryKind, RuntimeEventKind, RetryEntry, OrchestratorState}
use aiops_platform.Orchestrator.Actor.{
  fetch_candidates, wake, event, schedule, idle, ScheduleRequest, Followup, Actor,
}
use aiops_platform.Orchestrator.System.Owners.{pending, Moved, Moved-refl, holdings, Moves, Held}
use aiops_platform.Common.Map.{has}
use aiops_platform.Tracker.{Issue}

-- What a fired retry of `id` does at the issue `j`. With `moved` it blocks no issue and
-- gives `j` no second owner, the followup that it returns included. With `deferred` it found no slot or no
-- answer: the entry stays queued, no owner changes, and the followup is a schedule of the same issue,
-- which, run on the state as it is then, takes the place of the entry, so that `j` has no second owner
-- behind it.
pub data Fires (o : Actor) (now : ℕ) (j id : Text) (s : OrchestratorState)
    (t : OrchestratorState × Followup) : Type 0 where
  moved : Moves j s t → (has j t.0.blocked ≡ true → has j s.blocked ≡ true) → Fires o now j id s t
  deferred :
      (request : ScheduleRequest)
      → t.1 ≡ schedule request
      → request.issue.id ≡ id
      → has id t.0.retry_attempts ≡ true
      → Moved j (holdings s) (holdings t.0) 0
      → Moved j (holdings s) (holdings (schedule_retry_op o now request t.0)) 0
      → Fires o now j id s t

-- A schedule of a queued issue takes the place of its entry.
replaced-Moved :
    (o : Actor) (now : ℕ) (j : Text) (r : ScheduleRequest) (s : OrchestratorState)
    → Held j (holdings s)
    → has r.issue.id s.retry_attempts ≡ true
    → Moved j (holdings s) (holdings (schedule_retry_op o now r s)) 0
unfolding schedule_retry_op schedule_retry scheduled_entry claim
replaced-Moved o now j r s h queued =
    let retries =
      has-insert j r.issue.id (scheduled_entry o now s.next_address r) s.retry_attempts in
    let claims = has-insert j r.issue.id tt s.claimed in
    let same = text_eq_iff r.issue.id j in
    record {
      no_new = ground (arith, retries, same, queued);
      backed = λ unclaimed. ground (arith, retries, claims, h.backed, same, queued, unclaimed);
      kept = λ free. ground (arith, claims, same, queued, free);
      no_orphan = λ owner claimed. ground (arith, retries, same, queued, owner);
      cleaning = refl;
    }

stays : (j : Text) (s : OrchestratorState) → Held j (holdings s) → Moves j s (s, idle)
stays j s h = record { moved = Moved-refl j (holdings s) h }

module _ (j id : Text) (o : Actor) (now : ℕ) (entry : RetryEntry) (attempt : ℕ)
    (s : OrchestratorState) (h : Held j (holdings s)) (held : Held id (holdings s))
    (queued : has id s.retry_attempts ≡ true) (own : entry.issue.id ≡ id) where
  failed-Fires :
      (run_err : Text)
      → Fires o now j id s (
        record_event now (event RuntimeEventKind.failed id entry.identifier run_err) s,
        schedule (reschedule now entry attempt run_err),
      )
  unfolding record_event reschedule
  failed-Fires run_err =
      deferred (reschedule now entry attempt run_err) refl own queued (Moved-refl j (holdings s) h)
        (replaced-Moved o now j (reschedule now entry attempt run_err) _ h (rw own queued))

  rescheduled-Fires :
      (run_err : Text)
      → Fires o now j id s (
          if o.stopping then (s, idle) else (
            record_event now (event RuntimeEventKind.failed id entry.identifier run_err) s,
            schedule (reschedule now entry attempt run_err),
          ))
  rescheduled-Fires run_err =
      if_intro (Fires o now j id s) o.stopping (moved (stays j s h) (λ b. b)) (failed-Fires run_err)

  defer-Fires : Fires o now j id s (capacity_defer_retry o now id entry attempt s)
  unfolding capacity_defer_retry
  defer-Fires = rescheduled-Fires (codes "no available orchestrator slots")

  tail-Fires : Fires o now j id s (retry_fire_dispatch_tail o now entry id attempt s)
  unfolding retry_fire_dispatch_tail
  tail-Fires =
      if_intro (Fires o now j id s) _
        (moved (suppress-Moves j id o now s h held entry queued)
          (suppress-unparked j id now entry s))
        (if_intro (Fires o now j id s) _ defer-Fires (
          if_intro (Fires o now j id s) _ defer-Fires
            (moved (spawn-Moves j id o now s h held _ refl queued) (λ b. b))))

-- The retry entry of an issue is about that issue.
pub record IsQueuedFor (id : Text) (s : OrchestratorState) : Type 0 where
  pub own : (entry : RetryEntry) → lookup id s.retry_attempts ≡ some entry → entry.issue.id ≡ id

matching-lookup :
    (s : OrchestratorState) (id : Text) (attempt : ℕ) (kind : RetryKind) (entry : RetryEntry)
    → matching_retry_entry s id attempt kind ≡ some entry
    → lookup id s.retry_attempts ≡ some entry
unfolding matching_retry_entry
matching-lookup s id attempt kind entry e = ground arith

Fires-after :
    (o : Actor) (now : ℕ) (j id : Text) (s t : OrchestratorState) (u : OrchestratorState × Followup)
    → Moved j (holdings s) (holdings t) 0
    → (has j t.blocked ≡ true → has j s.blocked ≡ true)
    → Fires o now j id t u
    → Fires o now j id s u
Fires-after o now j id s t u m b (moved n unparked) =
    moved (record { moved = Moved-trans j _ _ _ _ m n.moved }) (λ h. b (unparked h))
Fires-after o now j id s t u m b (deferred request asked own queued n again) =
    deferred request asked own queued (Moved-trans j _ _ _ _ m n) (Moved-trans j _ _ _ _ m again)

module _ (j id : Text) (o : Actor) (now attempt : ℕ) (kind : RetryKind) (s : OrchestratorState)
    (h : Held j (holdings s)) (held : Held id (holdings s)) (keyed : IsQueuedFor id s) where
  -- What holds of an operation whether or not the timer's entry is found.
  matched_intro :
      {g : RetryEntry → OrchestratorState × Followup}
      → ((entry : RetryEntry)
          → has id s.retry_attempts ≡ true
          → entry.issue.id ≡ id
          → Fires o now j id s (g entry))
      → Fires o now j id s (elim (matching_retry_entry s id attempt kind) [
        | none ↦ (s, idle)
        | some entry ↦ g entry
      ])
  matched_intro {g} branch = go (matching_retry_entry s id attempt kind) refl
    where
      go :
          (found : Option RetryEntry)
          → matching_retry_entry s id attempt kind ≡ found
          → Fires o now j id s (elim found [ none ↦ (s, idle) | some entry ↦ g entry ])
      go none e = moved (stays j s h) (λ b. b)
      go (some entry) e =
          branch entry (matching-has s id attempt kind entry e)
            (keyed.own entry (matching-lookup s id attempt kind entry e))

  pub retry_fire_op-Fires : Fires o now j id s (retry_fire_op o now id attempt kind s)
  unfolding retry_fire_op store_retry
  retry_fire_op-Fires = matched_intro (λ entry queued own.
      if_intro (Fires o now j id s) (is_continuation entry.kind)
        (moved (waits entry queued wake refl) (λ b. b))
        (if_intro (Fires o now j id s) o.has_lister
          (moved (waits entry queued (fetch_candidates id attempt kind entry.identifier) refl)
            (λ b. b))
          (tail-Fires j id o now entry attempt s h held queued own)))
    where
      waits :
          (entry : RetryEntry)
          → has id s.retry_attempts ≡ true
          → (fu : Followup) → pending j fu ≡ 0
          → Moves j s (store_retry id (record entry { has_timer = false }) s, fu)
      waits entry queued fu free = record {
        moved = Moved-at j _ _ _ _ _ refl free (store_retry-Moved j s h id _ queued);
      }

  pub retry_poll_failed_op-Fires :
      (fetch_err : Option Text)
      → Fires o now j id s (retry_poll_failed_op o now id attempt kind fetch_err s)
  unfolding retry_poll_failed_op
  retry_poll_failed_op-Fires fetch_err =
      matched_intro
        (λ entry queued own. rescheduled-Fires j id o now entry attempt s h held queued own _)

  -- The entry that carries the fetched issue is stored before the tail.
  refreshed : RetryEntry → Issue → OrchestratorState
  refreshed entry issue = record (store_retry id (refreshed_entry entry issue) s) {
    claimed_issues = insert id issue s.claimed_issues;
  }

  refreshed-Moved :
      (k : Text) (entry : RetryEntry) (issue : Issue)
      → Held k (holdings s)
      → has id s.retry_attempts ≡ true
      → Moved k (holdings s) (holdings (refreshed entry issue)) 0
  unfolding refreshed
  refreshed-Moved k entry issue l queued =
      store_retry-Moved k s l id (refreshed_entry entry issue) queued

  refreshed-queued : (e : RetryEntry) (i : Issue) → has id (refreshed e i).retry_attempts ≡ true
  unfolding refreshed store_retry
  refreshed-queued e i =
      ground (arith, has-insert id id (refreshed_entry e i) s.retry_attempts, text_eq_refl id)

  refreshed-own : (e : RetryEntry) (i : Issue) → i.id ≡ id → (refreshed_entry e i).issue.id ≡ id
  unfolding refreshed_entry
  refreshed-own e i same = ground (arith, same)

  found-Fires :
      (entry : RetryEntry) (issue : Issue)
      → has id s.retry_attempts ≡ true
      → issue.id ≡ id
      → Fires o now j id s (
          retry_fire_dispatch_tail o now
            (refreshed_entry entry issue)
            id
            attempt
            (refreshed entry issue))
  unfolding refreshed store_retry
  found-Fires entry issue queued own =
      let t = refreshed entry issue in
      let m = refreshed-Moved j entry issue h queued in
      let n = refreshed-Moved id entry issue held queued in
      Fires-after o now j id s t _ m (λ b. b)
        (tail-Fires j id o now (refreshed_entry entry issue) attempt t (Moved-Held j _ _ _ h m)
          (Moved-Held id _ _ _ held n) (refreshed-queued entry issue)
          (refreshed-own entry issue own))

  pub retry_fire_after_fetch_op-Fires :
      (found : Option Issue) (terminal : Option Text)
      → ((issue : Issue) → found ≡ some issue → issue.id ≡ id)
      → Fires o now j id s (retry_fire_after_fetch_op o now id attempt kind found terminal s)
  unfolding retry_fire_after_fetch_op refreshed
  retry_fire_after_fetch_op-Fires none terminal about = matched_intro (λ entry queued own.
      moved (release-Moves j id o now s h held entry terminal queued)
        (absent-unparked j id now entry terminal s))
  retry_fire_after_fetch_op-Fires (some issue) terminal about =
      matched_intro (λ entry queued own. found-Fires entry issue queued (about issue refl))
