-- ===== src/Orchestrator/System/Reachable.antt =====
-- actor.go: every reachable configuration of the actor holds each issue once.
use aiops_platform.Orchestrator.System.Followups.{panic-HeldOnce, end-HeldOnce, resume-HeldOnce}
use aiops_platform.Orchestrator.Initial.{new_orchestrator_state}
use aiops_platform.Common.Map.{lookup}
use aiops_platform.Orchestrator.System.Config.{
  panics, Reach, initial, Step, dispatches, spawns, schedules, reschedules, exits, fires,
  fails_to_poll, fetches, finds_absent, finds_inactive, refreshes, patches, cancels_stalled,
  cancels_over_budget, records, reconfigures, begins_cleanup, resumes, ends_cleanup, here, step,
}
use aiops_platform.Orchestrator.System.Refuses.{took, refused}
use aiops_platform.Orchestrator.System.Retries.{
  deferred, moved, retry_fire_op-Fires, retry_poll_failed_op-Fires, retry_fire_after_fetch_op-Fires,
}
use aiops_platform.Orchestrator.Actor.{
  cancel_runs, clean_up, wake, idle, fetch_candidates, spawn, schedule,
}
use aiops_platform.Orchestrator.System.Releases.{AllHeld}
use aiops_platform.Orchestrator.System.Owners.{Moved, holdings}
use aiops_platform.Common.Map.{has, has-insert}
use aiops_platform.Common.{text_eq_iff}
use aiops_platform.Orchestrator.Transitions.{schedule_retry, claim}
use aiops_platform.Orchestrator.Reschedule.{schedule_retry_op, scheduled_entry}
use aiops_platform.Common.{ℕ, Bool, true, false, refl, ap, arith, ◌≡◌, Text, ◌∷◌}
use aiops_platform.Orchestrator.Dispatch.{
  accepted, DispatchOp, dispatch, dispatch_claimed, reserve, dispatch_spawn, resolve_dispatch_claim,
}
use aiops_platform.Orchestrator.Actor.{
  fetch_candidates, clean_up, schedule, idle, spawn, ScheduleRequest, Followup, Actor,
}
use aiops_platform.Orchestrator.System.Config.{
  HeldOnce-Held, scheduled_later, settled, then_run-HeldOnce, then_run, HeldOnce, Config,
}
use aiops_platform.Orchestrator.Types.{RunningEntry, OrchestratorState}
use aiops_platform.Orchestrator.System.Refuses.{dispatch-Decides}
use aiops_platform.Orchestrator.System.Retries.{Fires}
use aiops_platform.Orchestrator.System.Followups.{
  begin-HeldOnce, consumed, register-HeldOnce, schedule-HeldOnce,
}
use aiops_platform.Orchestrator.Dispatch.Claims.{
  gate-consumes, dispatch-IsDispatchable, dispatch-reserves,
}
use aiops_platform.Orchestrator.System.Accepts.{reserve-Reserves, accept-HeldOnce}
use aiops_platform.Orchestrator.Finalize.{finalize}
use aiops_platform.Orchestrator.System.Finalized.{finalize-Moved}
use aiops_platform.Orchestrator.System.Reconciled.{reconcile_absent-Sweeps}
use aiops_platform.Orchestrator.System.Inactive.{reconcile_inactive-Sweeps}
use mathlib.Core.Path.{subst}
use aiops_platform.Common.{sym}
use aiops_platform.Orchestrator.System.Refreshed.{
  refresh_active-Keeps, patch_active_claimed-Keeps, SameHolders, SameHolders-Moved,
  SameHolders-refl,
}
use aiops_platform.Orchestrator.System.Watched.{
  reconcile_stalled-Stays, reconcile_budget_exceeded-Stays, record_runtime_event_op-Stays,
  apply_setting-Stays, Stays,
}

dispatch-spawns :
    (now : ℕ) (op : DispatchOp) (s : OrchestratorState)
    → (dispatch now op s).1 ≡ accepted
    → (dispatch now op s).2
      ≡ spawn (
          dispatch_spawn op (resolve_dispatch_claim s op.issue.id op.tracker_rechecked now).entry s)
unfolding dispatch dispatch_claimed
dispatch-spawns now op s h = ground arith

dispatch-HeldOnce :
    (j : Text) (now : ℕ) (op : DispatchOp) (c : Config)
    → HeldOnce j c
    → HeldOnce j (then_run c ((dispatch now op c.state).0, (dispatch now op c.state).2))
dispatch-HeldOnce j now op c h = elim (dispatch-Decides j now op c.state (HeldOnce-Held j c h)) [
  | refused m ↦ then_run-HeldOnce j c (dispatch now op c.state).0 (dispatch now op c.state).2 h m
  | took e ↦
      let gate = resolve_dispatch_claim c.state op.issue.id op.tracker_rechecked now in
      let (allowed, reserved) = dispatch-reserves now op c.state e in
      rw (reserved, dispatch-spawns now op c.state e)
        (accept-HeldOnce j now op c (reserve now op gate.entry c.state)
          (dispatch_spawn op gate.entry c.state) h (dispatch-IsDispatchable now op c.state e)
          (reserve-Reserves j now op gate.entry c.state
            (gate-consumes c.state op.issue.id op.tracker_rechecked now allowed))
          refl)
]

-- A schedule of an issue that is queued has no place beside the entry.
queued-HeldOnce :
    (j : Text) (c : Config) (t : OrchestratorState) (r : ScheduleRequest)
    → HeldOnce j (record c { state = t; followups = schedule r ∷ c.followups })
    → has r.issue.id t.retry_attempts ≡ true
    → HeldOnce j (record c { state = t; deferred = r ∷ c.deferred })
queued-HeldOnce j c t r h queued =
    let same = text_eq_iff r.issue.id j in
    record {
      single = ground (arith, h.single, same, queued);
      backed = λ unclaimed. ground (arith, h.backed unclaimed);
      owned = λ claimed. ground (arith, h.owned claimed, h.single, same, queued);
      resumable = λ p. ground (arith, h.resumable p);
    }

settled-HeldOnce :
    (j : Text) (c : Config) (t : OrchestratorState) (fu : Followup)
    → HeldOnce j (record c { state = t; followups = fu ∷ c.followups })
    → HeldOnce j (settled c (t, fu))
settled-HeldOnce j c t (schedule r) h = go (has r.issue.id t.retry_attempts) refl
  where
    go : (b : Bool) → has r.issue.id t.retry_attempts ≡ b → HeldOnce j (scheduled_later b c t r)
    go true queued = queued-HeldOnce j c t r h queued
    go false free = h
settled-HeldOnce j c t idle h = h
settled-HeldOnce j c t wake h = h
settled-HeldOnce j c t (spawn req) h = h
settled-HeldOnce j c t (clean_up w continuation) h = h
settled-HeldOnce j c t (fetch_candidates id attempt kind identifier) h = h
settled-HeldOnce j c t (cancel_runs runs cleanups) h = h

-- The retry that is scheduled again stands in the place of its own entry.
rescheduled-HeldOnce :
    (o : Actor) (j : Text) (now : ℕ) (c : Config) (t : OrchestratorState) (r : ScheduleRequest)
    → HeldOnce j (record c { state = t })
    → has r.issue.id t.retry_attempts ≡ true
    → HeldOnce j (record c { state = schedule_retry_op o now r t })
unfolding schedule_retry_op schedule_retry scheduled_entry claim
rescheduled-HeldOnce o j now c t r h queued =
    let retries =
      has-insert j r.issue.id (scheduled_entry o now t.next_address r) t.retry_attempts in
    let claims = has-insert j r.issue.id tt t.claimed in
    let same = text_eq_iff r.issue.id j in
    record {
      single = ground (arith, retries, h.single, same, queued);
      backed = λ unclaimed. ground (arith, retries, claims, h.backed, unclaimed);
      owned = λ claimed. ground (arith, retries, claims, h.owned, h.single, same, queued, claimed);
      resumable = λ p. ground (arith, retries, h.resumable p, same, queued);
    }

Moved-state :
    (j : Text) (c : Config) (t : OrchestratorState)
    → HeldOnce j c
    → Moved j (holdings c.state) (holdings t) 0
    → HeldOnce j (record c { state = t })
Moved-state j c t h m =
    let k = then_run-HeldOnce j c t idle h m in
    record {
      single = omega (arith, k.single);
      backed = λ unclaimed. omega (arith, k.backed unclaimed);
      owned = λ claimed. omega (arith, k.owned claimed);
      resumable = λ p. ground (arith, k.resumable p);
    }

-- A step that keeps the holders of every issue.
kept-state :
    (j : Text) (c : Config) (t : OrchestratorState)
    → HeldOnce j c
    → SameHolders (holdings c.state) (holdings t)
    → HeldOnce j (record c { state = t })
kept-state j c t h k =
    Moved-state j c t h
      (SameHolders-Moved j (holdings c.state) (holdings t) (HeldOnce-Held j c h) k)

Stays-state :
    (j : Text) (c : Config) (t : OrchestratorState)
    → HeldOnce j c
    → Stays c.state t
    → HeldOnce j (record c { state = t })
Stays-state j c t h k =
    kept-state j c t h
      (subst (SameHolders (holdings c.state)) (sym k.stays) (SameHolders-refl (holdings c.state)))

deferred-settled :
    (c : Config) (t : OrchestratorState) (r : ScheduleRequest)
    → has r.issue.id t.retry_attempts ≡ true
    → settled c (t, schedule r) ≡ record c { state = t; deferred = r ∷ c.deferred }
deferred-settled c t r h = ap (λ b. scheduled_later b c t r) h

Fires-HeldOnce :
    (o : Actor) (j id : Text) (now : ℕ) (c : Config) (p : OrchestratorState × Followup)
    → HeldOnce j c
    → Fires o now j id c.state p
    → HeldOnce j (settled c p)
Fires-HeldOnce o j id now c p h (moved m unparked) =
    settled-HeldOnce j c p.0 p.1 (then_run-HeldOnce j c p.0 p.1 h m.moved)
Fires-HeldOnce o j id now c p h (deferred request asked own queued m again) =
    let k = Moved-state j c p.0 h m in
    rw (asked, deferred-settled c p.0 request (rw own queued))
      (record { single = k.single; backed = k.backed; owned = k.owned; resumable = k.resumable })

HeldOnce-AllHeld : (c : Config) → ((k : Text) → HeldOnce k c) → AllHeld c.state
HeldOnce-AllHeld c h = record { held = λ k. HeldOnce-Held k c (h k) }

Step-HeldOnce :
    (o : Actor) (c d : Config)
    → Step o c d
    → ((k : Text) → HeldOnce k c)
    → (j : Text) → HeldOnce j d
Step-HeldOnce o c d (dispatches now op) h j = dispatch-HeldOnce j now op c (h j)
Step-HeldOnce o c d (spawns now req before rest e) h j =
    register-HeldOnce j now req c _ (h j) (consumed j c before (spawn req) rest e)
Step-HeldOnce o c d (panics now req run_err before rest e own) h j =
    panic-HeldOnce j now req run_err c _ (h j) (consumed j c before (spawn req) rest e) own
Step-HeldOnce o c d (schedules now r before rest e) h j =
    schedule-HeldOnce o j now r c _ (h j) (consumed j c before (schedule r) rest e)
Step-HeldOnce o c d (reschedules now r before rest e queued) h j =
    let k = rescheduled-HeldOnce o j now c c.state r (h j) queued in
    record { single = k.single; backed = k.backed; owned = k.owned; resumable = k.resumable }
Step-HeldOnce o c d (exits now f keyed) h j =
    let t = finalize o now f c.state in
    then_run-HeldOnce j c t.0 t.1 (h j)
      (finalize-Moved j o now f c.state (HeldOnce-Held j c (h j)) keyed).moved
Step-HeldOnce o c d (fires now attempt id kind keyed) h j = Fires-HeldOnce o j id now c _ (h j) (
    retry_fire_op-Fires j id o now attempt kind c.state (HeldOnce-Held j c (h j))
      (HeldOnce-Held id c (h id)) keyed)
Step-HeldOnce o c d (fails_to_poll now attempt id kind fetch_err keyed) h j =
    Fires-HeldOnce o j id now c _ (h j) (
      retry_poll_failed_op-Fires j id o now attempt kind c.state (HeldOnce-Held j c (h j))
        (HeldOnce-Held id c (h id)) keyed fetch_err)
Step-HeldOnce o c d (fetches now attempt id kind found terminal keyed about) h j =
    Fires-HeldOnce o j id now c _ (h j) (
      retry_fire_after_fetch_op-Fires j id o now attempt kind c.state (HeldOnce-Held j c (h j))
        (HeldOnce-Held id c (h id)) keyed found terminal about)
Step-HeldOnce o c d (finds_absent absent) h j =
    Moved-state j c _ (h j)
      ((reconcile_absent-Sweeps absent c.state (HeldOnce-AllHeld c h)).moved j)
Step-HeldOnce o c d (finds_inactive now issues terminal_states) h j =
    Moved-state j c _ (h j) (
      (reconcile_inactive-Sweeps now issues terminal_states c.state (HeldOnce-AllHeld c h)).moved j)
Step-HeldOnce o c d (refreshes issues active) h j =
    kept-state j c _ (h j) (refresh_active-Keeps issues active c.state).kept
Step-HeldOnce o c d (patches issues active) h j =
    kept-state j c _ (h j) (patch_active_claimed-Keeps issues active c.state).kept
Step-HeldOnce o c d (cancels_stalled timeout now) h j =
    Stays-state j c _ (h j) (reconcile_stalled-Stays timeout now c.state).first
Step-HeldOnce o c d (cancels_over_budget now) h j =
    Stays-state j c _ (h j) (reconcile_budget_exceeded-Stays now c.state).first
Step-HeldOnce o c d (records to_int64 clock now id event) h j =
    Stays-state j c _ (h j)
      (record_runtime_event_op-Stays to_int64 clock now id event c.state).first
Step-HeldOnce o c d (reconfigures setting) h j =
    Stays-state j c _ (h j) (apply_setting-Stays setting c.state)
Step-HeldOnce o c d (begins_cleanup id b) h j = begin-HeldOnce j id c (h j) b
Step-HeldOnce o c d (resumes now r q) h j = resume-HeldOnce o j now r c (h j) q
Step-HeldOnce o c d (ends_cleanup id) h j = end-HeldOnce j id c (h j)

initial-HeldOnce :
    (poll limit : ℕ) (unallocated : ℕ → RunningEntry) (j : Text)
    → HeldOnce j (initial poll limit unallocated)
unfolding new_orchestrator_state lookup
initial-HeldOnce poll limit unallocated j = record {
  single = omega arith;
  backed = λ unclaimed. refl;
  owned = λ claimed. cc;
  resumable = λ p. cc;
}

-- In every configuration that the actor reaches from its start, by operations and followups in any
-- order, each issue is held at most once, by one run, retry entry, blocked entry or followup, and
-- exactly once if it is claimed. One followup is not free in this: the schedule of a deferred retry may
-- run after any other operations, but only while an entry of its issue is still queued, and until then
-- it counts as no holder. An exit is about the run's own issue, and so are a queued entry, a fetched
-- issue and a spawn that panics.
pub Reach-HeldOnce :
    (o : Actor) (poll limit : ℕ) (unallocated : ℕ → RunningEntry) (c : Config)
    → Reach o (initial poll limit unallocated) c
    → (j : Text) → HeldOnce j c
Reach-HeldOnce o poll limit unallocated c here j = initial-HeldOnce poll limit unallocated j
Reach-HeldOnce o poll limit unallocated c (step b d r s) j =
    Step-HeldOnce o b d s (Reach-HeldOnce o poll limit unallocated b r) j
