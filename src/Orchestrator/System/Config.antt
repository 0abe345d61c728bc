-- ===== src/Orchestrator/System/Config.antt =====
-- actor.go: the actor with the followups that still run, as a transition system. A followup may run at
-- any time, so the operations come in any order. The followup of a deferred retry, which schedules
-- again an entry that still stands, waits in a list of its own and has a step only while an entry of
-- its issue stands. The program does not check this, and can run it later.
use aiops_platform.Orchestrator.Cleanup.{begin_workspace_cleanup, end_workspace_cleanup}
use aiops_platform.Orchestrator.System.Exits.{IsKeyed}
use aiops_platform.Orchestrator.System.Retries.{IsQueuedFor}
use aiops_platform.Common.{
  arith, ℕ, ℤ, Bool, true, false, some, ◌≡◌, ◌+◌, ◌≤◌, Text, ◌∷◌, [], ◌++◌, List, Option,
}
use aiops_platform.Common.Map.{has, Map, TextSet, insert, delete}
use aiops_platform.Orchestrator.Types.{RunningEntry, RetryKind, OrchestratorState}
use aiops_platform.Orchestrator.Actor.{
  ScheduleRequest, spawn, SpawnRequest, schedule, Actor, Followup,
}
use aiops_platform.Orchestrator.System.Owners.{Moved, holdings, count_of, pending, Held, owners}
use aiops_platform.Orchestrator.Dispatch.{dispatch, DispatchOp}
use aiops_platform.Orchestrator.Reschedule.{schedule_retry_op}
use aiops_platform.Orchestrator.Spawn.{recover_spawn_panic, register_run}
use aiops_platform.Orchestrator.Finalize.Ops.{FinalizeOp}
use aiops_platform.Orchestrator.Finalize.{finalize}
use aiops_platform.Orchestrator.RetryQueue.{
  retry_fire_after_fetch_op, retry_poll_failed_op, retry_fire_op,
}
use aiops_platform.Tracker.{Issue}
use aiops_platform.Orchestrator.Reconcile.{reconcile_inactive, reconcile_absent}
use aiops_platform.Orchestrator.Refresh.{refresh_active, patch_active_claimed}
use aiops_platform.Orchestrator.Watch.{reconcile_stalled, reconcile_budget_exceeded}
use aiops_platform.Orchestrator.RuntimeEvents.Tokens.{TaskEvent}
use aiops_platform.Orchestrator.RuntimeEvents.Fold.{record_runtime_event_op}
use aiops_platform.Orchestrator.Settings.{Setting, apply_setting}
use aiops_platform.Orchestrator.Initial.{new_orchestrator_state}

-- `deferred` holds the schedules that are to take the place of a retry entry; `removing` holds the
-- issues whose cleanup attempt has reserved the workspace and may still resume the continuation.
pub record Config : Type 0 where
  pub state : OrchestratorState
  pub followups : List Followup
  pub deferred : List ScheduleRequest
  pub removing : TextSet

abbrev pub all_pending : Text → List Followup → ℕ
all_pending j [] = 0
all_pending j (fu ∷ fus) = pending j fu + all_pending j fus

-- The configuration behind an operation.
abbrev pub then_run : Config → OrchestratorState × Followup → Config
then_run c t = record c { state = t.0; followups = t.1 ∷ c.followups }

-- Behind a fired retry: a schedule of an issue that is queued is to replace its entry.
abbrev pub scheduled_later : Bool → Config → OrchestratorState → ScheduleRequest → Config
scheduled_later true c t r = record c { state = t; deferred = r ∷ c.deferred }
scheduled_later false c t r = record c { state = t; followups = schedule r ∷ c.followups }

abbrev pub settled : Config → OrchestratorState × Followup → Config
settled c (t, schedule r) = scheduled_later (has r.issue.id t.retry_attempts) c t r
settled c (t, fu) = record c { state = t; followups = fu ∷ c.followups }

pub data Step (o : Actor) (c : Config) : Config → Type 0 where
  dispatches :
      (now : ℕ) (op : DispatchOp)
      → Step o c (then_run c ((dispatch now op c.state).0, (dispatch now op c.state).2))
  spawns :
      (now : ℕ) (req : SpawnRequest) (before rest : List Followup)
      → c.followups ≡ before ++ spawn req ∷ rest
      → Step o c (record c { state = register_run now req c.state; followups = before ++ rest })
  panics :
      (now : ℕ) (req : SpawnRequest) (run_err : Text) (before rest : List Followup)
      → c.followups ≡ before ++ spawn req ∷ rest
      → req.id ≡ req.issue.id
      → Step o c (
          then_run
            (record c { followups = before ++ rest })
            (recover_spawn_panic now req run_err c.state))
  schedules :
      (now : ℕ) (r : ScheduleRequest) (before rest : List Followup)
      → c.followups ≡ before ++ schedule r ∷ rest
      → Step o c
          (record c { state = schedule_retry_op o now r c.state; followups = before ++ rest })
  reschedules :
      (now : ℕ) (r : ScheduleRequest) (before rest : List ScheduleRequest)
      → c.deferred ≡ before ++ r ∷ rest
      → has r.issue.id c.state.retry_attempts ≡ true
      → Step o c (record c { state = schedule_retry_op o now r c.state; deferred = before ++ rest })
  exits :
      (now : ℕ) (f : FinalizeOp)
      → IsKeyed f c.state
      → Step o c (then_run c (finalize o now f c.state))
  fires :
      (now attempt : ℕ) (id : Text) (kind : RetryKind)
      → IsQueuedFor id c.state
      → Step o c (settled c (retry_fire_op o now id attempt kind c.state))
  fails_to_poll :
      (now attempt : ℕ) (id : Text) (kind : RetryKind) (fetch_err : Option Text)
      → IsQueuedFor id c.state
      → Step o c (settled c (retry_poll_failed_op o now id attempt kind fetch_err c.state))
  fetches :
      (now attempt : ℕ) (id : Text) (kind : RetryKind) (found : Option Issue)
      (terminal : Option Text)
      → IsQueuedFor id c.state
      → ((issue : Issue) → found ≡ some issue → issue.id ≡ id)
      → Step o c
          (settled c (retry_fire_after_fetch_op o now id attempt kind found terminal c.state))
  finds_absent :
      (absent : TextSet) → Step o c (record c { state = (reconcile_absent absent c.state).0 })
  finds_inactive :
      (now : ℕ) (issues : Map Issue) (terminal_states : TextSet)
      → Step o c (record c { state = (reconcile_inactive now issues terminal_states c.state).0 })
  refreshes :
      (issues : Map Issue) (active : TextSet)
      → Step o c (record c { state = refresh_active issues active c.state })
  patches :
      (issues : Map Issue) (active : TextSet)
      → Step o c (record c { state = patch_active_claimed issues active c.state })
  cancels_stalled :
      (timeout now : ℕ) → Step o c (record c { state = (reconcile_stalled timeout now c.state).0 })
  cancels_over_budget :
      (now : ℕ) → Step o c (record c { state = (reconcile_budget_exceeded now c.state).0 })
  records :
      (to_int64 : ℕ → ℤ) (clock now : ℕ) (id : Text) (event : TaskEvent)
      → Step o c
          (record c { state = (record_runtime_event_op to_int64 clock now id event c.state).0 })
  reconfigures : (setting : Setting) → Step o c (record c { state = apply_setting setting c.state })
  begins_cleanup :
      (id : Text)
      → (begin_workspace_cleanup id c.state).1 ≡ true
      → Step o c (record c {
        state = (begin_workspace_cleanup id c.state).0;
        removing = insert id tt c.removing;
      })
  resumes :
      (now : ℕ) (r : ScheduleRequest)
      → has r.issue.id c.removing ≡ true
      → Step o c (record c {
        state = schedule_retry_op o now r c.state;
        removing = delete r.issue.id c.removing;
      })
  ends_cleanup :
      (id : Text)
      → Step o c
          (record c { state = end_workspace_cleanup id c.state; removing = delete id c.removing })

pub data Reach (o : Actor) (start : Config) : Config → Type 0 where
  here : Reach o start start
  step : (c d : Config) → Reach o start c → Step o c d → Reach o start d

-- What holds at an issue in every reachable configuration: at most one run, retry entry, blocked entry
-- or followup holds it, exactly one if it is claimed, and all but runs hold it by a claim; nothing
-- holds it while a cleanup attempt may still resume it.
pub record HeldOnce (j : Text) (c : Config) : Type 0 where
  pub single : owners j c.state + all_pending j c.followups ≤ 1
  pub backed :
      has j c.state.claimed ≡ false
      → count_of (has j c.state.retry_attempts)
          + count_of (has j c.state.blocked)
          + all_pending j c.followups
        ≡ 0
  pub owned : has j c.state.claimed ≡ true → owners j c.state + all_pending j c.followups ≡ 1
  pub resumable :
      has j c.removing ≡ true
      → (has j c.state.cleaning_workspaces ≡ true)
        × (owners j c.state + all_pending j c.followups ≡ 0)

pub HeldOnce-Held : (j : Text) (c : Config) → HeldOnce j c → Held j (holdings c.state)
HeldOnce-Held j c h = record {
  single = omega (arith, h.single);
  backed = λ unclaimed. omega (arith, h.backed unclaimed);
}

-- A move by an operation, with the followup that it returns.
pub then_run-HeldOnce :
    (j : Text) (c : Config) (t : OrchestratorState) (fu : Followup)
    → HeldOnce j c
    → Moved j (holdings c.state) (holdings t) (pending j fu)
    → HeldOnce j (record c { state = t; followups = fu ∷ c.followups })
then_run-HeldOnce j c t fu h m = record {
  single = ground (arith, h.single, m.no_new);
  backed = λ unclaimed.
      ground (arith, h.single, h.backed, m.backed unclaimed, m.kept, m.no_new, unclaimed);
  owned = λ claimed. ground (arith, h.single, h.owned, m.kept, m.no_orphan, m.no_new, claimed);
  resumable = λ r. ground (arith, h.resumable r, m.no_new, m.cleaning);
}

-- The configuration at the start of the actor.
abbrev pub initial : ℕ → ℕ → (ℕ → RunningEntry) → Config
initial poll_interval_ms max_concurrent_agents unallocated = record {
  state = new_orchestrator_state poll_interval_ms max_concurrent_agents unallocated;
  followups = [];
  deferred = [];
  removing = [];
}
