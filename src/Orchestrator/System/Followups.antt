-- ===== src/Orchestrator/System/Followups.antt =====
-- The steps of the followups: a spawned worker registers its run, and a scheduled retry its entry. Each
-- takes over from the followup that it consumes.
use aiops_platform.Orchestrator.Counts.{is_claimed}
use aiops_platform.Orchestrator.Actor.{
  schedule, ScheduleRequest, Actor, spawn, SpawnRequest, Followup, mark_cleaning_workspace,
  unmark_cleaning_workspace, update_run,
}
use aiops_platform.Orchestrator.Recent.{record_event}
use aiops_platform.Orchestrator.Transitions.{schedule_retry, claim}
use aiops_platform.Orchestrator.Spawn.{recover_spawn_panic, register_run}
use aiops_platform.Orchestrator.Cleanup.{begin_workspace_cleanup, end_workspace_cleanup}
use aiops_platform.Common.{ℕ, true, refl, arith, ◌≡◌, ◌+◌, Text, text_eq_iff, ◌∷◌, [], ◌++◌, List}
use aiops_platform.Common.Map.{has, insert, delete, has-insert, has-delete}
use aiops_platform.Orchestrator.System.Config.{HeldOnce, all_pending, Config}
use aiops_platform.Orchestrator.Reschedule.{scheduled_entry, schedule_retry_op}
use aiops_platform.Orchestrator.System.Owners.{pending}

all_pending-append :
    (j : Text) (before : List Followup) (fu : Followup) (rest : List Followup)
    → all_pending j (before ++ fu ∷ rest) ≡ pending j fu + all_pending j (before ++ rest)
all_pending-append j [] fu rest = refl
all_pending-append j (x ∷ before) fu rest = omega (arith, all_pending-append j before fu rest)

-- What a consumed followup leaves at an issue.
pub record Consumes (j : Text) (c : Config) (fu : Followup) (rest : List Followup) : Type 0 where
  pub split : all_pending j c.followups ≡ pending j fu + all_pending j rest

pub consumed :
    (j : Text) (c : Config) (before : List Followup) (fu : Followup) (rest : List Followup)
    → c.followups ≡ before ++ fu ∷ rest
    → Consumes j c fu (before ++ rest)
consumed j c before fu rest e = record { split = rw e (all_pending-append j before fu rest) }

pub register-HeldOnce :
    (j : Text) (now : ℕ) (req : SpawnRequest) (c : Config) (rest : List Followup)
    → HeldOnce j c
    → Consumes j c (spawn req) rest
    → HeldOnce j (record c { state = register_run now req c.state; followups = rest })
unfolding register_run record_event update_run
register-HeldOnce j now req c rest h s =
    let runs = has-insert j req.id c.state.next_address c.state.running in
    record {
      single = ground (arith, runs, h.single, s.split);
      backed = λ unclaimed. ground (arith, runs, h.backed, s.split, unclaimed);
      owned = λ claimed. ground (arith, runs, h.owned, h.single, s.split, claimed);
      resumable = λ r. ground (arith, runs, h.resumable r, s.split);
    }

pub schedule-HeldOnce :
    (o : Actor) (j : Text) (now : ℕ) (r : ScheduleRequest) (c : Config) (rest : List Followup)
    → HeldOnce j c
    → Consumes j c (schedule r) rest
    → HeldOnce j (record c { state = schedule_retry_op o now r c.state; followups = rest })
unfolding schedule_retry_op schedule_retry scheduled_entry claim
schedule-HeldOnce o j now r c rest h s =
    let retries =
      has-insert j r.issue.id (scheduled_entry o now c.state.next_address r)
        c.state.retry_attempts in
    let claims = has-insert j r.issue.id tt c.state.claimed in
    record {
      single = ground (arith, retries, h.single, s.split);
      backed = λ unclaimed. ground (arith, retries, claims, h.backed, s.split, unclaimed);
      owned = λ claimed. ground (arith, retries, claims, h.owned, h.single, s.split, claimed);
      resumable = λ q. ground (arith, retries, h.resumable q, s.split);
    }

-- A spawn that panics before its registration hands its issue to a retry.
pub panic-HeldOnce :
    (j : Text) (now : ℕ) (req : SpawnRequest) (run_err : Text) (c : Config) (rest : List Followup)
    → HeldOnce j c
    → Consumes j c (spawn req) rest
    → req.id ≡ req.issue.id
    → (let t = recover_spawn_panic now req run_err c.state in
        HeldOnce j (record c { state = t.0; followups = t.1 ∷ rest }))
unfolding recover_spawn_panic record_event
panic-HeldOnce j now req run_err c rest h s own = record {
  single = ground (arith, h.single, s.split, own);
  backed = λ unclaimed. ground (arith, h.backed unclaimed, s.split, own);
  owned = λ claimed. ground (arith, h.owned claimed, s.split, own);
  resumable = λ r. ground (arith, h.resumable r, s.split, own);
}

-- A resumed continuation is scheduled while the cleanup attempt still holds the workspace.
pub resume-HeldOnce :
    (o : Actor) (j : Text) (now : ℕ) (r : ScheduleRequest) (c : Config)
    → HeldOnce j c
    → has r.issue.id c.removing ≡ true
    → HeldOnce j (record c {
      state = schedule_retry_op o now r c.state;
      removing = delete r.issue.id c.removing;
    })
unfolding schedule_retry_op schedule_retry scheduled_entry claim
resume-HeldOnce o j now r c h q =
    let retries =
      has-insert j r.issue.id (scheduled_entry o now c.state.next_address r)
        c.state.retry_attempts in
    let claims = has-insert j r.issue.id tt c.state.claimed in
    let left = has-delete j r.issue.id c.removing in
    let same = text_eq_iff r.issue.id j in
    record {
      single = ground (arith, retries, h.single, h.resumable, same, q);
      backed = λ unclaimed. ground (arith, retries, claims, h.backed, unclaimed);
      owned = λ claimed. ground (arith, retries, claims, h.owned, h.resumable, same, q, claimed);
      resumable = λ p. ground (arith, retries, left, h.resumable, p);
    }

pub begin-HeldOnce :
    (j id : Text) (c : Config)
    → HeldOnce j c
    → (begin_workspace_cleanup id c.state).1 ≡ true
    → HeldOnce j (record c {
      state = (begin_workspace_cleanup id c.state).0;
      removing = insert id tt c.removing;
    })
unfolding begin_workspace_cleanup mark_cleaning_workspace is_claimed
begin-HeldOnce j id c h b =
    let cleaning = has-insert j id tt c.state.cleaning_workspaces in
    let left = has-insert j id tt c.removing in
    let same = text_eq_iff id j in
    record {
      single = ground (arith, h.single, b);
      backed = λ unclaimed. ground (arith, h.backed, b, unclaimed);
      owned = λ claimed. ground (arith, h.owned, b, claimed);
      resumable = λ p. ground (arith, cleaning, left, h.resumable, h.backed, same, b, p);
    }

pub end-HeldOnce :
    (j id : Text) (c : Config)
    → HeldOnce j c
    → HeldOnce j
        (record c { state = end_workspace_cleanup id c.state; removing = delete id c.removing })
unfolding end_workspace_cleanup unmark_cleaning_workspace
end-HeldOnce j id c h =
    let cleaning = has-delete j id c.state.cleaning_workspaces in
    let left = has-delete j id c.removing in
    record {
      single = h.single;
      backed = h.backed;
      owned = h.owned;
      resumable = λ p. ground (arith, cleaning, left, h.resumable, p);
    }
