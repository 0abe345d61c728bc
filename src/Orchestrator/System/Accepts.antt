-- ===== src/Orchestrator/System/Accepts.antt =====
-- actor_dispatch.go: the step of a dispatch. An accepted one makes a spawn request the one owner of an
-- issue that had none, or whose only owner was the continuation that it consumes.
use aiops_platform.Common.{◌||◌, ◌&&◌, not}
use aiops_platform.Orchestrator.Dispatch.{DispatchOp, reserve, consume_continuation_retry}
use aiops_platform.Orchestrator.Dispatch.Claims.{IsDispatchable}
use aiops_platform.Orchestrator.Actor.{spawn, SpawnRequest, is_cleaning_workspace}
use aiops_platform.Orchestrator.Counts.{is_claimed}
use aiops_platform.Orchestrator.Recent.{record_event}
use aiops_platform.Orchestrator.Transitions.{claim}
use aiops_platform.Common.{
  ℕ, false, none, some, refl, arith, ◌≡◌, Text, text_eq, text_eq_iff, ◌∷◌, Option, inl, inr,
}
use aiops_platform.Common.Map.{has, delete, lookup, has-insert, has-delete}
use aiops_platform.Orchestrator.Types.{RetryEntry, OrchestratorState}
use aiops_platform.Orchestrator.System.Config.{all_pending, HeldOnce, Config}

-- What the reservation of a slot does to the tables of an issue `j`.
pub record Reserves (j id : Text) (s t : OrchestratorState) : Type 0 where
  claimed : has j t.claimed ≡ text_eq id j || has j s.claimed
  running : has j t.running ≡ has j s.running
  blocked : has j t.blocked ≡ has j s.blocked
  retries : has j t.retry_attempts ≡ not (text_eq id j) && has j s.retry_attempts
  cleaning : has j t.cleaning_workspaces ≡ has j s.cleaning_workspaces

pub reserve-Reserves :
    (j : Text) (now : ℕ) (op : DispatchOp) (consumed : Option RetryEntry) (s : OrchestratorState)
    → (consumed ≡ none → lookup op.issue.id s.retry_attempts ≡ none)
    → Reserves j op.issue.id s (reserve now op consumed s)
unfolding reserve claim record_event consume_continuation_retry
reserve-Reserves j now op none s absent = record {
  claimed = has-insert j op.issue.id tt s.claimed;
  running = refl;
  blocked = refl;
  retries = ground (arith, text_eq_iff op.issue.id j, absent refl);
  cleaning = refl;
}
reserve-Reserves j now op (some entry) s absent = record {
  claimed = ground (
    arith,
    text_eq_iff op.issue.id j,
    has-insert j op.issue.id tt (delete op.issue.id s.claimed),
    has-delete j op.issue.id s.claimed,
  );
  running = refl;
  blocked = refl;
  retries = has-delete j op.issue.id s.retry_attempts;
  cleaning = refl;
}

-- An issue that may be dispatched has no owner but a continuation that waits, and is in no cleanup.
dispatchable-owners :
    (j : Text) (now : ℕ) (op : DispatchOp) (c : Config)
    → HeldOnce j c
    → IsDispatchable now op c.state
    → op.issue.id ≡ j
    → (all_pending j c.followups ≡ 0)
      × (has j c.state.running ≡ false)
      × (has j c.state.blocked ≡ false)
      × (has j c.removing ≡ false)
unfolding is_claimed is_cleaning_workspace
dispatchable-owners j now op c h d e = elim d.unheld [
  | inl free ↦ (
    ground (arith, h.backed, free, e),
    ground (arith, free, e),
    ground (arith, free, e),
    ground (arith, h.resumable, d.not_cleaning, e),
  )
  | inr (entry, queued, kind, due, rechecked) ↦ (
    ground (arith, h.single, queued, e),
    ground (arith, h.single, queued, e),
    ground (arith, h.single, queued, e),
    ground (arith, h.resumable, d.not_cleaning, e),
  )
]

pub accept-HeldOnce :
    (j : Text) (now : ℕ) (op : DispatchOp) (c : Config) (t : OrchestratorState) (req : SpawnRequest)
    → HeldOnce j c
    → IsDispatchable now op c.state
    → Reserves j op.issue.id c.state t
    → req.id ≡ op.issue.id
    → HeldOnce j (record c { state = t; followups = spawn req ∷ c.followups })
accept-HeldOnce j now op c t req h d r own =
    let same = text_eq_iff op.issue.id j in
    let free = dispatchable-owners j now op c h d in
    record {
      single = ground (arith, h.single, r.running, r.blocked, r.retries, same, free, own);
      backed = λ unclaimed.
          ground
            (arith, h.backed, r.claimed, r.running, r.blocked, r.retries, same, own, unclaimed);
      owned = λ claimed.
          ground
            (arith, h.owned, r.claimed, r.running, r.blocked, r.retries, same, free, own, claimed);
      resumable = λ p.
          ground
            (arith, h.resumable p, r.cleaning, r.running, r.blocked, r.retries, same, free, own, p);
    }
