-- ===== src/Orchestrator/Recent.antt =====
-- The bounded histories: recordCompleted and its three likes (state.go), and RecordEvent (status.go).
pub mod Mirror
pub mod Log
use aiops_platform.Common.{
  ℕ, zero, suc, ◌+◌, ◌^◌, ◌%◌, ◌&&◌, ◌++◌, List, [], ◌∷◌, Bool, true, false, Text, ltb, length,
  take_last, if◌then◌else◌, ◌==◌,
}
use aiops_platform.Common.Map.{has, insert, delete}
use aiops_platform.Orchestrator.Types.{RecentSet, RuntimeEvent, OrchestratorState}

-- An int64 counter, as a bit pattern.
abbrev pub add_int64 : ℕ → ℕ → ℕ
add_int64 a b = (a + b) % 2 ^ 64

-- Drops the oldest entry: `oldest := order[0]; order = order[1:]; delete(members, oldest)`.
unfoldable pub evict : RecentSet → List Text → RecentSet
evict r [] = r
evict r (oldest ∷ rest) = record r { members = delete oldest r.members; order = rest }

-- The body that the four record functions share; `cap` is MaxRecentCompleted.
unfoldable pub record_recent : ℕ → Text → RecentSet → RecentSet
unfolding evict
record_recent cap id r =
    let counted = record r { total = add_int64 r.total 1 } in
    let added = record counted { members = insert id tt r.members; order = r.order ++ id ∷ [] } in
    if has id r.members
    then counted
    else if ltb 0 cap && ltb cap (length added.order)
    then evict added added.order
    else added

unfoldable pub record_completed : Text → OrchestratorState → OrchestratorState
unfolding record_recent
record_completed id s = record s { completed = record_recent s.max_recent_completed id s.completed }

unfoldable pub record_reconcile_stopped_with_progress : Text → OrchestratorState → OrchestratorState
unfolding record_recent
record_reconcile_stopped_with_progress id s = record s {
  reconcile_stopped_with_progress =
      record_recent s.max_recent_completed id s.reconcile_stopped_with_progress;
}

unfoldable pub record_agent_handoff_reconcile_stopped : Text → OrchestratorState → OrchestratorState
unfolding record_recent
record_agent_handoff_reconcile_stopped id s = record s {
  agent_handoff_reconcile_stopped =
      record_recent s.max_recent_completed id s.agent_handoff_reconcile_stopped;
}

unfoldable pub record_active_success_no_handoff : Text → OrchestratorState → OrchestratorState
unfolding record_recent
record_active_success_no_handoff id s = record s {
  active_success_no_handoff = record_recent s.max_recent_completed id s.active_success_no_handoff;
}

abbrev pub max_runtime_events : ℕ
max_runtime_events = 200

-- `now` is the clock, read where the event has no time of its own.
unfoldable pub stamp : ℕ → RuntimeEvent → RuntimeEvent
stamp now ev = if ev.at == 0 then record ev { at = now } else ev

unfoldable pub record_event : ℕ → RuntimeEvent → OrchestratorState → OrchestratorState
unfolding stamp
record_event now ev s =
    let events = s.recent_events ++ stamp now ev ∷ [] in
    record s {
      recent_events =
          if ltb max_runtime_events (length events)
          then take_last max_runtime_events events
          else events;
    }
