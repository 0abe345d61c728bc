-- ===== src/Orchestrator/Watch.antt =====
-- actor_reconcile.go: the operations that cancel the workers of stalled runs and of runs over their
-- budget. A timeout is positive: the operation is submitted only then.
pub mod Escapes
use aiops_platform.Common.{
  ℕ, ◌-◌, Bool, true, false, ◌||◌, List, [], ◌∷◌, Text, codes, ltb, ◌==◌, if◌then◌else◌,
}
use aiops_platform.Common.Map.{Map}
use aiops_platform.Orchestrator.Types.{OrchestratorState, RunningEntry, RuntimeEventKind}
use aiops_platform.Orchestrator.Actor.{Followup, cancel_runs, event, update_run}
use aiops_platform.Orchestrator.Recent.{record_event}
use aiops_platform.Orchestrator.RuntimeEvents.Budget.{mark_budget_exceeded_if_needed}

abbrev pub last_seen : RunningEntry → ℕ
last_seen run = if run.last_event_at == 0 then run.started_at else run.last_event_at

unfoldable pub is_stalled : ℕ → ℕ → RunningEntry → Bool
is_stalled timeout now run = if last_seen run == 0 then false else ltb timeout (now - last_seen run)

-- What the loop writes for one stalled run.
unfoldable pub cancel_stalled : ℕ → Text → ℕ → OrchestratorState → OrchestratorState
cancel_stalled now id run s =
    record_event now (event RuntimeEventKind.failed id (s.runs run).identifier (codes "stalled"))
      (update_run run (record (s.runs run) { stall_canceled = true }) s)

-- The two guards of the loop.
unfoldable pub is_to_cancel : ℕ → ℕ → RunningEntry → Bool
is_to_cancel timeout now run =
    if run.budget_exceeded || run.stall_canceled then false else is_stalled timeout now run

unfoldable pub stalled_runs : ℕ → ℕ → Map ℕ → OrchestratorState → OrchestratorState × List ℕ
stalled_runs timeout now [] s = (s, [])
stalled_runs timeout now ((id, run) ∷ rest) s =
    let hit = is_to_cancel timeout now (s.runs run) in
    let (t, canceled) =
      stalled_runs timeout now rest (if hit then cancel_stalled now id run s else s) in
    (t, if hit then run ∷ canceled else canceled)

-- reconcileStalledRunsOp.apply.
unfoldable pub reconcile_stalled : ℕ → ℕ → OrchestratorState → OrchestratorState × Followup
reconcile_stalled timeout now s =
    let (t, canceled) = stalled_runs timeout now s.running s in (t, cancel_runs canceled [])

-- One turn of the loop over the runs, with its short-circuit.
unfoldable pub check_budget : ℕ → ℕ → OrchestratorState → OrchestratorState × Bool
check_budget now run s =
    if (s.runs run).budget_exceeded then (s, true) else mark_budget_exceeded_if_needed now run s

unfoldable pub exceeded_runs : ℕ → Map ℕ → OrchestratorState → OrchestratorState × List ℕ
exceeded_runs now [] s = (s, [])
exceeded_runs now ((id, run) ∷ rest) s =
    let (t, hit) = check_budget now run s in
    let (u, canceled) = exceeded_runs now rest t in (u, if hit then run ∷ canceled else canceled)

-- reconcileBudgetExceededRunsOp.apply.
unfoldable pub reconcile_budget_exceeded : ℕ → OrchestratorState → OrchestratorState × Followup
reconcile_budget_exceeded now s =
    let (t, canceled) = exceeded_runs now s.running s in (t, cancel_runs canceled [])
