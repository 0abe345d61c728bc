-- ===== src/Orchestrator/System/Exited.antt =====
-- actor_finalize.go: what a worker's exit does to the issue of its run and to all others.
use aiops_platform.Common.{true, false, ◌≡◌, ◌+◌, Text, text_eq}
use aiops_platform.Common.Map.{has}
use aiops_platform.Orchestrator.Types.{OrchestratorState}
use aiops_platform.Orchestrator.Transitions.{is_current}
use aiops_platform.Orchestrator.Actor.{Actor, Followup}
use aiops_platform.Orchestrator.Finalize.Ops.{FinalizeOp}
use aiops_platform.Orchestrator.System.Owners.{holdings, pending, owners, Moves}
use aiops_platform.Orchestrator.System.ExitRoutes.{SameAt}
use aiops_platform.Orchestrator.System.ExitWays.{may_free}

-- What a worker's exit does, seen from an issue `j`.
pub record IsExit (j : Text) (f : FinalizeOp) (s : OrchestratorState)
    (t : OrchestratorState × Followup) : Type 0 where
  pub moves : Moves j s t
  pub others : text_eq f.id j ≡ false → SameAt j (holdings s) (holdings t.0) × (pending j t.1 ≡ 0)
  pub stale :
      is_current f.id f.entry s ≡ false → SameAt j (holdings s) (holdings t.0) × (pending j t.1 ≡ 0)
  pub left : is_current f.id f.entry s ≡ true → has f.id t.0.running ≡ false
  pub handed_over :
      is_current f.id f.entry s ≡ true
      → may_free f s ≡ false
      → (has f.id t.0.claimed ≡ true) × (owners f.id t.0 + pending f.id t.1 ≡ 1)
