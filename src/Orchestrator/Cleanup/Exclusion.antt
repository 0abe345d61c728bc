-- ===== src/Orchestrator/Cleanup/Exclusion.antt =====
-- actor_cleanup.go and actor_dispatch.go: the reservation of a workspace removal and a dispatch of the
-- same issue exclude each other.
use aiops_platform.Common.Map.{has-insert, has-delete, insert}
use aiops_platform.Common.{text_eq_refl, text_eq_iff, arith, false, true, ◌≡◌, Text, ℕ}
use aiops_platform.Orchestrator.Cleanup.{end_workspace_cleanup, begin_workspace_cleanup}
use aiops_platform.Orchestrator.Actor.{
  idle, is_cleaning_workspace, unmark_cleaning_workspace, mark_cleaning_workspace,
}
use aiops_platform.Orchestrator.Counts.{is_claimed}
use aiops_platform.Orchestrator.Dispatch.{not_dispatched, accepted, DispatchOp, dispatch}
use aiops_platform.Orchestrator.Types.{OrchestratorState}
use aiops_platform.Orchestrator.Dispatch.Claims.{dispatch-claims}

-- While a removal is reserved, a dispatch of the issue is refused and changes nothing.
pub begin-dispatch :
    (id : Text) (now : ℕ) (op : DispatchOp) (s : OrchestratorState)
    → (begin_workspace_cleanup id s).1 ≡ true
    → op.issue.id ≡ id
    → dispatch now op (begin_workspace_cleanup id s).0
      ≡ ((begin_workspace_cleanup id s).0, not_dispatched, idle)
unfolding begin_workspace_cleanup mark_cleaning_workspace dispatch is_cleaning_workspace
begin-dispatch id now op s h e =
    ground (arith, has-insert op.issue.id id tt s.cleaning_workspaces, text_eq_refl id)

-- A removal is not reserved for an issue that an accepted dispatch has claimed.
pub dispatch-begin :
    (now : ℕ) (op : DispatchOp) (s : OrchestratorState)
    → (dispatch now op s).1 ≡ accepted
    → begin_workspace_cleanup op.issue.id (dispatch now op s).0 ≡ ((dispatch now op s).0, false)
unfolding begin_workspace_cleanup is_claimed
dispatch-begin now op s h = ground (arith, (dispatch-claims now op s h))

-- A removal that is reserved and ended leaves the reservations of every issue as they were.
pub end-begin :
    (id j : Text) (s : OrchestratorState)
    → (begin_workspace_cleanup id s).1 ≡ true
    → is_cleaning_workspace j (end_workspace_cleanup id (begin_workspace_cleanup id s).0)
      ≡ is_cleaning_workspace j s
unfolding begin_workspace_cleanup end_workspace_cleanup mark_cleaning_workspace
    unmark_cleaning_workspace is_cleaning_workspace
end-begin id j s h = ground (
  arith,
  text_eq_iff id j,
  has-insert j id tt s.cleaning_workspaces,
  has-delete j id (insert id tt s.cleaning_workspaces),
)
