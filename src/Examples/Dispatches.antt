-- ===== src/Examples/Dispatches.antt =====
-- The issue is dispatched, its worker runs and exits.
use aiops_platform.Orchestrator.Dispatch.{clean_turn_budget_for_continuation_budget}
use aiops_platform.Orchestrator.System.Config.{
  then_run, Reach, here, step, dispatches, spawns, exits, HeldOnce,
}
use aiops_platform.Orchestrator.System.Reachable.{Reach-HeldOnce}
use aiops_platform.Orchestrator.Actor.{spawn}
use aiops_platform.Common.{◌≡◌}
use aiops_platform.Orchestrator.Dispatch.{not_dispatched, reserve, consume_continuation_retry}
use aiops_platform.Common.{◌∷◌, ◌≤◌, ◌++◌, arith}
use aiops_platform.Orchestrator.Transitions.{claim}
use aiops_platform.Orchestrator.Recent.{record_event}
use aiops_platform.Orchestrator.Actor.{idle, update_run, is_cleaning_workspace}
use aiops_platform.Orchestrator.Spawn.{register_run, spawned_run}
use aiops_platform.Orchestrator.Counts.{
  running_issue_ids, add_ids, delete_ids, running_count, is_claimed, state_capacity_full_excluding,
}
use aiops_platform.Common.Map.{has, insert, delete, keys, lookup}
use aiops_platform.Workflow.{normalize_state_concurrency_key}
use aiops_platform.Orchestrator.Dispatch.{
  accepted, resolve_dispatch_claim, dispatch_claimed, dispatch,
}
use aiops_platform.Common.{[], codes, true, false, refl, ◌≡◌}
use aiops_platform.Orchestrator.Initial.{new_orchestrator_state}
use aiops_platform.Orchestrator.Actor.{is_cleaning_workspace}
use aiops_platform.Orchestrator.Dispatch.{dispatch_claimed, resolve_dispatch_claim, dispatch}
use aiops_platform.Orchestrator.Spawn.{spawned_run}
use aiops_platform.Orchestrator.Counts.{running_count, is_claimed}
use aiops_platform.Common.Map.{lookup}
use aiops_platform.Orchestrator.OperatorStop.{is_operator_terminal_stopped}
use aiops_platform.Orchestrator.System.Exits.{IsKeyed}
use aiops_platform.Orchestrator.Finalize.{finalize}
use aiops_platform.Orchestrator.Dispatch.Claims.{
  dispatch-refuses_second, dispatch-IsDispatchable, IsDispatchable,
}
use aiops_platform.Orchestrator.Cleanup.{begin_workspace_cleanup}
use aiops_platform.Orchestrator.Dispatch.Capacity.{dispatch-running_count}
use aiops_platform.Orchestrator.Finalize.Done.{finalize-closes_done}
use aiops_platform.Orchestrator.Cleanup.Exclusion.{begin-dispatch, dispatch-begin}
use aiops_platform.Orchestrator.Counts.Members.{has-running_issue_ids, holds_slot}
use aiops_platform.Examples.Data.{
  request_a, op_a, fresh, exit_a, actor, dispatched, running, start, asked, working,
}

fresh_accepts : (dispatch 5 op_a fresh).1 ≡ accepted
unfolding new_orchestrator_state dispatch resolve_dispatch_claim dispatch_claimed is_claimed lookup
    is_cleaning_workspace is_operator_terminal_stopped running_count running_issue_ids add_ids
    delete_ids insert delete keys state_capacity_full_excluding normalize_state_concurrency_key
fresh_accepts = refl

exit_a-IsKeyed : IsKeyed exit_a running
unfolding register_run update_run spawned_run new_orchestrator_state dispatch resolve_dispatch_claim
    dispatch_claimed is_claimed lookup is_cleaning_workspace is_operator_terminal_stopped
    running_count running_issue_ids add_ids delete_ids insert delete keys
    state_capacity_full_excluding normalize_state_concurrency_key reserve claim record_event
    consume_continuation_retry
exit_a-IsKeyed = record { keyed = λ current. refl }

dispatch-refuses_second_example : dispatch 7 op_a dispatched ≡ (dispatched, not_dispatched, idle)
dispatch-refuses_second_example = dispatch-refuses_second 5 7 op_a op_a fresh fresh_accepts refl

fresh_room : running_count fresh ≤ fresh.max_concurrent_agents
unfolding new_orchestrator_state running_count running_issue_ids add_ids delete_ids keys
fresh_room = omega arith

dispatch-running_count_example : running_count dispatched ≤ fresh.max_concurrent_agents
dispatch-running_count_example = dispatch-running_count 5 op_a fresh fresh_room

finalize-closes_done_example : ((finalize actor 9 exit_a running).0.runs 0).done ≡ true
finalize-closes_done_example = finalize-closes_done actor 9 exit_a running

dispatch-IsDispatchable_example : IsDispatchable 5 op_a fresh
dispatch-IsDispatchable_example = dispatch-IsDispatchable 5 op_a fresh fresh_accepts

fresh_begins : (begin_workspace_cleanup (codes "A") fresh).1 ≡ true
unfolding begin_workspace_cleanup is_claimed is_cleaning_workspace lookup new_orchestrator_state
fresh_begins = refl

begin-dispatch_example :
    dispatch 5 op_a (begin_workspace_cleanup (codes "A") fresh).0
    ≡ ((begin_workspace_cleanup (codes "A") fresh).0, not_dispatched, idle)
begin-dispatch_example = begin-dispatch (codes "A") 5 op_a fresh fresh_begins refl

dispatch-begin_example : begin_workspace_cleanup (codes "A") dispatched ≡ (dispatched, false)
dispatch-begin_example = dispatch-begin 5 op_a fresh fresh_accepts

has-running_issue_ids_example :
    has (codes "A") (running_issue_ids running) ≡ holds_slot (codes "A") running
has-running_issue_ids_example = has-running_issue_ids (codes "A") running

asked_followups : asked.followups ≡ [] ++ spawn request_a ∷ []
unfolding new_orchestrator_state dispatch resolve_dispatch_claim dispatch_claimed is_claimed lookup
    is_cleaning_workspace is_operator_terminal_stopped running_count running_issue_ids add_ids
    delete_ids insert delete keys state_capacity_full_excluding normalize_state_concurrency_key
    clean_turn_budget_for_continuation_budget
asked_followups = refl

working-reached : Reach actor start (then_run working (finalize actor 9 exit_a working.state))
working-reached =
    step working _
      (step asked working (step start asked here (dispatches 5 op_a))
        (spawns 6 request_a [] [] asked_followups))
      (exits 9 exit_a exit_a-IsKeyed)

Reach-HeldOnce_example :
    HeldOnce (codes "A") (then_run working (finalize actor 9 exit_a working.state))
Reach-HeldOnce_example =
    Reach-HeldOnce actor 30_000 2 (λ address. spawned_run 0 request_a)
      (then_run working (finalize actor 9 exit_a working.state)) working-reached (codes "A")
