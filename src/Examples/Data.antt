-- ===== src/Examples/Data.antt =====
-- One orchestrator with two slots, one issue, its worker and its retry.
use aiops_platform.Orchestrator.System.Config.{initial, then_run, Config}
use aiops_platform.Orchestrator.Reschedule.{schedule_retry_op}
use aiops_platform.Common.{◌∷◌}
use aiops_platform.Orchestrator.Actor.{ScheduleRequest, event}
use aiops_platform.Orchestrator.Spawn.{register_run, spawned_run}
use aiops_platform.Orchestrator.Dispatch.{dispatch}
use aiops_platform.Common.{[], codes, none, pos, true, false}
use aiops_platform.Orchestrator.Initial.{new_orchestrator_state}
use aiops_platform.Tracker.{Issue}
use aiops_platform.Orchestrator.Types.{
  RuntimeEventKind, RetryKind, RuntimeEvent, RecentSet, OrchestratorState, Workspace,
}
use aiops_platform.Orchestrator.Actor.{Actor, SpawnRequest}
use aiops_platform.Orchestrator.Dispatch.{dispatch, DispatchOp}
use aiops_platform.Orchestrator.Spawn.{spawned_run}
use aiops_platform.Orchestrator.Finalize.Ops.{FinalizeOp}
use aiops_platform.Orchestrator.Backoff.{RetryRequest}

abbrev pub issue_a : Issue
issue_a = record {
  id = codes "A";
  identifier = codes "OPS-1";
  title = codes "fix the build";
  description = [];
  url = [];
  state = codes "Todo";
  labels = [];
  branch_name = [];
  priority = 1;
  created_at = 0;
  updated_at = 0;
  blocked_by = none;
}

abbrev pub no_workspace_yet : Workspace
no_workspace_yet = record { path = []; root = []; key = []; created_now = false }

abbrev pub request_a : SpawnRequest
request_a = record {
  id = codes "A";
  issue = issue_a;
  attempt = none;
  continuation_attempt = 0;
  continuation_turn_count = 0;
  clean_turn_budget = 20;
  workspace = no_workspace_yet;
}

abbrev pub op_a : DispatchOp
op_a = record { issue = issue_a; attempt = none; tracker_rechecked = false }

-- The state before the first tick, after an accepted dispatch, and with the worker running.
abbrev pub fresh : OrchestratorState
fresh = new_orchestrator_state 30_000 2 (λ address. spawned_run 0 request_a)

-- A clean exit with no failure, at the time 9, of the run at address 0.
abbrev pub exit_a : FinalizeOp
exit_a = record {
  id = codes "A";
  identifier = codes "OPS-1";
  attempt = none;
  result = record { err = none; input_required = false; issue_exit_state = none; elapsed = pos 0 };
  started = 6;
  entry = 0;
}

abbrev pub actor : Actor
actor = record { max_backoff = pos 0; has_lister = true; has_cleaner = true; stopping = false }

abbrev pub dispatched : OrchestratorState
dispatched = (dispatch 5 op_a fresh).0

abbrev pub running : OrchestratorState
running = register_run 6 request_a dispatched

abbrev pub one_completed : RecentSet
one_completed = record { members = (codes "A", tt) ∷ []; order = codes "A" ∷ []; total = 1 }

abbrev pub failure_a : RuntimeEvent
failure_a = event RuntimeEventKind.failed (codes "A") (codes "OPS-1") (codes "agent failed")

abbrev pub third_failure : RetryRequest
third_failure = record { kind = RetryKind.failure; attempt = 3; delay_override = pos 0 }

abbrev pub failed_a : ScheduleRequest
failed_a = record {
  issue = issue_a;
  identifier = codes "OPS-1";
  req = third_failure;
  run_err = codes "agent failed";
  workspace = no_workspace_yet;
  startup_failure = none;
  continuation_turn_count = 0;
}

abbrev pub queued : OrchestratorState
queued = schedule_retry_op actor 10 failed_a fresh

abbrev pub start : Config
start = initial 30_000 2 (λ address. spawned_run 0 request_a)

abbrev pub asked : Config
asked = then_run start ((dispatch 5 op_a start.state).0, (dispatch 5 op_a start.state).2)

abbrev pub working : Config
working = record asked { state = register_run 6 request_a asked.state; followups = [] }
