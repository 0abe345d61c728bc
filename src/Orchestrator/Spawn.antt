-- ===== src/Orchestrator/Spawn.antt =====
-- actor_dispatch.go, the spawn of a worker: the entry that it allocates, its registration in the
-- state, and the recovery from a panic before the registration.
use aiops_platform.Common.{
  ℕ, suc, ◌+◌, [], false, Option, none, some, Text, codes, is_empty, pos, if◌then◌else◌,
}
use aiops_platform.Common.Map.{insert}
use aiops_platform.Orchestrator.Types.{OrchestratorState, RunningEntry, RuntimeEventKind, RetryKind}
use aiops_platform.Orchestrator.Recent.{record_event}
use aiops_platform.Orchestrator.Actor.{SpawnRequest, Followup, schedule, event, update_run}

-- The entry that spawn allocates.
unfoldable pub spawned_run : ℕ → SpawnRequest → RunningEntry
spawned_run started_at req = record {
  issue = req.issue;
  identifier = req.issue.identifier;
  started_at = started_at;
  retry_attempt = req.attempt;
  continuation_attempt = req.continuation_attempt;
  continuation_turn_count = req.continuation_turn_count;
  workspace = req.workspace;
  session = record {
    session_id = [];
    thread_id = [];
    turn_id = [];
    turn_count = 0;
    codex_app_server_pid = 0;
    agent_provider = [];
    agent_model = [];
    workflow_source = [];
    workflow_path = [];
  };
  last_event_at = 0;
  last_codex_event = [];
  last_codex_message = [];
  last_startup_failure = none;
  codex_input_tokens = 0;
  codex_output_tokens = 0;
  codex_total_tokens = 0;
  last_reported_input_tokens = 0;
  last_reported_output_tokens = 0;
  last_reported_total_tokens = 0;
  stall_canceled = false;
  budget_exceeded = false;
  budget_exceeded_at = 0;
  budget_exceeded_error = [];
  input_required = false;
  input_required_at = 0;
  input_required_method = [];
  agent_current_issue_handoff = false;
  agent_current_issue_terminal_handoff = false;
  agent_current_issue_terminal_handoff_state = [];
  reconcile_cancel = false;
  reconcile_cleanup_workspace = false;
  done = false;
}

-- The operation that spawn submits: the run is stored at a new address and registered.
unfoldable pub register_run : ℕ → SpawnRequest → OrchestratorState → OrchestratorState
register_run started_at req s =
    let stored = update_run s.next_address (spawned_run started_at req) s in
    record_event started_at
      (record (event RuntimeEventKind.running req.id req.issue.identifier
        (codes "dispatched to agent")) { at = started_at })
      (record stored {
        running = insert req.id s.next_address s.running;
        next_address = suc s.next_address;
      })

-- The attempt that follows a run's: 1 after a first run.
abbrev pub next_attempt : Option ℕ → ℕ
next_attempt none = 1
next_attempt (some attempt) = attempt + 1

-- recoverSpawnPanic.
unfoldable pub recover_spawn_panic :
    ℕ → SpawnRequest → Text → OrchestratorState → OrchestratorState × Followup
recover_spawn_panic now req run_err s =
    let identifier = if is_empty req.issue.identifier then req.issue.id else req.issue.identifier in
    (
      record_event now (event RuntimeEventKind.failed req.id identifier run_err) s,
      schedule (record {
        issue = req.issue;
        identifier = identifier;
        req = record {
          kind = RetryKind.failure;
          attempt = next_attempt req.attempt;
          delay_override = pos 0;
        };
        run_err = run_err;
        workspace = req.workspace;
        startup_failure = none;
        continuation_turn_count = 0;
      }),
    )
