-- ===== src/Orchestrator/RuntimeEvents/Fold.antt =====
-- runtime_events.go: recordRuntimeEvent and the operation around it.
pub mod Accounting
use aiops_platform.Common.{
  ℕ, suc, Bool, true, false, ◌||◌, not, Option, none, some, List, [], ◌∷◌, Text, codes, is_empty,
  text_eq, trim_space, ℤ, if◌then◌else◌,
}
use aiops_platform.Common.Map.{lookup}
use aiops_platform.Orchestrator.Types.{
  OrchestratorState, RunningEntry, LiveSession, StartupFailure, CodexTotals,
}
use aiops_platform.Orchestrator.Payload.{
  Value, Fields, as_string_map, fields_of, map_at_path, string_field, bool_field, int_field,
}
use aiops_platform.Orchestrator.Usage.{add_token_delta}
use aiops_platform.Orchestrator.Block.{or_now}
use aiops_platform.Orchestrator.Actor.{Followup, idle, cancel_runs, update_run}
use aiops_platform.Orchestrator.RuntimeEvents.Tokens.{
  TaskEvent, TokenUsage, event_turn_completed, token_usage_from_event, apply_token_usage,
  TokenDelta,
}
use aiops_platform.Orchestrator.RuntimeEvents.Budget.{mark_budget_exceeded_if_needed}

abbrev pub event_workflow_resolved : Text
event_workflow_resolved = codes "workflow_resolved"

abbrev pub event_startup_failed : Text
event_startup_failed = codes "startup_failed"

abbrev pub event_tool_call_mutation : Text
event_tool_call_mutation = codes "tool_call_mutation"

abbrev pub event_turn_input_required : Text
event_turn_input_required = codes "turn_input_required"

abbrev pub or_kept {ℓ} : {A : Type ℓ} → Option A → A → A
or_kept none old = old
or_kept (some new) old = new

-- recordWorkflowFields.
unfoldable pub workflow_fields : Option Fields → LiveSession → LiveSession
workflow_fields none session = session
workflow_fields (some payload) session = record session {
  workflow_source = or_kept (string_field payload (codes "source")) session.workflow_source;
  workflow_path = or_kept (string_field payload (codes "path")) session.workflow_path;
}

-- recordSessionFields.
unfoldable pub session_fields : (ℕ → ℤ) → Text → Fields → LiveSession → LiveSession
session_fields to_int64 event payload session = record session {
  session_id = or_kept (string_field payload (codes "session_id")) session.session_id;
  thread_id = or_kept (string_field payload (codes "thread_id")) session.thread_id;
  turn_id = or_kept (string_field payload (codes "turn_id")) session.turn_id;
  codex_app_server_pid =
      or_kept (int_field to_int64 payload (codes "codex_app_server_pid"))
        session.codex_app_server_pid;
  agent_provider = or_kept (string_field payload (codes "agent_provider")) session.agent_provider;
  agent_model = or_kept (string_field payload (codes "agent_model")) session.agent_model;
  turn_count =
      if text_eq event event_turn_completed then suc session.turn_count else session.turn_count;
}

-- recordStartupFailureFields.
unfoldable pub startup_failure_fields :
    Text → Fields → Option StartupFailure → Option StartupFailure
startup_failure_fields event payload old =
    if not (text_eq event event_startup_failed)
    then old
    else elim (string_field payload (codes "phase")) [
      | none ↦ old
      | some phase ↦
          some (record { phase = phase; error = or_kept (string_field payload (codes "error")) [] })
    ]

unfoldable pub is_agent_handoff_mutation_tool : Text → Bool
is_agent_handoff_mutation_tool tool =
    text_eq tool (codes "linear_graphql")
    || text_eq tool (codes "linear_ai_workpad")
    || text_eq tool (codes "gitea_issue_labels")

unfoldable pub agent_handoff_mutation_payload : Fields → Bool
unfolding is_agent_handoff_mutation_tool
agent_handoff_mutation_payload payload = elim (string_field payload (codes "tool")) [
  | none ↦ false
  | some tool ↦ is_agent_handoff_mutation_tool tool
]

unfoldable pub handoff_bool : Fields → Text → Bool
handoff_bool payload key = or_kept (bool_field payload key) false

-- recordCurrentIssueTerminalHandoffState.
unfoldable pub terminal_handoff_state : Fields → RunningEntry → RunningEntry
terminal_handoff_state payload run =
    elim (string_field payload (codes "current_issue_terminal_state")) [
      | none ↦ run
      | some state ↦ record run {
        agent_current_issue_terminal_handoff_state = trim_space state;
        agent_current_issue_terminal_handoff = not (is_empty (trim_space state));
      }
    ]

-- recordAgentHandoffFields.
unfoldable pub agent_handoff_fields : Text → Fields → RunningEntry → RunningEntry
unfolding agent_handoff_mutation_payload handoff_bool terminal_handoff_state
agent_handoff_fields event payload run =
    if not (text_eq event event_tool_call_mutation)
    then run
    else if not (agent_handoff_mutation_payload payload)
    then run
    else let handed = record run {
      agent_current_issue_handoff =
          if handoff_bool payload (codes "current_issue_non_active_state_update")
          then true
          else run.agent_current_issue_handoff;
    } in
      if handoff_bool payload (codes "current_issue_terminal_state_update")
      then terminal_handoff_state payload handed
      else handed

-- recordInputRequiredFields.
unfoldable pub input_required_fields : Text → Fields → ℕ → RunningEntry → RunningEntry
input_required_fields event payload now run =
    if not (text_eq event event_turn_input_required) then run else record run {
      input_required = true;
      input_required_at = now;
      input_required_method =
          or_kept (string_field payload (codes "method")) run.input_required_method;
    }

-- rateLimitsFromPayload: the first of three paths that holds a map.
unfoldable pub limits_at_paths : Fields → List (List Text) → Option Fields
limits_at_paths root [] = none
limits_at_paths root (path ∷ paths) =
    let later = limits_at_paths root paths in
    elim (map_at_path root path) [ none ↦ later | some limits ↦ some limits ]

unfoldable pub rate_limits_from_payload : Option Fields → Option Fields
unfolding limits_at_paths
rate_limits_from_payload none = none
rate_limits_from_payload (some root) = limits_at_paths root (
    (codes "rate_limits" ∷ [])
    ∷ (codes "msg" ∷ codes "payload" ∷ codes "info" ∷ codes "rate_limits" ∷ [])
    ∷ (codes "msg" ∷ codes "info" ∷ codes "rate_limits" ∷ [])
    ∷ [])

-- What an event writes to the run before its token counts.
unfoldable pub event_entry : (ℕ → ℤ) → ℕ → TaskEvent → RunningEntry → RunningEntry
unfolding session_fields startup_failure_fields agent_handoff_fields input_required_fields
event_entry to_int64 now event run =
    let payload = fields_of (as_string_map event.payload) in
    let seen = record run {
      last_event_at = now;
      last_codex_event = event.event;
      last_codex_message = or_kept (string_field payload (codes "message")) run.last_codex_message;
      session = session_fields to_int64 event.event payload run.session;
      last_startup_failure = startup_failure_fields event.event payload run.last_startup_failure;
    } in
    input_required_fields event.event payload now (agent_handoff_fields event.event payload seen)

-- Folding the token counts, if the event has any.
unfoldable pub fold_usage : Option TokenUsage → ℕ → OrchestratorState → OrchestratorState
fold_usage none run s = s
fold_usage (some usage) run s =
    let (entry, d) = apply_token_usage (s.runs run) usage in
    let counted = update_run run entry s in
    record counted { codex_totals = add_token_delta d.input d.output d.total s.codex_totals }

-- RecordRateLimits.
unfoldable pub fold_limits : Option Fields → OrchestratorState → OrchestratorState
fold_limits none s = s
fold_limits (some limits) s = record s { codex_rate_limits = some limits }

-- Everything up to the test of the budget, for an event of the app server.
unfoldable pub fold_event : (ℕ → ℤ) → ℕ → TaskEvent → ℕ → OrchestratorState → OrchestratorState
fold_event to_int64 now event run s =
    let seen = update_run run (event_entry to_int64 now event (s.runs run)) s in
    fold_limits (rate_limits_from_payload (as_string_map event.payload))
      (fold_usage (token_usage_from_event to_int64 event) run seen)

unfoldable pub record_runtime_event :
    (ℕ → ℤ) → ℕ → ℕ → TaskEvent → ℕ → OrchestratorState → OrchestratorState × Bool
record_runtime_event to_int64 clock now event run s =
    let at = or_now clock now in
    if is_empty event.event
    then (s, false)
    else if text_eq event.event event_workflow_resolved
    then (
      update_run run
          (record (s.runs run) {
            session = workflow_fields (as_string_map event.payload) (s.runs run).session;
          })
          s,
      false,
    )
    else mark_budget_exceeded_if_needed at run (fold_event to_int64 at event run s)

-- recordRuntimeEventOp.apply: the followup cancels the worker of a run over its budget.
unfoldable pub record_runtime_event_op :
    (ℕ → ℤ) → ℕ → ℕ → Text → TaskEvent → OrchestratorState → OrchestratorState × Followup
record_runtime_event_op to_int64 clock now id event s = elim (lookup id s.running) [
  | none ↦ (s, idle)
  | some run ↦
      let (t, over) = record_runtime_event to_int64 clock now event run s in
      (t, if over then cancel_runs (run ∷ []) [] else idle)
]
