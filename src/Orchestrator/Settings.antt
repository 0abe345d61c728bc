-- ===== src/Orchestrator/Settings.antt =====
-- actor_config.go: the operations that apply a reloaded workflow, and RecordWorkspace. A setting of
-- zero or less, or a blank text, is ignored; a limit below zero counts as zero.
use aiops_platform.Common.{ℕ, ℤ, ◌||◌, ◌==◌, none, some, Text, is_empty, trim_space, if◌then◌else◌}
use aiops_platform.Common.Map.{Map, lookup}
use aiops_platform.Workflow.{normalize_state_concurrency_limits}
use aiops_platform.Orchestrator.Types.{OrchestratorState, BudgetGuardrails, Workspace}
use aiops_platform.Orchestrator.Actor.{update_run}

unfoldable pub record_workspace : Text → Workspace → OrchestratorState → OrchestratorState
record_workspace id workspace s =
    if is_empty (trim_space id) || is_empty (trim_space workspace.path)
    then s
    else elim (lookup id s.running) [
      | none ↦ s
      | some run ↦ update_run run (record (s.runs run) { workspace = workspace }) s
    ]

unfoldable pub update_max_concurrent_agents : ℕ → OrchestratorState → OrchestratorState
update_max_concurrent_agents limit s =
    if limit == 0 then s else record s { max_concurrent_agents = limit }

unfoldable pub update_max_concurrent_agents_by_state : Map ℤ → OrchestratorState → OrchestratorState
update_max_concurrent_agents_by_state limits s = record s {
  max_concurrent_agents_by_state = normalize_state_concurrency_limits limits;
}

unfoldable pub update_max_continuation_turns : ℕ → OrchestratorState → OrchestratorState
update_max_continuation_turns turns s =
    if turns == 0 then s else record s { max_continuation_turns = turns }

unfoldable pub update_budget_guardrails : BudgetGuardrails → OrchestratorState → OrchestratorState
update_budget_guardrails guardrails s = record s { budget_guardrails = guardrails }

unfoldable pub update_agent_default : Text → OrchestratorState → OrchestratorState
update_agent_default agent s =
    if is_empty (trim_space agent) then s else record s { agent_default = agent }

unfoldable pub update_poll_interval_ms : ℕ → OrchestratorState → OrchestratorState
update_poll_interval_ms interval s =
    if interval == 0 then s else record s { poll_interval_ms = interval }

-- A write of one of them.
pub data Setting : Type 0 where
  workspace : Text → Workspace → Setting
  max_agents max_turns poll_interval : ℕ → Setting
  max_agents_by_state : Map ℤ → Setting
  guardrails : BudgetGuardrails → Setting
  agent : Text → Setting

unfoldable pub apply_setting : Setting → OrchestratorState → OrchestratorState
apply_setting (workspace id w) s = record_workspace id w s
apply_setting (max_agents limit) s = update_max_concurrent_agents limit s
apply_setting (max_turns turns) s = update_max_continuation_turns turns s
apply_setting (poll_interval interval) s = update_poll_interval_ms interval s
apply_setting (max_agents_by_state limits) s = update_max_concurrent_agents_by_state limits s
apply_setting (guardrails g) s = update_budget_guardrails g s
apply_setting (agent name) s = update_agent_default name s
