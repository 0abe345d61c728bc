-- ===== src/Orchestrator/RuntimeEvents/Budget.antt =====
-- runtime_events.go: the budget of a claim, in tokens and in seconds. Seconds are kept in nanoseconds
-- and rendered as the nearest whole number, a half to the even one, as `%.0f` does.
pub mod Once
use aiops_platform.Common.{
  [], ℕ, ◌+◌, ◌-◌, ◌*◌, ◌/◌, ◌%◌, ◌^◌, Bool, true, false, ◌&&◌, Option, none, some, ◌++◌, Text,
  codes, decimal, ltb, ◌==◌, if◌then◌else◌,
}
use aiops_platform.Orchestrator.Types.{
  OrchestratorState, RunningEntry, BudgetGuardrails, RuntimeEventKind,
}
use aiops_platform.Orchestrator.Actor.{update_run}
use aiops_platform.Orchestrator.Recent.{record_event}

-- runtimeSecondsSince of state_snapshot.go: the truncated `-` is its guard on a negative duration.
unfoldable pub runtime_nanos_since : ℕ → ℕ → ℕ
runtime_nanos_since now started_at = if started_at == 0 then 0 else now - started_at

unfoldable pub rounded_seconds : ℕ → ℕ
rounded_seconds nanos =
    let whole = nanos / 1_000_000_000 in
    let rest = 2 * (nanos % 1_000_000_000) in
    if ltb rest 1_000_000_000
    then whole
    else if ltb 1_000_000_000 rest
    then whole + 1
    else whole + whole % 2

unfoldable pub token_budget_message : ℕ → ℕ → Text
token_budget_message current limit =
    codes
      "worker-observed, runner-reported Codex claim token budget exceeded: current_claim_total_tokens="
    ++ decimal current
    ++ codes " max_tokens_per_claim="
    ++ decimal limit
    ++ codes
        "; external GitHub @codex review, other reviewers outside the worker session, and otherwise unreported nested or subagent usage are excluded"

unfoldable pub runtime_budget_message : ℕ → ℕ → Text
runtime_budget_message nanos limit =
    codes "claim runtime budget exceeded: runtime_seconds="
    ++ decimal (rounded_seconds nanos)
    ++ codes " max_runtime_seconds_per_claim="
    ++ decimal limit

-- Is a limit set and passed? Zero turns the guardrail off.
unfoldable pub token_budget_exceeded : BudgetGuardrails → RunningEntry → Bool
token_budget_exceeded guard run =
    ltb 0 guard.max_tokens_per_claim && ltb guard.max_tokens_per_claim run.codex_total_tokens

unfoldable pub runtime_budget_exceeded : BudgetGuardrails → RunningEntry → ℕ → Bool
runtime_budget_exceeded guard run now =
    ltb 0 guard.max_runtime_seconds_per_claim
    && ltb (guard.max_runtime_seconds_per_claim * 1_000_000_000)
        (runtime_nanos_since now run.started_at)

unfoldable pub budget_exceeded_message : BudgetGuardrails → RunningEntry → ℕ → Option Text
budget_exceeded_message guard run now =
    if token_budget_exceeded guard run
    then some (token_budget_message run.codex_total_tokens guard.max_tokens_per_claim)
    else if runtime_budget_exceeded guard run now
    then some (
        runtime_budget_message (runtime_nanos_since now run.started_at)
          guard.max_runtime_seconds_per_claim)
    else none

abbrev pub exceeded_entry : RunningEntry → ℕ → Text → RunningEntry
exceeded_entry run now message = record run {
  budget_exceeded = true;
  budget_exceeded_at = now;
  budget_exceeded_error = message;
  last_codex_message = message;
}

-- The writes behind the guards. RecordEvent stamps only an event without a time, so that its clock
-- is not read here.
unfoldable pub mark_budget_exceeded : ℕ → ℕ → Text → OrchestratorState → OrchestratorState
mark_budget_exceeded now run message s =
    let entry = s.runs run in
    record_event now
      (record {
        kind = RuntimeEventKind.budget_exceeded;
        issue_id = entry.issue.id;
        identifier = entry.identifier;
        message = message;
        branch = [];
        pr_url = [];
        at = now;
      })
      (update_run run (exceeded_entry entry now message) s)

unfoldable pub mark_budget_exceeded_if_needed : ℕ → ℕ → OrchestratorState → OrchestratorState × Bool
mark_budget_exceeded_if_needed now run s =
    if (s.runs run).budget_exceeded
    then (s, false)
    else elim (budget_exceeded_message s.budget_guardrails (s.runs run) now) [
      | none ↦ (s, false)
      | some message ↦ (mark_budget_exceeded now run message s, true)
    ]
