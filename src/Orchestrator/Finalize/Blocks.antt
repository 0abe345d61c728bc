-- ===== src/Orchestrator/Finalize/Blocks.antt =====
-- actor_finalize.go: the two handlers that park a run, for input and for its budget. `none` means that
-- the guard of the handler does not match.
use aiops_platform.Common.{
  ℕ, suc, ◌/◌, ◌%◌, ◌++◌, Option, none, some, ◌&&◌, ◌||◌, not, ltb, ◌==◌, Text, codes, decimal,
  is_empty, trim_space, ℤ, if◌then◌else◌,
}
use aiops_platform.Orchestrator.Types.{OrchestratorState, RunningEntry, RuntimeEventKind}
use aiops_platform.Orchestrator.Recent.{record_event}
use aiops_platform.Orchestrator.Usage.{elapsed_nanos}
use aiops_platform.Orchestrator.Block.{block_run, block_run_with_reason}
use aiops_platform.Orchestrator.Actor.{event}
use aiops_platform.Orchestrator.Finalize.Ops.{
  FinalizeOp, run_of, close_with, is_input_required, error_text_or,
}

unfoldable pub apply_input_required_block :
    ℕ → FinalizeOp → ℤ → OrchestratorState → Option OrchestratorState
apply_input_required_block now f elapsed s =
    let run_err = error_text_or (codes "input required") f.result.err in
    let blocked = block_run now f.id f.entry (run_of f s).input_required_at run_err elapsed s in
    if not (run_of f s).input_required
      && not f.result.input_required
      && not (is_input_required f.result.err)
    then none
    else some (
        close_with f blocked
          (record_event now (event RuntimeEventKind.input_blocked f.id f.identifier run_err)))

-- `%.0f` of a number of seconds: to the nearest, a half to the even one.
unfoldable pub round_seconds : ℕ → ℕ
round_seconds nanos =
    let whole = nanos / 1_000_000_000 in
    let part = nanos % 1_000_000_000 in
    if ltb 500_000_000 part || (part == 500_000_000 && whole % 2 == 1) then suc whole else whole

unfoldable pub budget_exceeded_text : RunningEntry → ℤ → OrchestratorState → Text
budget_exceeded_text run elapsed s =
    codes
      "worker-observed, runner-reported Codex claim budget exceeded: current_claim_total_tokens="
    ++ decimal run.codex_total_tokens
    ++ codes " max_tokens_per_claim="
    ++ decimal s.budget_guardrails.max_tokens_per_claim
    ++ codes " current_claim_runtime_seconds="
    ++ decimal (round_seconds (elapsed_nanos elapsed))
    ++ codes " max_runtime_seconds_per_claim="
    ++ decimal s.budget_guardrails.max_runtime_seconds_per_claim
    ++ codes
        "; recorded exceedance reason missing; external GitHub @codex review, other reviewers outside the worker session, and otherwise unreported nested or subagent usage are excluded from token totals"

unfoldable pub apply_budget_exceeded_block :
    ℕ → FinalizeOp → ℤ → OrchestratorState → Option OrchestratorState
apply_budget_exceeded_block now f elapsed s =
    let run = run_of f s in
    let run_err =
      if is_empty (trim_space run.budget_exceeded_error)
      then budget_exceeded_text run elapsed s
      else run.budget_exceeded_error in
    let blocked =
      block_run_with_reason now f.id f.entry run.budget_exceeded_at (codes "budget_exceeded")
        run_err elapsed s in
    if not run.budget_exceeded then none else some (close_with f blocked (λ t. t))
