-- ===== src/Orchestrator/RuntimeEvents/Budget/Once.antt =====
-- A run is marked as over its budget once, and only then.
use aiops_platform.Common.{
  ℕ, ◌≡◌, refl, Bool, true, false, not, ◌&&◌, ◌||◌, some, is_some, Text, ltb, ◌*◌, ◌-◌,
  if◌then◌else◌, arith, Bool-cases, Option-cases, inl, inr, ◌==◌,
}
use aiops_platform.Orchestrator.Types.{OrchestratorState, RunningEntry, BudgetGuardrails}
use aiops_platform.Orchestrator.Actor.{update_run}
use aiops_platform.Orchestrator.Recent.{record_event}
use aiops_platform.Orchestrator.RuntimeEvents.Budget.{
  mark_budget_exceeded, mark_budget_exceeded_if_needed, budget_exceeded_message,
  token_budget_exceeded, runtime_budget_exceeded, runtime_nanos_since,
}

-- A run that is marked, or has more tokens than a limit on tokens that is set, or has started and runs
-- longer than a limit in seconds that is set; a limit of 0 is not set.
unfoldable pub is_over_budget : BudgetGuardrails → ℕ → RunningEntry → Bool
is_over_budget guard now run =
    run.budget_exceeded
    || ltb 0 guard.max_tokens_per_claim && ltb guard.max_tokens_per_claim run.codex_total_tokens
    || ltb 0 guard.max_runtime_seconds_per_claim
      && ltb 0 run.started_at
      && ltb (guard.max_runtime_seconds_per_claim * 1_000_000_000) (now - run.started_at)

runtime-over :
    (limit started now : ℕ)
    → ltb 0 limit && ltb (limit * 1_000_000_000) (if started == 0 then 0 else now - started)
      ≡ ltb 0 limit && ltb 0 started && ltb (limit * 1_000_000_000) (now - started)
runtime-over limit started now = ground arith

-- The message stands exactly for what a limit stops.
is_over_budget-message :
    (guard : BudgetGuardrails) (now : ℕ) (run : RunningEntry)
    → is_over_budget guard now run
      ≡ run.budget_exceeded || is_some (budget_exceeded_message guard run now)
unfolding is_over_budget budget_exceeded_message token_budget_exceeded runtime_budget_exceeded
    runtime_nanos_since
is_over_budget-message guard now run =
    ground (arith, runtime-over guard.max_runtime_seconds_per_claim run.started_at now)

-- `hit` says that the mark is new; the mark stands exactly on a run over its budget, and no other run
-- is written to.
pub record Marks (now run : ℕ) (s : OrchestratorState) (r : OrchestratorState × Bool) : Type 0 where
  pub hit :
      r.1 ≡ not (s.runs run).budget_exceeded && is_over_budget s.budget_guardrails now (s.runs run)
  pub mark : (r.0.runs run).budget_exceeded ≡ is_over_budget s.budget_guardrails now (s.runs run)
  pub others : (a : ℕ) → (a == run) ≡ false → r.0.runs a ≡ s.runs a
  pub kept : r.1 ≡ false → r.0 ≡ s
  pub limits : r.0.budget_guardrails ≡ s.budget_guardrails

mark-Marks :
    (now run : ℕ) (message : Text) (s : OrchestratorState)
    → (s.runs run).budget_exceeded ≡ false
    → budget_exceeded_message s.budget_guardrails (s.runs run) now ≡ some message
    → Marks now run s (mark_budget_exceeded now run message s, true)
unfolding mark_budget_exceeded record_event update_run
mark-Marks now run message s h e = record {
  hit = ground (arith, h, e, is_over_budget-message s.budget_guardrails now (s.runs run));
  mark = ground (arith, h, e, is_over_budget-message s.budget_guardrails now (s.runs run));
  others = λ a differs. ground (arith, differs);
  kept = λ missed. cc;
  limits = refl;
}

unmarked-Marks :
    (now run : ℕ) (s : OrchestratorState)
    → (s.runs run).budget_exceeded ≡ is_over_budget s.budget_guardrails now (s.runs run)
    → Marks now run s (s, false)
unmarked-Marks now run s h = record {
  hit = ground (arith, h);
  mark = h;
  others = λ a differs. refl;
  kept = λ missed. refl;
  limits = refl;
}

-- The test marks a run that is not marked yet and has passed a limit that is set, on its tokens or on its
-- time since its start, and says so; no other run is written to.
pub mark_budget_exceeded_if_needed-Marks :
    (now run : ℕ) (s : OrchestratorState)
    → Marks now run s (mark_budget_exceeded_if_needed now run s)
unfolding mark_budget_exceeded_if_needed
mark_budget_exceeded_if_needed-Marks now run s = elim (Bool-cases ((s.runs run).budget_exceeded)) [
  | inl h ↦
      rw (h, mark_budget_exceeded_if_needed)
        (unmarked-Marks now run s
          (ground (arith, h, is_over_budget-message s.budget_guardrails now (s.runs run))))
  | inr h ↦ elim (Option-cases (budget_exceeded_message s.budget_guardrails (s.runs run) now)) [
    | inl e ↦
        rw (e, h, mark_budget_exceeded_if_needed)
          (unmarked-Marks now run s
            (ground (arith, h, e, is_over_budget-message s.budget_guardrails now (s.runs run))))
    | inr (message, e) ↦
        rw (e, h, mark_budget_exceeded_if_needed) (mark-Marks now run message s h e)
  ]
]
