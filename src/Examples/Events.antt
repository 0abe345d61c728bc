-- ===== src/Examples/Events.antt =====
-- Events of the agent of issue A.
use aiops_platform.Common.{◌≡◌, ℕ, List, [], ◌∷◌, codes, pos, ℤ}
use aiops_platform.Orchestrator.Types.{OrchestratorState}
use aiops_platform.Orchestrator.Payload.{integer, object, field, no_fields}
use aiops_platform.Orchestrator.RuntimeEvents.Tokens.{TaskEvent}
use aiops_platform.Orchestrator.RuntimeEvents.Fold.{record_runtime_event}
use aiops_platform.Orchestrator.RuntimeEvents.Fold.Accounting.{
  Accounts, record_runtime_event-Accounts,
}
use aiops_platform.Orchestrator.RuntimeEvents.Budget.{mark_budget_exceeded_if_needed}
use aiops_platform.Orchestrator.RuntimeEvents.Budget.Once.{
  Marks, mark_budget_exceeded_if_needed-Marks,
}
use aiops_platform.Orchestrator.Actor.{cancel_runs}
use aiops_platform.Orchestrator.Watch.{reconcile_budget_exceeded}
use aiops_platform.Orchestrator.Watch.Escapes.{CancelsOverBudget, reconcile_budget_exceeded-Cancels}
use aiops_platform.Orchestrator.Refresh.{patch_active_claimed}
use aiops_platform.Orchestrator.System.Refreshed.{Keeps, patch_active_claimed-Keeps}
use aiops_platform.Examples.Data.{running, issue_a}

abbrev usage_event : TaskEvent
usage_event = record {
  event = codes "turn_completed";
  payload = object (
      field (codes "usage") (object (field (codes "total_tokens") (integer (pos 700)) no_fields))
        no_fields);
}

abbrev wrapped : ℕ → ℤ
wrapped n = pos 0

record_runtime_event-Accounts_example :
    Accounts 0 running (record_runtime_event wrapped 9 9 usage_event 0 running).0
record_runtime_event-Accounts_example =
    record_runtime_event-Accounts wrapped 9 9 usage_event 0 running

-- One second of running time is allowed.
abbrev limited : OrchestratorState
limited = record running {
  budget_guardrails = record { max_tokens_per_claim = 0; max_runtime_seconds_per_claim = 1 };
}

mark_budget_exceeded_if_needed-Marks_example :
    Marks 5_000_000_000 0 limited (mark_budget_exceeded_if_needed 5_000_000_000 0 limited)
mark_budget_exceeded_if_needed-Marks_example =
    mark_budget_exceeded_if_needed-Marks 5_000_000_000 0 limited

reconcile_budget_exceeded-Cancels_example :
    (canceled : List ℕ) × ((reconcile_budget_exceeded 5_000_000_000 limited).1
      ≡ cancel_runs canceled [])
    × CancelsOverBudget 5_000_000_000 limited.running limited
        ((reconcile_budget_exceeded 5_000_000_000 limited).0, canceled)
reconcile_budget_exceeded-Cancels_example = reconcile_budget_exceeded-Cancels 5_000_000_000 limited

patch_active_claimed-Keeps_example :
    Keeps running
      (patch_active_claimed ((codes "A", issue_a) ∷ []) ((codes "todo", tt) ∷ []) running)
patch_active_claimed-Keeps_example =
    patch_active_claimed-Keeps ((codes "A", issue_a) ∷ []) ((codes "todo", tt) ∷ []) running
