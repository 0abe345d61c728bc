-- ===== src/Orchestrator/System/Watched.antt =====
-- runtime_events.go, actor_reconcile.go and actor_config.go: recording events, canceling stalled runs
-- and runs over their budget, and reloading settings move no claim.
use aiops_platform.Common.{
  ℕ, ◌≡◌, refl, ◌∙◌, none, some, Option, [], ◌∷◌, Text, ℤ, if_intro, elim_intro, is_empty,
  trim_space, text_eq, if◌then◌else◌, ◌||◌, ◌==◌, false,
}
use aiops_platform.Common.Map.{Map, lookup}
use aiops_platform.Orchestrator.Types.{OrchestratorState, RunningEntry, Workspace}
use aiops_platform.Orchestrator.Payload.{Fields, as_string_map}
use aiops_platform.Orchestrator.Block.{or_now}
use aiops_platform.Orchestrator.Actor.{update_run}
use aiops_platform.Orchestrator.Recent.{record_event}
use aiops_platform.Orchestrator.RuntimeEvents.Tokens.{TaskEvent, TokenUsage, token_usage_from_event}
use aiops_platform.Orchestrator.RuntimeEvents.Budget.{
  mark_budget_exceeded, mark_budget_exceeded_if_needed, budget_exceeded_message,
}
use aiops_platform.Orchestrator.RuntimeEvents.Fold.{
  fold_usage, fold_limits, fold_event, record_runtime_event, record_runtime_event_op,
  rate_limits_from_payload, event_workflow_resolved,
}
use aiops_platform.Orchestrator.Watch.{
  cancel_stalled, is_to_cancel, stalled_runs, reconcile_stalled, check_budget, exceeded_runs,
  reconcile_budget_exceeded,
}
use aiops_platform.Orchestrator.Settings.{
  Setting, workspace, max_agents, max_turns, poll_interval, max_agents_by_state, guardrails, agent,
  apply_setting, record_workspace, update_max_concurrent_agents,
  update_max_concurrent_agents_by_state, update_max_continuation_turns, update_budget_guardrails,
  update_agent_default, update_poll_interval_ms,
}
use aiops_platform.Orchestrator.System.Owners.{holdings}

-- The tables of the owners stay as they are.
pub record Stays (s t : OrchestratorState) : Type 0 where
  pub stays : holdings t ≡ holdings s

pub record StaysIn {ℓ} {B : Type ℓ} (s : OrchestratorState) (r : OrchestratorState × B)
    : Type 0 where
  pub first : Stays s r.0

unmoved : (s : OrchestratorState) → Stays s s
unmoved s = record { stays = refl }

Stays-trans : (s t u : OrchestratorState) → Stays s t → Stays t u → Stays s u
Stays-trans s t u h k = record { stays = k.stays ∙ h.stays }

update_run-Stays :
    (run : ℕ) (entry : RunningEntry) (s : OrchestratorState) → Stays s (update_run run entry s)
unfolding update_run
update_run-Stays run entry s = record { stays = refl }

mark-Stays :
    (now run : ℕ) (message : Text) (s : OrchestratorState)
    → Stays s (mark_budget_exceeded now run message s)
unfolding mark_budget_exceeded record_event update_run
mark-Stays now run message s = record { stays = refl }

mark_if_needed-Stays :
    (now run : ℕ) (s : OrchestratorState) → StaysIn s (mark_budget_exceeded_if_needed now run s)
unfolding mark_budget_exceeded_if_needed
mark_if_needed-Stays now run s =
    let still : StaysIn s (s, false) = record { first = unmoved s } in
    if_intro (StaysIn s) (s.runs run).budget_exceeded still (
      elim_intro (StaysIn s) (budget_exceeded_message s.budget_guardrails (s.runs run) now) still
        (λ message. record { first = mark-Stays now run message s }))

fold_usage-Stays :
    (usage : Option TokenUsage) (run : ℕ) (s : OrchestratorState) → Stays s (fold_usage usage run s)
unfolding fold_usage update_run
fold_usage-Stays none run s = unmoved s
fold_usage-Stays (some usage) run s = record { stays = refl }

fold_limits-Stays :
    (limits : Option Fields) (s : OrchestratorState) → Stays s (fold_limits limits s)
unfolding fold_limits
fold_limits-Stays none s = unmoved s
fold_limits-Stays (some limits) s = record { stays = refl }

module _ (to_int64 : ℕ → ℤ) where
  fold_event-Stays :
      (now : ℕ) (event : TaskEvent) (run : ℕ) (s : OrchestratorState)
      → Stays s (fold_event to_int64 now event run s)
  unfolding fold_event
  fold_event-Stays now event run s =
      let seen = update_run-Stays run _ s in
      let counted = fold_usage-Stays (token_usage_from_event to_int64 event) run _ in
      let limited = fold_limits-Stays (rate_limits_from_payload (as_string_map event.payload)) _ in
      Stays-trans s _ _ seen (Stays-trans _ _ _ counted limited)

  record_runtime_event-Stays :
      (clock now : ℕ) (event : TaskEvent) (run : ℕ) (s : OrchestratorState)
      → StaysIn s (record_runtime_event to_int64 clock now event run s)
  unfolding record_runtime_event
  record_runtime_event-Stays clock now event run s =
      let at = or_now clock now in
      if_intro (StaysIn s) (is_empty event.event) (record { first = unmoved s })
        (if_intro (StaysIn s) (text_eq event.event event_workflow_resolved)
          (record { first = update_run-Stays run _ s })
          (record {
            first =
                Stays-trans s _ _ (fold_event-Stays at event run s)
                  (mark_if_needed-Stays at run (fold_event to_int64 at event run s)).first;
          }))

  pub record_runtime_event_op-Stays :
      (clock now : ℕ) (id : Text) (event : TaskEvent) (s : OrchestratorState)
      → StaysIn s (record_runtime_event_op to_int64 clock now id event s)
  unfolding record_runtime_event_op
  record_runtime_event_op-Stays clock now id event s =
      elim_intro (StaysIn s) (lookup id s.running) (record { first = unmoved s })
        (λ run. record { first = (record_runtime_event-Stays clock now event run s).first })

cancel_stalled-Stays :
    (now : ℕ) (id : Text) (run : ℕ) (s : OrchestratorState) → Stays s (cancel_stalled now id run s)
unfolding cancel_stalled record_event update_run
cancel_stalled-Stays now id run s = record { stays = refl }

stalled_runs-Stays :
    (timeout now : ℕ) (entries : Map ℕ) (s : OrchestratorState)
    → StaysIn s (stalled_runs timeout now entries s)
unfolding stalled_runs
stalled_runs-Stays timeout now [] s = record { first = unmoved s }
stalled_runs-Stays timeout now ((id, run) ∷ rest) s = record {
  first =
      let hit = is_to_cancel timeout now (s.runs run) in
      let t = if hit then cancel_stalled now id run s else s in
      Stays-trans s t _ (if_intro (Stays s) hit (cancel_stalled-Stays now id run s) (unmoved s))
        (stalled_runs-Stays timeout now rest t).first;
}

pub reconcile_stalled-Stays :
    (timeout now : ℕ) (s : OrchestratorState) → StaysIn s (reconcile_stalled timeout now s)
unfolding reconcile_stalled
reconcile_stalled-Stays timeout now s = record {
  first = (stalled_runs-Stays timeout now s.running s).first;
}

check_budget-Stays : (now run : ℕ) (s : OrchestratorState) → StaysIn s (check_budget now run s)
unfolding check_budget
check_budget-Stays now run s =
    if_intro (StaysIn s) (s.runs run).budget_exceeded (record { first = unmoved s })
      (mark_if_needed-Stays now run s)

exceeded_runs-Stays :
    (now : ℕ) (entries : Map ℕ) (s : OrchestratorState) → StaysIn s (exceeded_runs now entries s)
unfolding exceeded_runs
exceeded_runs-Stays now [] s = record { first = unmoved s }
exceeded_runs-Stays now ((id, run) ∷ rest) s = record {
  first =
      Stays-trans s _ _ (check_budget-Stays now run s).first
        (exceeded_runs-Stays now rest (check_budget now run s).0).first;
}

pub reconcile_budget_exceeded-Stays :
    (now : ℕ) (s : OrchestratorState) → StaysIn s (reconcile_budget_exceeded now s)
unfolding reconcile_budget_exceeded
reconcile_budget_exceeded-Stays now s = record {
  first = (exceeded_runs-Stays now s.running s).first;
}

record_workspace-Stays :
    (id : Text) (w : Workspace) (s : OrchestratorState) → Stays s (record_workspace id w s)
unfolding record_workspace
record_workspace-Stays id w s =
    if_intro (Stays s) (is_empty (trim_space id) || is_empty (trim_space w.path)) (unmoved s)
      (elim_intro (Stays s) (lookup id s.running) (unmoved s) (λ run. update_run-Stays run _ s))

pub apply_setting-Stays :
    (setting : Setting) (s : OrchestratorState) → Stays s (apply_setting setting s)
unfolding apply_setting update_max_concurrent_agents update_max_concurrent_agents_by_state
    update_max_continuation_turns update_budget_guardrails update_agent_default
    update_poll_interval_ms
apply_setting-Stays (workspace id w) s = record_workspace-Stays id w s
apply_setting-Stays (max_agents limit) s =
    if_intro (Stays s) (limit == 0) (unmoved s) (record { stays = refl })
apply_setting-Stays (max_turns turns) s =
    if_intro (Stays s) (turns == 0) (unmoved s) (record { stays = refl })
apply_setting-Stays (poll_interval interval) s =
    if_intro (Stays s) (interval == 0) (unmoved s) (record { stays = refl })
apply_setting-Stays (max_agents_by_state limits) s = record { stays = refl }
apply_setting-Stays (guardrails g) s = record { stays = refl }
apply_setting-Stays (agent name) s =
    if_intro (Stays s) (is_empty (trim_space name)) (unmoved s) (record { stays = refl })
