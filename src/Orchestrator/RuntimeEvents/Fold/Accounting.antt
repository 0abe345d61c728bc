-- ===== src/Orchestrator/RuntimeEvents/Fold/Accounting.antt =====
-- The token counts of a run and of the totals, over one event.
use aiops_platform.Common.{
  ℕ, ◌≡◌, Bool, refl, sym, ◌∙◌, ap, false, false, not, none, some, Option, Text, codes, text_eq, ℤ,
  arith, ◌==◌, if_intro, elim_intro, is_empty,
}
use mathlib.Core.Path.{subst}
use aiops_platform.Orchestrator.Types.{OrchestratorState, RunningEntry, CodexTotals}
use aiops_platform.Orchestrator.Payload.{Fields, as_string_map, fields_of, string_field}
use aiops_platform.Orchestrator.Usage.{add_token_delta}
use aiops_platform.Orchestrator.Block.{or_now}
use aiops_platform.Orchestrator.Actor.{update_run}
use aiops_platform.Orchestrator.Recent.{record_event}
use aiops_platform.Orchestrator.RuntimeEvents.Tokens.{
  TaskEvent, TokenUsage, TokenDelta, token_usage_from_event, apply_token_usage,
}
use aiops_platform.Orchestrator.RuntimeEvents.Tokens.Growth.{GrowsBy, apply_token_usage-GrowsBy}
use aiops_platform.Orchestrator.RuntimeEvents.Budget.{
  exceeded_entry, mark_budget_exceeded, mark_budget_exceeded_if_needed, budget_exceeded_message,
}
use aiops_platform.Orchestrator.RuntimeEvents.Fold.{
  terminal_handoff_state, agent_handoff_fields, input_required_fields, event_entry, fold_usage,
  fold_limits, fold_event, record_runtime_event, rate_limits_from_payload, event_workflow_resolved,
  event_tool_call_mutation, event_turn_input_required, handoff_bool, agent_handoff_mutation_payload,
}

-- The same counts are reported.
record SameReports (old new : RunningEntry) : Type 0 where
  pub input : new.last_reported_input_tokens ≡ old.last_reported_input_tokens
  pub output : new.last_reported_output_tokens ≡ old.last_reported_output_tokens
  pub total : new.last_reported_total_tokens ≡ old.last_reported_total_tokens

SameReports-trans : (a b c : RunningEntry) → SameReports a b → SameReports b c → SameReports a c
SameReports-trans a b c h k = record {
  input = k.input ∙ h.input;
  output = k.output ∙ h.output;
  total = k.total ∙ h.total;
}

terminal_handoff-SameReports :
    (payload : Fields) (old run : RunningEntry)
    → SameReports old run
    → SameReports old (terminal_handoff_state payload run)
unfolding terminal_handoff_state
terminal_handoff-SameReports payload old run h =
    elim_intro (SameReports old) (string_field payload (codes "current_issue_terminal_state")) h
      (λ state. record { input = h.input; output = h.output; total = h.total })

agent_handoff-SameReports :
    (event : Text) (payload : Fields) (run : RunningEntry)
    → SameReports run (agent_handoff_fields event payload run)
unfolding agent_handoff_fields
agent_handoff-SameReports event payload run =
    let kept : SameReports run run = record { input = refl; output = refl; total = refl } in
    if_intro (SameReports run) (not (text_eq event event_tool_call_mutation)) kept (
      if_intro (SameReports run) (not (agent_handoff_mutation_payload payload)) kept (
        if_intro (SameReports run)
          (handoff_bool payload (codes "current_issue_terminal_state_update"))
          (terminal_handoff-SameReports payload run _
            (record { input = refl; output = refl; total = refl }))
          (record { input = refl; output = refl; total = refl })))

input_required-SameReports :
    (event : Text) (payload : Fields) (now : ℕ) (old run : RunningEntry)
    → SameReports old run
    → SameReports old (input_required_fields event payload now run)
unfolding input_required_fields
input_required-SameReports event payload now old run h =
    if_intro (SameReports old) (not (text_eq event event_turn_input_required)) h
      (record { input = h.input; output = h.output; total = h.total })

event_entry-SameReports :
    (to_int64 : ℕ → ℤ) (now : ℕ) (event : TaskEvent) (run : RunningEntry)
    → SameReports run (event_entry to_int64 now event run)
unfolding event_entry
event_entry-SameReports to_int64 now event run =
    let payload = fields_of (as_string_map event.payload) in
    input_required-SameReports event.event payload now run _ (
      SameReports-trans run _ _ (record { input = refl; output = refl; total = refl })
        (agent_handoff-SameReports event.event payload _))

-- An event without a count gains nothing.
abbrev pub gain_of : Option TokenDelta → TokenDelta
gain_of none = record { input = 0; output = 0; total = 0 }
gain_of (some d) = d

abbrev pub gained : Option TokenDelta → CodexTotals → CodexTotals
gained none totals = totals
gained (some d) totals = add_token_delta d.input d.output d.total totals

-- Every token that the totals gain is one that the reported counts of the run gain, and no other
-- run is written to.
pub record Accounts (run : ℕ) (s t : OrchestratorState) : Type 0 where
  pub gain : Option TokenDelta
  pub grows : GrowsBy (s.runs run) (t.runs run) (gain_of gain)
  pub totals : t.codex_totals ≡ gained gain s.codex_totals
  pub others : (a : ℕ) → (a == run) ≡ false → t.runs a ≡ s.runs a

-- A step that moves nothing that is accounted for.
record Unaccounted (run : ℕ) (s t : OrchestratorState) : Type 0 where
  pub reports : SameReports (s.runs run) (t.runs run)
  pub totals : t.codex_totals ≡ s.codex_totals
  pub others : (a : ℕ) → (a == run) ≡ false → t.runs a ≡ s.runs a

-- An event with no count.
Unaccounted-Accounts : (run : ℕ) (s t : OrchestratorState) → Unaccounted run s t → Accounts run s t
Unaccounted-Accounts run s t c = record {
  gain = none;
  grows = record {
    input = omega (arith, c.reports.input);
    output = omega (arith, c.reports.output);
    total = omega (arith, c.reports.total);
  };
  totals = c.totals;
  others = c.others;
}

Accounts-between :
    (run : ℕ) (s t u v : OrchestratorState)
    → Unaccounted run s t
    → Accounts run t u
    → Unaccounted run u v
    → Accounts run s v
Accounts-between run s t u v b c d = record {
  gain = c.gain;
  grows = record {
    input = omega (arith, b.reports.input, c.grows.input, d.reports.input);
    output = omega (arith, b.reports.output, c.grows.output, d.reports.output);
    total = omega (arith, b.reports.total, c.grows.total, d.reports.total);
  };
  totals = d.totals ∙ c.totals ∙ ap (gained c.gain) b.totals;
  others = λ a differs. d.others a differs ∙ c.others a differs ∙ b.others a differs;
}

read_back :
    (run : ℕ) (entry : RunningEntry) (s : OrchestratorState)
    → (update_run run entry s).runs run ≡ entry
unfolding update_run
read_back run entry s = ground arith

read_other :
    (run a : ℕ) (entry : RunningEntry) (s : OrchestratorState)
    → (a == run) ≡ false
    → (update_run run entry s).runs a ≡ s.runs a
unfolding update_run
read_other run a entry s differs = ground (arith, differs)

update_run-totals :
    (run : ℕ) (entry : RunningEntry) (s : OrchestratorState)
    → (update_run run entry s).codex_totals ≡ s.codex_totals
unfolding update_run
update_run-totals run entry s = refl

update_run-Unaccounted :
    (run : ℕ) (entry : RunningEntry) (s : OrchestratorState)
    → SameReports (s.runs run) entry
    → Unaccounted run s (update_run run entry s)
update_run-Unaccounted run entry s h = record {
  reports = subst (SameReports (s.runs run)) (sym (read_back run entry s)) h;
  totals = update_run-totals run entry s;
  others = λ a differs. read_other run a entry s differs;
}

Unaccounted-refl : (run : ℕ) (s : OrchestratorState) → Unaccounted run s s
Unaccounted-refl run s = record {
  reports = record { input = refl; output = refl; total = refl };
  totals = refl;
  others = λ a differs. refl;
}

fold_usage-Accounts :
    (usage : Option TokenUsage) (run : ℕ) (s : OrchestratorState)
    → Accounts run s (fold_usage usage run s)
unfolding fold_usage
fold_usage-Accounts none run s = Unaccounted-Accounts run s s (Unaccounted-refl run s)
fold_usage-Accounts (some usage) run s =
    let counted = apply_token_usage (s.runs run) usage in
    record {
      gain = some counted.1;
      grows =
          subst (λ e. GrowsBy (s.runs run) e counted.1) (sym (read_back run counted.0 s))
            (apply_token_usage-GrowsBy (s.runs run) usage);
      totals = refl;
      others = λ a differs. read_other run a counted.0 s differs;
    }

fold_limits-Unaccounted :
    (limits : Option Fields) (run : ℕ) (s : OrchestratorState)
    → Unaccounted run s (fold_limits limits s)
unfolding fold_limits
fold_limits-Unaccounted none run s = Unaccounted-refl run s
fold_limits-Unaccounted (some limits) run s = record {
  reports = record { input = refl; output = refl; total = refl };
  totals = refl;
  others = λ a differs. refl;
}

fold_event-Accounts :
    (to_int64 : ℕ → ℤ) (now : ℕ) (event : TaskEvent) (run : ℕ) (s : OrchestratorState)
    → Accounts run s (fold_event to_int64 now event run s)
unfolding fold_event
fold_event-Accounts to_int64 now event run s =
    let seen = update_run run (event_entry to_int64 now event (s.runs run)) s in
    Accounts-between run s seen _ _
      (update_run-Unaccounted run _ s (event_entry-SameReports to_int64 now event (s.runs run)))
      (fold_usage-Accounts (token_usage_from_event to_int64 event) run seen)
      (fold_limits-Unaccounted (rate_limits_from_payload (as_string_map event.payload)) run _)

mark_budget_exceeded-Unaccounted :
    (now run : ℕ) (message : Text) (s : OrchestratorState)
    → Unaccounted run s (mark_budget_exceeded now run message s)
unfolding mark_budget_exceeded record_event
mark_budget_exceeded-Unaccounted now run message s =
    let c =
      update_run-Unaccounted run (exceeded_entry (s.runs run) now message) s
        (record { input = refl; output = refl; total = refl }) in
    record { reports = c.reports; totals = c.totals; others = c.others }

record AccountsTo (run : ℕ) (s : OrchestratorState) (r : OrchestratorState × Bool) : Type 0 where
  pub accounted : Accounts run s r.0

record UnaccountedTo (run : ℕ) (s : OrchestratorState) (r : OrchestratorState × Bool) : Type 0 where
  pub step : Unaccounted run s r.0

mark_if_needed-Unaccounted :
    (now run : ℕ) (s : OrchestratorState)
    → UnaccountedTo run s (mark_budget_exceeded_if_needed now run s)
unfolding mark_budget_exceeded_if_needed
mark_if_needed-Unaccounted now run s =
    let still : UnaccountedTo run s (s, false) = record { step = Unaccounted-refl run s } in
    if_intro (UnaccountedTo run s) (s.runs run).budget_exceeded still (
      elim_intro (UnaccountedTo run s)
        (budget_exceeded_message s.budget_guardrails (s.runs run) now) still
        (λ message. record { step = mark_budget_exceeded-Unaccounted now run message s }))

record_event-AccountsTo :
    (to_int64 : ℕ → ℤ) (clock now : ℕ) (event : TaskEvent) (run : ℕ) (s : OrchestratorState)
    → AccountsTo run s (record_runtime_event to_int64 clock now event run s)
unfolding record_runtime_event
record_event-AccountsTo to_int64 clock now event run s =
    let at = or_now clock now in
    let folded = fold_event to_int64 at event run s in
    if_intro (AccountsTo run s) (is_empty event.event)
      (record { accounted = Unaccounted-Accounts run s s (Unaccounted-refl run s) })
      (if_intro (AccountsTo run s) (text_eq event.event event_workflow_resolved)
        (record {
          accounted = Unaccounted-Accounts run s _ (
              update_run-Unaccounted run _ s
                (record { input = refl; output = refl; total = refl }));
        })
        (record {
          accounted =
              Accounts-between run s s folded _ (Unaccounted-refl run s)
                (fold_event-Accounts to_int64 at event run s)
                (mark_if_needed-Unaccounted at run folded).step;
        }))

-- Recording an event, of any kind, adds to the totals exactly the tokens by which the counts reported
-- by the run grow, so that a count reported twice is counted once, and writes to no other run.
pub record_runtime_event-Accounts :
    (to_int64 : ℕ → ℤ) (clock now : ℕ) (event : TaskEvent) (run : ℕ) (s : OrchestratorState)
    → Accounts run s (record_runtime_event to_int64 clock now event run s).0
record_runtime_event-Accounts to_int64 clock now event run s =
    (record_event-AccountsTo to_int64 clock now event run s).accounted
