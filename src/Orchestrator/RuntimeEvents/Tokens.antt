-- ===== src/Orchestrator/RuntimeEvents/Tokens.antt =====
-- runtime_events.go: the token counts of an event, and what they add to the run and the totals. A
-- reported count is an int64; a negative one, which only `to_int64` can give, changes nothing.
pub mod Growth
use aiops_platform.Common.{
  ℕ, ◌-◌, Bool, true, false, ◌||◌, not, Option, none, some, List, [], ◌∷◌, Text, codes, text_eq,
  leb, ℤ, pos, negsuc, is_some, if◌then◌else◌,
}
use aiops_platform.Orchestrator.Types.{RunningEntry}
use aiops_platform.Orchestrator.Payload.{
  Value, Fields, as_string_map, fields_of, map_at_path, number_field,
}

-- task.RuntimeEvent.
pub record TaskEvent : Type 0 where
  pub event : Text
  pub payload : Value

pub record TokenUsage : Type 0 where
  pub input : Option ℤ
  pub output : Option ℤ
  pub total : Option ℤ

abbrev pub absolute_paths : List (List Text)
absolute_paths =
    (codes "total_token_usage" ∷ [])
    ∷ (codes "token_usage" ∷ codes "total" ∷ [])
    ∷ (codes "turn" ∷ codes "token_usage" ∷ codes "total" ∷ [])
    ∷ (codes "msg" ∷ codes "payload" ∷ codes "info" ∷ codes "total_token_usage" ∷ [])
    ∷ (codes "msg" ∷ codes "info" ∷ codes "total_token_usage" ∷ [])
    ∷ []

abbrev pub turn_paths : List (List Text)
turn_paths = (codes "usage" ∷ []) ∷ (codes "turn" ∷ codes "usage" ∷ []) ∷ [] ∷ []

abbrev pub event_turn_completed : Text
event_turn_completed = codes "turn_completed"

unfoldable pub has_usage : TokenUsage → Bool
has_usage usage = is_some usage.input || is_some usage.output || is_some usage.total

-- The greater of a count and a reported one.
unfoldable pub max_reported : ℕ → ℤ → ℕ
max_reported prev (pos next) = if leb next prev then prev else next
max_reported prev (negsuc n) = prev

unfoldable pub positive_delta : ℤ → ℕ → ℕ
positive_delta (pos next) prev = if leb next prev then 0 else next - prev
positive_delta (negsuc n) prev = 0

abbrev pub delta : Option ℤ → ℕ → ℕ
delta none prev = 0
delta (some next) prev = positive_delta next prev

abbrev pub reported : Option ℤ → ℕ → ℕ
reported none prev = prev
reported (some next) prev = max_reported prev next

-- The count that the run shows: it follows the reported one.
abbrev pub shown : Option ℤ → ℕ → ℕ → ℕ
shown none count prev = count
shown (some next) count prev = max_reported prev next

pub record TokenDelta : Type 0 where
  pub input : ℕ
  pub output : ℕ
  pub total : ℕ

unfoldable pub apply_token_usage : RunningEntry → TokenUsage → RunningEntry × TokenDelta
apply_token_usage run usage = (
  record run {
    last_reported_input_tokens = reported usage.input run.last_reported_input_tokens;
    codex_input_tokens = shown usage.input run.codex_input_tokens run.last_reported_input_tokens;
    last_reported_output_tokens = reported usage.output run.last_reported_output_tokens;
    codex_output_tokens =
        shown usage.output run.codex_output_tokens run.last_reported_output_tokens;
    last_reported_total_tokens = reported usage.total run.last_reported_total_tokens;
    codex_total_tokens = shown usage.total run.codex_total_tokens run.last_reported_total_tokens;
  },
  record {
    input = delta usage.input run.last_reported_input_tokens;
    output = delta usage.output run.last_reported_output_tokens;
    total = delta usage.total run.last_reported_total_tokens;
  },
)

module _ (to_int64 : ℕ → ℤ) where
  unfoldable pub token_usage_from_map : Fields → Option TokenUsage
  unfolding has_usage
  token_usage_from_map m =
      let usage : TokenUsage = record {
        input = number_field to_int64 m (
            codes "input_tokens"
            ∷ codes "prompt_tokens"
            ∷ codes "input"
            ∷ codes "inputTokens"
            ∷ codes "promptTokens"
            ∷ []);
        output = number_field to_int64 m (
            codes "output_tokens"
            ∷ codes "completion_tokens"
            ∷ codes "output"
            ∷ codes "completion"
            ∷ codes "outputTokens"
            ∷ codes "completionTokens"
            ∷ []);
        total =
            number_field to_int64 m
              (codes "total_tokens" ∷ codes "total" ∷ codes "totalTokens" ∷ []);
      } in
      if has_usage usage then some usage else none

  -- The first path with a count.
  unfoldable pub usage_at_paths : Fields → List (List Text) → Option TokenUsage
  unfolding token_usage_from_map
  usage_at_paths payload [] = none
  usage_at_paths payload (path ∷ paths) =
      let later = usage_at_paths payload paths in
      elim (token_usage_from_map (fields_of (map_at_path payload path))) [
        | some usage ↦ some usage
        | none ↦ later
      ]

  -- The paths behind the guard on the payload.
  unfoldable pub usage_in_payload : Text → Option Fields → Option TokenUsage
  unfolding usage_at_paths
  usage_in_payload event none = none
  usage_in_payload event (some payload) = elim (usage_at_paths payload absolute_paths) [
    | some usage ↦ some usage
    | none ↦
        if not (text_eq event event_turn_completed) then none else usage_at_paths payload turn_paths
  ]

  unfoldable pub token_usage_from_event : TaskEvent → Option TokenUsage
  unfolding usage_in_payload
  token_usage_from_event event = usage_in_payload event.event (as_string_map event.payload)
