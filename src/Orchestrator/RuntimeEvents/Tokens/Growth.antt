-- ===== src/Orchestrator/RuntimeEvents/Tokens/Growth.antt =====
-- The counts of a run grow by the deltas that the totals gain.
use aiops_platform.Common.{ℕ, ◌+◌, ◌≡◌, none, some, Option, ℤ, pos, negsuc, arith}
use aiops_platform.Orchestrator.Types.{RunningEntry}
use aiops_platform.Orchestrator.RuntimeEvents.Tokens.{
  TokenUsage, TokenDelta, apply_token_usage, max_reported, positive_delta, reported, delta,
}

max_reported-delta : (prev : ℕ) (n : ℤ) → max_reported prev n ≡ prev + positive_delta n prev
unfolding max_reported positive_delta
max_reported-delta prev (pos n) = ground arith
max_reported-delta prev (negsuc n) = omega arith

reported-delta : (prev : ℕ) (n : Option ℤ) → reported n prev ≡ prev + delta n prev
reported-delta prev none = omega arith
reported-delta prev (some n) = max_reported-delta prev n

-- The counts that `new` reports are those of `old` and the deltas.
pub record GrowsBy (old new : RunningEntry) (d : TokenDelta) : Type 0 where
  pub input : new.last_reported_input_tokens ≡ old.last_reported_input_tokens + d.input
  pub output : new.last_reported_output_tokens ≡ old.last_reported_output_tokens + d.output
  pub total : new.last_reported_total_tokens ≡ old.last_reported_total_tokens + d.total

pub apply_token_usage-GrowsBy :
    (run : RunningEntry) (usage : TokenUsage)
    → GrowsBy run (apply_token_usage run usage).0 (apply_token_usage run usage).1
unfolding apply_token_usage
apply_token_usage-GrowsBy run usage = record {
  input = reported-delta run.last_reported_input_tokens usage.input;
  output = reported-delta run.last_reported_output_tokens usage.output;
  total = reported-delta run.last_reported_total_tokens usage.total;
}
