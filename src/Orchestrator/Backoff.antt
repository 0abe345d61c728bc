-- ===== src/Orchestrator/Backoff.antt =====
-- actor_retry.go: RetryKind, RetryRequest and RetryScheduler.NextDelay; retry.go: IsDue and
-- quotaBackoffDelayOverride. Durations are nanoseconds; a negative DelayOverride or MaxBackoff is
-- given as `negsuc`.
pub mod Delays
use aiops_platform.Common.{
  ℕ, zero, suc, ◌+◌, ◌-◌, ◌*◌, ◌/◌, ◌^◌, Bool, true, false, Option, none, some, ◌==◌, ltb, leb,
  ◌||◌, not, ℤ, pos, negsuc, pos_part, if◌then◌else◌,
}
use aiops_platform.Orchestrator.Types.{RetryKind, failure, continuation, quota_backoff, RetryEntry}

pub record RetryRequest : Type 0 where
  pub kind : RetryKind
  pub attempt : ℕ
  pub delay_override : ℤ

abbrev pub second : ℕ
second = 1_000_000_000

abbrev pub continuation_retry_delay : ℕ
continuation_retry_delay = second

abbrev pub is_continuation : RetryKind → Bool
is_continuation continuation = true
is_continuation _ = false

abbrev pub is_quota_backoff : RetryKind → Bool
is_quota_backoff quota_backoff = true
is_quota_backoff _ = false

abbrev pub is_failure : RetryKind → Bool
is_failure failure = true
is_failure _ = false

-- The loop `for i := 1; i < attempt; i++` with the rounds that are left, and the test behind it.
unfoldable pub double_delay : ℕ → ℕ → ℕ → ℕ
double_delay limit zero delay = if ltb limit delay then limit else delay
double_delay limit (suc rounds) delay =
    let rest = double_delay limit rounds (delay * 2) in
    if leb (limit / 2) delay then limit else rest

abbrev pub max_backoff_or_default : ℤ → ℕ
max_backoff_or_default max_backoff =
    if pos_part max_backoff == 0 then 300 * second else pos_part max_backoff

unfoldable pub next_delay : ℤ → RetryRequest → ℕ
unfolding double_delay
next_delay max_backoff req =
    let attempt = if ltb req.attempt 1 then 1 else req.attempt in
    if ltb 0 (pos_part req.delay_override)
    then pos_part req.delay_override
    else if is_continuation req.kind
    then continuation_retry_delay
    else double_delay (max_backoff_or_default max_backoff) (attempt - 1) (10 * second)

unfoldable pub is_due : RetryEntry → ℕ → Bool
is_due entry now = not (ltb now entry.due_at)

-- Zero where the entry asks for no quiet window, or the window is over.
unfoldable pub quota_backoff_delay_override : RetryEntry → ℕ → ℕ
quota_backoff_delay_override entry now =
    if not (is_quota_backoff entry.kind) || entry.quota_backoff_due_at == 0
    then 0
    else entry.quota_backoff_due_at - now
