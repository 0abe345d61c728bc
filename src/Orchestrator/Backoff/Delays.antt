-- ===== src/Orchestrator/Backoff/Delays.antt =====
-- What RetryScheduler.NextDelay computes, against the formula of SPEC 8.4.
use Prim.Native.Nat.{min}
use native.Mathlib.Nat.{pow-suc}
use aiops_platform.Common.{
  ltb, if◌then◌else◌, ◌-◌, pos_part, false, ℤ, ℕ, zero, suc, ◌*◌, ◌/◌, ◌%◌, ◌^◌, ◌≤◌, ◌≡◌, arith,
}
use aiops_platform.Orchestrator.Backoff.{
  RetryRequest, second, is_continuation, double_delay, max_backoff_or_default, next_delay,
}

pow_pos : (k : ℕ) → 1 ≤ 2 ^ k
pow_pos zero = omega arith
pow_pos (suc k) = omega (arith, pow-suc 2 k, pow_pos k)

-- Both sides of the test double the product: no round is lost by halving an even limit.
double_delay_lem :
    (limit rounds delay : ℕ)
    → limit % 2 ≡ 0
    → double_delay limit rounds delay ≡ min (delay * 2 ^ rounds) limit
unfolding double_delay
double_delay_lem limit zero delay even = ground arith
double_delay_lem limit (suc rounds) delay even = ground (
  arith,
  pow-suc 2 rounds,
  pow_pos rounds,
  double_delay_lem limit rounds (delay * 2) even,
  doubled,
  reaches,
)
  where
    doubled : delay * 2 ^ suc rounds ≡ delay * 2 * 2 ^ rounds
    doubled = grind (arith, pow-suc 2 rounds)

    reaches : limit / 2 ≤ delay → limit ≤ delay * 2 ^ suc rounds
    reaches h = grind (arith, pow-suc 2 rounds, pow_pos rounds)

double_delay_bounds :
    (limit rounds delay : ℕ)
    → (double_delay limit rounds delay ≤ limit)
      × (min delay limit ≤ double_delay limit rounds delay)
unfolding double_delay
double_delay_bounds limit zero delay = ground arith
double_delay_bounds limit (suc rounds) delay =
    ground (arith, double_delay_bounds limit rounds (delay * 2))

-- A failure or quota retry with no override waits 10 s doubled for each attempt behind the first, and
-- at most the configured maximum (5 min by default), which is an even number of nanoseconds.
pub next_delay_formula :
    (max_backoff : ℤ) (req : RetryRequest)
    → is_continuation req.kind ≡ false
    → pos_part req.delay_override ≡ 0
    → 1 ≤ req.attempt
    → max_backoff_or_default max_backoff % 2 ≡ 0
    → next_delay max_backoff req
      ≡ min (10 * second * 2 ^ (req.attempt - 1)) (max_backoff_or_default max_backoff)
unfolding next_delay
next_delay_formula max_backoff req kind plain first even = ground (
  arith,
  double_delay_lem (max_backoff_or_default max_backoff) (req.attempt - 1) (10 * second) even,
)

-- At any maximum, a failure or quota retry with no override waits no longer than the maximum, and
-- no less than 10 s or a smaller maximum.
pub next_delay_bounds :
    (max_backoff : ℤ) (req : RetryRequest)
    → is_continuation req.kind ≡ false
    → pos_part req.delay_override ≡ 0
    → (next_delay max_backoff req ≤ max_backoff_or_default max_backoff)
      × (min (10 * second) (max_backoff_or_default max_backoff) ≤ next_delay max_backoff req)
unfolding next_delay
next_delay_bounds max_backoff req kind plain =
    let attempt = if ltb req.attempt 1 then 1 else req.attempt in
    ground
      (arith, double_delay_bounds (max_backoff_or_default max_backoff) (attempt - 1) (10 * second))
