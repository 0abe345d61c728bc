-- ===== src/Orchestrator/System/Moves.antt =====
-- The moves of the transition methods at any issue `j`.
use aiops_platform.Common.{
  is_empty, if◌then◌else◌, ℤ, ℕ, true, false, Text, text_eq, text_eq_iff, ◌≡◌, ◌⊎◌, arith,
}
use aiops_platform.Common.Map.{has, delete, has-insert, has-delete}
use aiops_platform.Tracker.{Issue}
use aiops_platform.Orchestrator.Types.{RetryEntry, OrchestratorState}
use aiops_platform.Orchestrator.Transitions.{is_current, drop_run, claim, release_claim}
use aiops_platform.Orchestrator.System.Owners.{holdings}
use aiops_platform.Orchestrator.System.Owners.{count_of, owners, Held, Moved}
use aiops_platform.Orchestrator.Block.{
  blocked_retry, or_now, blocked_run, is_current_retry, block_retry_with_reason,
  block_run_with_reason,
}
use aiops_platform.Orchestrator.RetryQueue.{store_retry}
use aiops_platform.Orchestrator.Usage.{count_seconds}

module _ (j : Text) (s : OrchestratorState) (h : Held j (holdings s)) (id : Text) where
  -- The claim of an issue may be released if an owner holds it, or if it is not claimed.
  pub release_claim-Moved :
      (owners id s ≡ 1) ⊎ (has id s.claimed ≡ false)
      → Moved j (holdings s) (holdings (release_claim id s)) 0
  unfolding release_claim
  release_claim-Moved held = ground (
    arith,
    text_eq_iff id j,
    has-delete j id s.claimed,
    has-delete j id s.blocked,
    has-delete j id s.retry_attempts,
  )

  pub drop_run-Moved : has id s.running ≡ true → Moved j (holdings s) (holdings (drop_run id s)) 0
  unfolding drop_run
  drop_run-Moved r =
      ground (arith, text_eq_iff id j, has-delete j id s.claimed, has-delete j id s.running)

  pub requeue-Moved :
      (issue : Issue)
      → has id s.running ≡ true
      → Moved j (holdings s) (holdings (claim id issue (drop_run id s))) (count_of (text_eq id j))
  unfolding drop_run claim
  requeue-Moved issue r = ground (
    arith,
    text_eq_iff id j,
    has-delete j id s.claimed,
    has-insert j id tt (delete id s.claimed),
    has-delete j id s.running,
  )

  pub block_run-Moved :
      (now run blocked_at : ℕ) (method run_err : Text) (elapsed : ℤ)
      → is_current id run s ≡ true
      → Moved j
          (holdings s)
          (holdings (block_run_with_reason now id run blocked_at method run_err elapsed s).0)
          0
  unfolding block_run_with_reason count_seconds claim is_current
  block_run-Moved now run blocked_at method run_err elapsed current =
      let entry = blocked_run (s.runs run) (or_now now blocked_at) method run_err elapsed in
      ground (
        arith,
        text_eq_iff id j,
        has-insert j id tt s.claimed,
        has-delete j id s.running,
        has-delete j id s.retry_attempts,
        has-insert j id entry s.blocked,
      )

  pub block_retry-Moved :
      (now : ℕ) (retry : RetryEntry) (issue : Issue) (blocked_at : ℕ) (method run_err : Text)
      → is_current_retry id retry s ≡ true
      → Moved j
          (holdings s)
          (holdings (block_retry_with_reason now id retry issue blocked_at method run_err s).0)
          0
  unfolding block_retry_with_reason claim is_current_retry
  block_retry-Moved now retry issue blocked_at method run_err current =
      let known = if is_empty issue.id then retry.issue else issue in
      let entry = blocked_retry retry known (or_now now blocked_at) method run_err in
      ground (
        arith,
        text_eq_iff id j,
        has-insert j id tt s.claimed,
        has-delete j id s.retry_attempts,
        has-insert j id entry s.blocked,
      )

  -- A fired retry hands its issue to the worker that it spawns.
  pub fire_retry-Moved :
      has id s.retry_attempts ≡ true
      → Moved j
          (holdings s)
          (holdings (record s { retry_attempts = delete id s.retry_attempts }))
          (count_of (text_eq id j))
  fire_retry-Moved queued = ground (arith, text_eq_iff id j, has-delete j id s.retry_attempts)

  -- A write through the entry that the map holds moves nothing.
  pub store_retry-Moved :
      (entry : RetryEntry)
      → has id s.retry_attempts ≡ true
      → Moved j (holdings s) (holdings (store_retry id entry s)) 0
  unfolding store_retry
  store_retry-Moved entry queued =
      ground (arith, text_eq_iff id j, has-insert j id entry s.retry_attempts)

pub is_current-has :
    (id : Text) (run : ℕ) (s : OrchestratorState)
    → is_current id run s ≡ true
    → has id s.running ≡ true
unfolding is_current
is_current-has id run s h = ground arith
