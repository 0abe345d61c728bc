-- ===== src/Examples/Retries.antt =====
-- The retry of the issue fires, or reconciliation releases it.
use aiops_platform.Orchestrator.Reschedule.{schedule_retry_op, scheduled_entry}
use aiops_platform.Orchestrator.Transitions.{schedule_retry}
use aiops_platform.Common.{ℕ, some, ◌⊎◌, ◌≢◌, ◌≡◌}
use Prim.Native.Nat.{min}
use aiops_platform.Common.{◌∷◌, ◌≤◌, ◌*◌, ◌^◌, ◌-◌, arith}
use aiops_platform.Orchestrator.Transitions.{claim}
use aiops_platform.Orchestrator.Actor.{idle}
use aiops_platform.Common.Map.{insert, lookup}
use aiops_platform.Common.{[], codes, pos, refl, ◌≡◌}
use aiops_platform.Orchestrator.Initial.{new_orchestrator_state}
use aiops_platform.Orchestrator.Types.{RetryKind}
use aiops_platform.Common.Map.{lookup}
use aiops_platform.Orchestrator.Backoff.{max_backoff_or_default, second, next_delay}
use aiops_platform.Orchestrator.Backoff.Delays.{next_delay_bounds, next_delay_formula}
use aiops_platform.Orchestrator.RetryQueue.{retry_fire_op, matching_retry_entry}
use aiops_platform.Orchestrator.RetryQueue.Fire.{schedule_retry_op-retry_fire}
use aiops_platform.Orchestrator.System.Releases.{Sweeps, AllHeld}
use aiops_platform.Orchestrator.Reconcile.{reconcile_inactive, reconcile_absent}
use aiops_platform.Orchestrator.System.Reconciled.{reconcile_absent-Sweeps}
use aiops_platform.Orchestrator.System.Inactive.{reconcile_inactive-Sweeps}
use aiops_platform.Examples.Data.{issue_a, fresh, actor, third_failure, failed_a, queued}

next_delay_formula_example :
    next_delay (pos 0) third_failure
    ≡ min (10 * second * 2 ^ (third_failure.attempt - 1)) (max_backoff_or_default (pos 0))
next_delay_formula_example = next_delay_formula (pos 0) third_failure refl refl (omega arith) refl

next_delay_bounds_example :
    (next_delay (pos 0) third_failure ≤ max_backoff_or_default (pos 0))
    × (min (10 * second) (max_backoff_or_default (pos 0)) ≤ next_delay (pos 0) third_failure)
next_delay_bounds_example = next_delay_bounds (pos 0) third_failure refl refl

schedule_retry_op-retry_fire_example :
    (matching_retry_entry queued (codes "A") 3 RetryKind.failure
      ≡ some (scheduled_entry actor 10 fresh.next_address failed_a))
    × ((◌≢◌ {A = ℕ} 2 3) ⊎ (RetryKind.failure ≢ RetryKind.failure)
        → retry_fire_op actor 60 (codes "A") 2 RetryKind.failure queued ≡ (queued, idle))
schedule_retry_op-retry_fire_example =
    schedule_retry_op-retry_fire actor 10 60 failed_a fresh 2 RetryKind.failure

queued-AllHeld : AllHeld queued
unfolding schedule_retry_op schedule_retry scheduled_entry claim new_orchestrator_state lookup
    insert
queued-AllHeld = record {
  held = λ k. record { single = ground arith; backed = λ unclaimed. ground (arith, unclaimed) };
}

reconcile_absent-Sweeps_example : Sweeps queued (reconcile_absent ((codes "A", tt) ∷ []) queued).0
reconcile_absent-Sweeps_example =
    reconcile_absent-Sweeps ((codes "A", tt) ∷ []) queued queued-AllHeld

reconcile_inactive-Sweeps_example :
    Sweeps queued
      (reconcile_inactive 70 ((codes "A", issue_a) ∷ []) ((codes "todo", tt) ∷ []) queued).0
reconcile_inactive-Sweeps_example =
    reconcile_inactive-Sweeps 70 ((codes "A", issue_a) ∷ []) ((codes "todo", tt) ∷ []) queued
      queued-AllHeld
