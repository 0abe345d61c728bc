-- ===== src/Orchestrator/System/Inactive.antt =====
-- actor_reconcile.go: the operation that reconciles inactive issues moves no claim to a second owner.
use aiops_platform.Common.{ℕ, if_intro, elim_intro, Text, ◌∷◌, [], List, ap}
use aiops_platform.Common.Map.{lookup, Map, TextSet}
use aiops_platform.Orchestrator.Transitions.{release_claim}
use aiops_platform.Orchestrator.Actor.{ReconciledCleanup, latch_operator_terminal_stop}
use aiops_platform.Orchestrator.Reconcile.{
  inactive_run, inactive_runs, inactive_retry, inactive_retries, inactive_blocked,
  inactive_blockeds, reconcile_inactive, release_inactive, inactive_entry,
}
use aiops_platform.Orchestrator.Types.{BlockedEntry, RetryEntry, OrchestratorState}
use aiops_platform.Tracker.{Issue}
use aiops_platform.Orchestrator.System.Releases.{
  release_claim-Sweeps, Sweeps-trans, Sweeps-AllHeld, Sweeps-refl, IsReleasable, Sweeps-at, AllHeld,
  Sweeps,
}
use aiops_platform.Orchestrator.System.Reconciled.{
  blocked-AllReleasable, AllReleasable-rest, retries-AllReleasable, AllReleasable-head,
  update_run-Sweeps, running-AllReleasable, AllReleasable,
}
use aiops_platform.Orchestrator.System.Owners.{holdings, holdings_of}
use aiops_platform.Orchestrator.System.Tables.{latch-tables}

-- A sweep by an operation that also returns what is to be canceled or cleaned up.
record SweepsTo {ℓ} {B : Type ℓ} (s : OrchestratorState) (p : OrchestratorState × B) : Type 0 where
  swept : Sweeps s p.0

latch-Sweeps :
    (now : ℕ) (id : Text) (issue : Issue) (s t : OrchestratorState)
    → Sweeps s t
    → Sweeps s (latch_operator_terminal_stop now id issue t)
latch-Sweeps now id issue s t w = Sweeps-at s t _ (ap holdings_of (latch-tables now id issue t)) w

release_latched :
    (now : ℕ) (id : Text) (issue : Issue) (s : OrchestratorState)
    → AllHeld s
    → IsReleasable id (holdings s)
    → Sweeps s (release_claim id (latch_operator_terminal_stop now id issue s))
release_latched now id issue s a r =
    let w = latch-Sweeps now id issue s s (Sweeps-refl s a) in
    Sweeps-trans s _ _ w (release_claim-Sweeps id _ (Sweeps-AllHeld s _ a w) (w.releasable id r))

module _ (now : ℕ) (issues : Map Issue) (terminal_states : TextSet) where
  inactive_run-Sweeps :
      (id : Text) (run : ℕ) (s : OrchestratorState)
      → AllHeld s
      → IsReleasable id (holdings s)
      → SweepsTo s (inactive_run now issues terminal_states id run s)
  unfolding inactive_run
  inactive_run-Sweeps id run s a r =
      elim_intro (SweepsTo s) (lookup id issues) (record { swept = Sweeps-refl s a })
        (λ issue.
          let w =
            update_run-Sweeps run (inactive_entry (s.runs run) issue terminal_states) s _
              (release_claim-Sweeps id s a r) in
          record { swept = if_intro (Sweeps s) _ (latch-Sweeps now id issue s _ w) w })

  release_inactive-Sweeps :
      (id : Text) (issue : Issue) (cleanup : List ReconciledCleanup) (s : OrchestratorState)
      → AllHeld s
      → IsReleasable id (holdings s)
      → SweepsTo s (release_inactive now terminal_states id issue cleanup s)
  unfolding release_inactive
  release_inactive-Sweeps id issue cleanup s a r =
      if_intro (SweepsTo s) _ (record { swept = release_latched now id issue s a r })
        (record { swept = release_claim-Sweeps id s a r })

  inactive_retry-Sweeps :
      (id : Text) (retry : RetryEntry) (s : OrchestratorState)
      → AllHeld s
      → IsReleasable id (holdings s)
      → SweepsTo s (inactive_retry now issues terminal_states id retry s)
  unfolding inactive_retry
  inactive_retry-Sweeps id retry s a r =
      elim_intro (SweepsTo s) (lookup id issues) (record { swept = Sweeps-refl s a })
        (λ issue. release_inactive-Sweeps id issue _ s a r)

  inactive_blocked-Sweeps :
      (id : Text) (blocked : BlockedEntry) (s : OrchestratorState)
      → AllHeld s
      → IsReleasable id (holdings s)
      → SweepsTo s (inactive_blocked now issues terminal_states id blocked s)
  unfolding inactive_blocked
  inactive_blocked-Sweeps id blocked s a r =
      elim_intro (SweepsTo s) (lookup id issues) (record { swept = Sweeps-refl s a })
        (λ issue. release_inactive-Sweeps id issue _ s a r)

  inactive_runs-Sweeps :
      (entries : Map ℕ) (s : OrchestratorState)
      → AllHeld s
      → AllReleasable entries s
      → Sweeps s (inactive_runs now issues terminal_states entries s).0
  unfolding inactive_runs
  inactive_runs-Sweeps [] s a r = Sweeps-refl s a
  inactive_runs-Sweeps ((id, run) ∷ rest) s a r =
      let t = (inactive_run now issues terminal_states id run s).0 in
      let w = (inactive_run-Sweeps id run s a (AllReleasable-head id run rest s r)).swept in
      Sweeps-trans s t _ w (
        inactive_runs-Sweeps rest t (Sweeps-AllHeld s t a w)
          (AllReleasable-rest id run rest s t w r))

  inactive_retries-Sweeps :
      (entries : Map RetryEntry) (s : OrchestratorState)
      → AllHeld s
      → AllReleasable entries s
      → Sweeps s (inactive_retries now issues terminal_states entries s).0
  unfolding inactive_retries
  inactive_retries-Sweeps [] s a r = Sweeps-refl s a
  inactive_retries-Sweeps ((id, retry) ∷ rest) s a r =
      let t = (inactive_retry now issues terminal_states id retry s).0 in
      let w = (inactive_retry-Sweeps id retry s a (AllReleasable-head id retry rest s r)).swept in
      Sweeps-trans s t _ w (
        inactive_retries-Sweeps rest t (Sweeps-AllHeld s t a w)
          (AllReleasable-rest id retry rest s t w r))

  inactive_blockeds-Sweeps :
      (entries : Map BlockedEntry) (s : OrchestratorState)
      → AllHeld s
      → AllReleasable entries s
      → Sweeps s (inactive_blockeds now issues terminal_states entries s).0
  unfolding inactive_blockeds
  inactive_blockeds-Sweeps [] s a r = Sweeps-refl s a
  inactive_blockeds-Sweeps ((id, b) ∷ rest) s a r =
      let t = (inactive_blocked now issues terminal_states id b s).0 in
      let w = (inactive_blocked-Sweeps id b s a (AllReleasable-head id b rest s r)).swept in
      Sweeps-trans s t _ w (
        inactive_blockeds-Sweeps rest t (Sweeps-AllHeld s t a w)
          (AllReleasable-rest id b rest s t w r))

  -- The same of the reconciliation of inactive issues, terminal or not: runs, then retries, then
  -- blocked entries; before, each issue has at most one owner, and retry and blocked entries are
  -- claimed.
  pub reconcile_inactive-Sweeps :
      (s : OrchestratorState)
      → AllHeld s
      → Sweeps s (reconcile_inactive now issues terminal_states s).0
  unfolding reconcile_inactive
  reconcile_inactive-Sweeps s a =
      let t = (inactive_runs now issues terminal_states s.running s).0 in
      let u = (inactive_retries now issues terminal_states t.retry_attempts t).0 in
      let w = inactive_runs-Sweeps s.running s a (running-AllReleasable s a) in
      let b = Sweeps-AllHeld s t a w in
      let x = inactive_retries-Sweeps t.retry_attempts t b (retries-AllReleasable t b) in
      let c = Sweeps-AllHeld t u b x in
      Sweeps-trans s t _ w
        (Sweeps-trans t u _ x (inactive_blockeds-Sweeps u.blocked u c (blocked-AllReleasable u c)))
