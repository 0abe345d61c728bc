-- ===== src/Orchestrator/System/Reconciled.antt =====
-- actor_reconcile.go: the operations that reconcile absent and inactive issues move no claim to a
-- second owner, at any issue.
use aiops_platform.Common.{◌&&◌, if◌then◌else◌}
use aiops_platform.Orchestrator.Backoff.{is_continuation}
use aiops_platform.Orchestrator.Reconcile.{
  absent_runs, absent_blocked, absent_retries, reconcile_absent, absent_entry,
}
use aiops_platform.Orchestrator.Actor.{update_run}
use aiops_platform.Orchestrator.Transitions.{release_claim}
use aiops_platform.Common.{ℕ, true, refl, arith, if_intro, ◌≡◌, Text, ◌∷◌, [], text_eq_refl}
use aiops_platform.Common.Map.{has, lookup, Map, TextSet}
use aiops_platform.Orchestrator.Types.{RetryEntry, BlockedEntry, RunningEntry, OrchestratorState}
use aiops_platform.Orchestrator.System.Releases.{
  Sweeps-trans, release_claim-Sweeps, Sweeps-AllHeld, Sweeps-refl, Sweeps-at, owned-IsReleasable,
  AllHeld, Sweeps, IsReleasable,
}
use aiops_platform.Orchestrator.System.Owners.{holdings}

-- Every key of the entries that are left to visit may be released.
pub record AllReleasable {ℓ} {V : Type ℓ} (entries : Map V) (s : OrchestratorState) : Type ℓ where
  pub visit : (k : Text) → has k entries ≡ true → IsReleasable k (holdings s)

-- The first entry and the rest of them.
pub AllReleasable-head :
    {V : Type 0} (id : Text) (v : V) (rest : Map V) (s : OrchestratorState)
    → AllReleasable ((id, v) ∷ rest) s
    → IsReleasable id (holdings s)
unfolding lookup
AllReleasable-head id v rest s r = r.visit id (ground (arith, text_eq_refl id))

pub AllReleasable-rest :
    {V : Type 0} (id : Text) (v : V) (rest : Map V) (s t : OrchestratorState)
    → Sweeps s t
    → AllReleasable ((id, v) ∷ rest) s
    → AllReleasable rest t
unfolding lookup
AllReleasable-rest id v rest s t w r = record {
  visit = λ k h. w.releasable k (r.visit k (ground (arith, h)));
}

-- An owner in the map itself makes every entry of it releasable.
pub running-AllReleasable : (s : OrchestratorState) → AllHeld s → AllReleasable s.running s
running-AllReleasable s a = record { visit = λ k h. owned-IsReleasable k s a (ground (arith, h)) }

pub blocked-AllReleasable : (s : OrchestratorState) → AllHeld s → AllReleasable s.blocked s
blocked-AllReleasable s a = record { visit = λ k h. owned-IsReleasable k s a (ground (arith, h)) }

pub retries-AllReleasable : (s : OrchestratorState) → AllHeld s → AllReleasable s.retry_attempts s
retries-AllReleasable s a = record { visit = λ k h. owned-IsReleasable k s a (ground (arith, h)) }

pub update_run-Sweeps :
    (run : ℕ) (entry : RunningEntry) (s t : OrchestratorState)
    → Sweeps s t
    → Sweeps s (update_run run entry t)
unfolding update_run
update_run-Sweeps run entry s t w = Sweeps-at s t _ refl w

module _ (absent : TextSet) where
  absent_runs-Sweeps :
      (entries : Map ℕ) (s : OrchestratorState)
      → AllHeld s
      → AllReleasable entries s
      → Sweeps s (absent_runs absent entries s).0
  unfolding absent_runs
  absent_runs-Sweeps [] s a r = Sweeps-refl s a
  absent_runs-Sweeps ((id, run) ∷ rest) s a r =
      let t =
        if has id absent
        then update_run run (absent_entry (s.runs run)) (release_claim id s)
        else s in
      let w =
        if_intro (Sweeps s) (has id absent)
          (update_run-Sweeps run (absent_entry (s.runs run)) s _
            (release_claim-Sweeps id s a (AllReleasable-head id run rest s r)))
          (Sweeps-refl s a) in
      Sweeps-trans s t _ w (
        absent_runs-Sweeps rest t (Sweeps-AllHeld s t a w) (AllReleasable-rest id run rest s t w r))

  absent_blocked-Sweeps :
      (entries : Map BlockedEntry) (s : OrchestratorState)
      → AllHeld s
      → AllReleasable entries s
      → Sweeps s (absent_blocked absent entries s)
  unfolding absent_blocked
  absent_blocked-Sweeps [] s a r = Sweeps-refl s a
  absent_blocked-Sweeps ((id, b) ∷ rest) s a r =
      let t = if has id absent then release_claim id s else s in
      let w =
        if_intro (Sweeps s) (has id absent)
          (release_claim-Sweeps id s a (AllReleasable-head id b rest s r)) (Sweeps-refl s a) in
      Sweeps-trans s t _ w (
        absent_blocked-Sweeps rest t (Sweeps-AllHeld s t a w)
          (AllReleasable-rest id b rest s t w r))

  absent_retries-Sweeps :
      (entries : Map RetryEntry) (s : OrchestratorState)
      → AllHeld s
      → AllReleasable entries s
      → Sweeps s (absent_retries absent entries s)
  unfolding absent_retries
  absent_retries-Sweeps [] s a r = Sweeps-refl s a
  absent_retries-Sweeps ((id, retry) ∷ rest) s a r =
      let t = if has id absent && is_continuation retry.kind then release_claim id s else s in
      let w =
        if_intro (Sweeps s) (has id absent && is_continuation retry.kind)
          (release_claim-Sweeps id s a (AllReleasable-head id retry rest s r)) (Sweeps-refl s a) in
      Sweeps-trans s t _ w (
        absent_retries-Sweeps rest t (Sweeps-AllHeld s t a w)
          (AllReleasable-rest id retry rest s t w r))

  -- Reconciling absent issues gives no issue a second owner, leaves none claimed with no owner if it
  -- had one, and keeps the claim of every issue that has none of its own; before, each issue has at
  -- most one owner, and retry and blocked entries are claimed.
  pub reconcile_absent-Sweeps :
      (s : OrchestratorState) → AllHeld s → Sweeps s (reconcile_absent absent s).0
  unfolding reconcile_absent
  reconcile_absent-Sweeps s a =
      let t = (absent_runs absent s.running s).0 in
      let u = absent_blocked absent t.blocked t in
      let w = absent_runs-Sweeps s.running s a (running-AllReleasable s a) in
      let b = Sweeps-AllHeld s t a w in
      let x = absent_blocked-Sweeps t.blocked t b (blocked-AllReleasable t b) in
      let c = Sweeps-AllHeld t u b x in
      Sweeps-trans s t _ w (
        Sweeps-trans t u _ x
          (absent_retries-Sweeps u.retry_attempts u c (retries-AllReleasable u c)))
