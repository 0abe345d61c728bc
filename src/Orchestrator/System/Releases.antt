-- ===== src/Orchestrator/System/Releases.antt =====
-- actor_reconcile.go: a claim that reconciliation releases, and the loop over the entries of a map that
-- releases some of them.
use aiops_platform.Common.Map.{has, has-delete}
use aiops_platform.Common.{text_eq_iff}
use aiops_platform.Orchestrator.System.Moves.{release_claim-Moved}
use aiops_platform.Common.{false, refl, arith, inl, ◌≡◌, ◌⊎◌, ◌≤◌, Text}
use aiops_platform.Orchestrator.Types.{OrchestratorState}
use aiops_platform.Orchestrator.Transitions.{release_claim}
use aiops_platform.Orchestrator.System.Owners.{
  owners_in, Holdings, holdings, Moved-Held, Moved-trans, Moved-refl, Moved, owners, Held,
}
use aiops_platform.Orchestrator.System.Exits.{Moved-at}

-- Every issue has at most one owner, and retry and blocked entries are claimed.
pub record AllHeld (s : OrchestratorState) : Type 0 where
  pub held : (k : Text) → Held k (holdings s)

-- A claim that may be released: an owner holds the issue, or it is not claimed.
pub record IsReleasable (k : Text) (t : Holdings) : Type 0 where
  pub releasable : (owners_in k t ≡ 1) ⊎ (has k t.claimed ≡ false)

IsReleasable-at : (k : Text) (t u : Holdings) → u ≡ t → IsReleasable k t → IsReleasable k u
IsReleasable-at k t u e r = rw e r

-- A step that keeps every other claim, at every issue.
pub record Sweeps (s t : OrchestratorState) : Type 0 where
  pub moved : (j : Text) → Moved j (holdings s) (holdings t) 0
  pub releasable : (k : Text) → IsReleasable k (holdings s) → IsReleasable k (holdings t)

pub Sweeps-refl : (s : OrchestratorState) → AllHeld s → Sweeps s s
Sweeps-refl s a = record {
  moved = λ j. Moved-refl j (holdings s) (a.held j);
  releasable = λ k r. r;
}

pub Sweeps-trans : (s t u : OrchestratorState) → Sweeps s t → Sweeps t u → Sweeps s u
Sweeps-trans s t u a b = record {
  moved = λ j. Moved-trans j _ _ _ _ (a.moved j) (b.moved j);
  releasable = λ k r. b.releasable k (a.releasable k r);
}

pub Sweeps-AllHeld : (s t : OrchestratorState) → AllHeld s → Sweeps s t → AllHeld t
Sweeps-AllHeld s t a w = record { held = λ k. Moved-Held k _ _ _ (a.held k) (w.moved k) }

pub Sweeps-at : (s t u : OrchestratorState) → holdings u ≡ holdings t → Sweeps s t → Sweeps s u
Sweeps-at s t u e w = record {
  moved = λ j. Moved-at j _ _ _ _ _ e refl (w.moved j);
  releasable = λ k r. IsReleasable-at k _ _ e (w.releasable k r);
}

pub release_claim-Sweeps :
    (id : Text) (s : OrchestratorState)
    → AllHeld s
    → IsReleasable id (holdings s)
    → Sweeps s (release_claim id s)
unfolding release_claim
release_claim-Sweeps id s a r = record {
  moved = λ j. release_claim-Moved j s (a.held j) id r.releasable;
  releasable = λ k l. record {
    releasable = ground (
      arith,
      l.releasable,
      text_eq_iff id k,
      has-delete k id s.claimed,
      has-delete k id s.blocked,
      has-delete k id s.retry_attempts,
    );
  };
}

pub owned-IsReleasable :
    (k : Text) (s : OrchestratorState) → AllHeld s → 1 ≤ owners k s → IsReleasable k (holdings s)
owned-IsReleasable k s a h = record { releasable = inl (single-owned (a.held k).single) }
  where
    single-owned : owners k s ≤ 1 → owners k s ≡ 1
    single-owned b = omega arith
