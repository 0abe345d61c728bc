-- ===== src/Orchestrator/Poller/Selection/Rechecked.antt =====
-- Every candidate that a tick asks to dispatch was eligible in the listing and current in the recheck.
use aiops_platform.Common.{◌≡◌, some, List, [], ◌∷◌}
use aiops_platform.Common.Map.{Map, TextSet}
use aiops_platform.Tracker.{Issue, IssueRef, IssueState}
use aiops_platform.Orchestrator.Poller.Merge.Listing.{AllIssues}
use aiops_platform.Orchestrator.Poller.Revalidate.{
  ReconciliationConfig, Refresher, fetch_issue_states, claimable_refs,
}
use aiops_platform.Orchestrator.Poller.Revalidate.Survivors.{
  IsSurvivor, Survives, nothing, keeps, drops, filter_revalidated_candidates-Survives,
}
use aiops_platform.Orchestrator.Poller.Selection.{
  Claimable, revalidate_dispatch_candidates, revalidate_claimable, revalidate_refs, candidate_ids,
}

-- `kept` survives the recheck of a candidate for which `Q` holds.
pub record IsRechecked (Q : Issue → Type 0) (cfg : ReconciliationConfig) (claimable : TextSet)
    (rows : Map IssueState) (kept : Issue) : Type 0 where
  pub candidate : Issue
  pub before : Q candidate
  pub survivor : IsSurvivor cfg claimable rows candidate kept

module _ (Q : Issue → Type 0) (cfg : ReconciliationConfig) (claimable : TextSet) where
  Survives-all :
      (rows : Map IssueState) (l m : List Issue)
      → AllIssues Q l
      → Survives cfg claimable rows l m
      → AllIssues (IsRechecked Q cfg claimable rows) m
  Survives-all rows [] [] h nothing = tt
  Survives-all rows [] (b ∷ m) h s = elim s [ ]
  Survives-all rows (a ∷ l) (b ∷ m) h (keeps s rest) =
      (record { candidate = a; before = h.0; survivor = s }, Survives-all rows l m h.1 rest)
  Survives-all rows (a ∷ l) m h (drops d rest) = Survives-all rows l m h.1 rest

  revalidate_refs-all :
      (fetch : Refresher) (candidates : List Issue) (refs : List IssueRef)
      → AllIssues Q candidates
      → AllIssues
          (IsRechecked Q cfg claimable (fetch_issue_states (some fetch) refs).0)
          (revalidate_refs cfg fetch candidates claimable refs).0
  unfolding revalidate_refs
  revalidate_refs-all fetch candidates [] h = tt
  revalidate_refs-all fetch candidates (ref ∷ refs) h =
      let rows = (fetch_issue_states (some fetch) (ref ∷ refs)).0 in
      Survives-all rows candidates _ h
        (filter_revalidated_candidates-Survives cfg claimable rows candidates)

  pub revalidate-all :
      (fetch : Refresher) (ask : Claimable) (candidates : List Issue)
      → ask (candidate_ids candidates) ≡ some claimable
      → AllIssues Q candidates
      → AllIssues
          (IsRechecked Q cfg claimable
            (fetch_issue_states (some fetch) (claimable_refs claimable candidates)).0)
          (revalidate_dispatch_candidates cfg (some fetch) ask candidates).0
  unfolding revalidate_dispatch_candidates revalidate_claimable
  revalidate-all fetch ask [] e h = tt
  revalidate-all fetch ask (issue ∷ rest) e h =
      rw (e, revalidate_claimable)
        (revalidate_refs-all fetch (issue ∷ rest) (claimable_refs claimable (issue ∷ rest)) h)
