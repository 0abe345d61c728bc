-- ===== src/Orchestrator/Poller/Selection.antt =====
-- internal/orchestrator/poller.go and poller_candidates.go: from the fresh listing to the candidates
-- that the tick asks to dispatch.
pub mod Selected
pub mod Rechecked
use aiops_platform.Common.{Bool, true, false, Option, none, some, List, [], ◌∷◌, Text}
use aiops_platform.Common.Map.{Map, TextSet}
use aiops_platform.Tracker.{Issue, IssueRef, IssueState}
use aiops_platform.Orchestrator.Poller.Eligibility.{
  filter_eligible_candidates, filter_issues_not_in_map,
}
use aiops_platform.Orchestrator.Poller.Ordering.{sort_candidates}
use aiops_platform.Orchestrator.Poller.Merge.{merge_overflow_candidates}
use aiops_platform.Orchestrator.Poller.Revalidate.{
  ReconciliationConfig, Refresher, fetch_issue_states, filter_revalidated_candidates,
  claimable_refs,
}

-- What the actor answers to DispatchClaimableIssueIDs; `none` is a failed submission.
abbrev pub Claimable : Type 0
Claimable = List Text → Option TextSet

abbrev pub candidate_ids : List Issue → List Text
candidate_ids [] = []
candidate_ids (issue ∷ rest) = issue.id ∷ candidate_ids rest

-- The fetch behind the guard on the refs.
unfoldable pub revalidate_refs :
    ReconciliationConfig → Refresher → List Issue → TextSet → List IssueRef → List Issue × Bool
revalidate_refs cfg fetch candidates claimable [] = ([], false)
revalidate_refs cfg fetch candidates claimable (ref ∷ refs) =
    let (rows, failed) = fetch_issue_states (some fetch) (ref ∷ refs) in
    (filter_revalidated_candidates cfg candidates claimable rows, failed)

unfoldable pub revalidate_claimable :
    ReconciliationConfig → Refresher → List Issue → Option TextSet → List Issue × Bool
unfolding revalidate_refs
revalidate_claimable cfg fetch candidates none = ([], true)
revalidate_claimable cfg fetch candidates (some claimable) =
    revalidate_refs cfg fetch candidates claimable (claimable_refs claimable candidates)

-- The candidates that are left, and whether an error came up.
unfoldable pub revalidate_dispatch_candidates :
    ReconciliationConfig → Option Refresher → Claimable → List Issue → List Issue × Bool
unfolding revalidate_claimable
revalidate_dispatch_candidates cfg none ask candidates = (candidates, false)
revalidate_dispatch_candidates cfg (some fetch) ask [] = ([], false)
revalidate_dispatch_candidates cfg (some fetch) ask (issue ∷ rest) =
    revalidate_claimable cfg fetch (issue ∷ rest) (ask (candidate_ids (issue ∷ rest)))

-- The steps of PollOnce from the listing to the recheck.
unfoldable pub listed_candidates :
    ReconciliationConfig → List Issue → List Issue → Map Issue → List Issue
listed_candidates cfg overflow listed inactive = sort_candidates (
    filter_issues_not_in_map
      (filter_eligible_candidates (merge_overflow_candidates overflow listed) cfg.terminal_states
        cfg.required_labels)
      inactive)
