-- ===== src/Orchestrator/Poller/Merge.antt =====
-- internal/orchestrator/poller_candidates.go: the candidates that found no slot in the last tick go
-- before the rest of the fresh listing.
pub mod Listing
pub mod Once
use aiops_platform.Common.{none, some, List, [], ◌∷◌, ◌++◌, is_empty, if◌then◌else◌}
use aiops_platform.Common.Map.{Map, TextSet, has, insert, lookup}
use aiops_platform.Tracker.{Issue}

-- The loop that fills `freshByID`, and issueMap of poller.go.
unfoldable pub by_id_into : Map Issue → List Issue → Map Issue
by_id_into out [] = out
by_id_into out (issue ∷ rest) =
    by_id_into (if is_empty issue.id then out else insert issue.id issue out) rest

unfoldable pub issue_map : List Issue → Map Issue
unfolding by_id_into
issue_map issues = by_id_into [] issues

-- The loop over the overflow: `seen`, and what it appends to the candidates.
unfoldable pub carry_over : Map Issue → TextSet → List Issue → TextSet × List Issue
carry_over fresh_by_id seen [] = (seen, [])
carry_over fresh_by_id seen (issue ∷ rest) = elim (lookup issue.id fresh_by_id) [
  | none ↦ carry_over fresh_by_id seen rest
  | some fresh_issue ↦
      let (seen', carried) = carry_over fresh_by_id (insert issue.id tt seen) rest in
      (seen', fresh_issue ∷ carried)
]

-- The loop over the fresh issues.
unfoldable pub not_seen : TextSet → List Issue → List Issue
not_seen seen [] = []
not_seen seen (issue ∷ rest) =
    let out = not_seen seen rest in if has issue.id seen then out else issue ∷ out

unfoldable pub merge_overflow_candidates : List Issue → List Issue → List Issue
unfolding issue_map carry_over not_seen
merge_overflow_candidates [] fresh = fresh
merge_overflow_candidates (issue ∷ rest) fresh =
    let (seen, carried) = carry_over (issue_map fresh) [] (issue ∷ rest) in
    carried ++ not_seen seen fresh
