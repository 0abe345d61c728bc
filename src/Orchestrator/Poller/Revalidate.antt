-- ===== src/Orchestrator/Poller/Revalidate.antt =====
-- internal/orchestrator/poller.go and poller_candidates.go: the narrow refresh of issue states, and
-- the recheck of the candidates before they are dispatched. The tracker's adapter is the parameter
-- `fetch`: the rows it returns for the refs, and whether it failed.
pub mod Survivors
pub mod Rows
use aiops_platform.Common.{
  ℕ, Bool, false, not, Option, none, some, List, [], ◌∷◌, Text, is_empty, trim_space, if◌then◌else◌,
}
use aiops_platform.Common.Map.{Map, TextSet, has, insert, lookup}
use aiops_platform.Orchestrator.Actor.{is_tracker_state}
use aiops_platform.Tracker.{
  Issue, IssueRef, IssueState, IssueStateOutcome, BlockerRef, unknown_issue_states_by_refs,
}
use aiops_platform.Orchestrator.Poller.Eligibility.{
  normalized_states, issue_has_required_labels, todo_issue_blocked_by_open_dependency,
}

abbrev pub Refresher : Type 0
Refresher = List IssueRef → Map IssueState × Bool

unfoldable pub merge_requested_issue_states : Map IssueState → Map IssueState → Map IssueState
merge_requested_issue_states states [] = states
merge_requested_issue_states states ((id, state) ∷ fetched) =
    merge_requested_issue_states (if has id states then insert id state states else states) fetched

-- Behind the guard on the normalized refs.
unfoldable pub fetch_rows : Refresher → Map IssueState → List IssueRef → Map IssueState × Bool
fetch_rows fetch states [] = (states, false)
fetch_rows fetch states (ref ∷ refs) =
    let (fetched, failed) = fetch (ref ∷ refs) in
    (merge_requested_issue_states states fetched, failed)

-- A nil refresher is `none`.
unfoldable pub fetch_issue_states : Option Refresher → List IssueRef → Map IssueState × Bool
unfolding fetch_rows
fetch_issue_states none issue_refs = ((unknown_issue_states_by_refs issue_refs).0, false)
fetch_issue_states (some fetch) issue_refs =
    let (states, refs) = unknown_issue_states_by_refs issue_refs in fetch_rows fetch states refs

abbrev pub refreshed_blockers :
    Option (List BlockerRef) → Option (List BlockerRef) → Option (List BlockerRef)
refreshed_blockers none listed = listed
refreshed_blockers (some refs) listed = some refs

unfoldable pub carry_refreshed : Issue → IssueState → Issue
carry_refreshed issue refreshed = record issue {
  state = refreshed.state;
  labels = refreshed.labels;
  blocked_by = refreshed_blockers refreshed.blocked_by issue.blocked_by;
}

-- The gates behind the switch on the outcome.
unfoldable pub current_candidate : Issue → IssueState → TextSet → TextSet → List Text → Option Issue
unfolding carry_refreshed
current_candidate issue refreshed active terminal required =
    let carried = carry_refreshed issue refreshed in
    if is_empty (trim_space refreshed.state)
    then none
    else if not (is_tracker_state carried.state active)
    then none
    else if not (issue_has_required_labels carried required)
    then none
    else if todo_issue_blocked_by_open_dependency carried terminal
    then none
    else some carried

unfoldable pub revalidated_row :
    Issue → Option IssueState → TextSet → TextSet → List Text → Option Issue
revalidated_row issue none active terminal required = none
revalidated_row issue (some refreshed) active terminal required = elim refreshed.outcome [
  | IssueStateOutcome.unknown ↦ none
  | IssueStateOutcome.absent ↦ none
  | IssueStateOutcome.current ↦ current_candidate issue refreshed active terminal required
]

unfoldable pub revalidated_candidate :
    Issue → Map IssueState → TextSet → TextSet → List Text → Option Issue
revalidated_candidate issue states_by_id active terminal required =
    revalidated_row issue (lookup issue.id states_by_id) active terminal required

pub record ReconciliationConfig : Type 0 where
  pub active_states : List Text
  pub terminal_states : List Text
  pub inactive_states : List Text
  pub required_labels : List Text
  pub worker_exit_timeout : ℕ
  pub stall_timeout_ms : ℕ

-- The loop of filterRevalidatedCandidates, with the two sets of states.
unfoldable pub keep_revalidated :
    TextSet → TextSet → List Text → TextSet → Map IssueState → List Issue → List Issue
keep_revalidated active terminal required claimable states_by_id [] = []
keep_revalidated active terminal required claimable states_by_id (issue ∷ rest) =
    let kept = keep_revalidated active terminal required claimable states_by_id rest in
    if not (has issue.id claimable)
    then kept
    else elim (revalidated_candidate issue states_by_id active terminal required) [
      | none ↦ kept
      | some revalidated ↦ revalidated ∷ kept
    ]

unfoldable pub filter_revalidated_candidates :
    ReconciliationConfig → List Issue → TextSet → Map IssueState → List Issue
filter_revalidated_candidates cfg candidates claimable states_by_id =
    keep_revalidated (normalized_states cfg.active_states) (normalized_states cfg.terminal_states)
      cfg.required_labels claimable states_by_id candidates

-- The refs of claimableDispatchRefs.
unfoldable pub claimable_refs : TextSet → List Issue → List IssueRef
claimable_refs claimable [] = []
claimable_refs claimable (issue ∷ rest) =
    let refs = claimable_refs claimable rest in
    if has issue.id claimable
    then record { id = issue.id; identifier = issue.identifier } ∷ refs
    else refs
