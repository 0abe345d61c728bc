-- ===== src/Orchestrator/Poller/Inactive.antt =====
-- internal/orchestrator/poller.go: what a tick concludes from the narrow refresh of the claimed issues
-- and from the listings of terminal and inactive states.
pub mod Derived
use aiops_platform.Common.{
  Bool, true, false, not, ◌||◌, Option, none, some, List, [], ◌∷◌, ◌++◌, Text, is_empty, trim_space,
  if◌then◌else◌,
}
use aiops_platform.Common.Map.{Map, TextSet, has, insert, lookup, delete}
use aiops_platform.Tracker.{Issue, IssueRef, IssueState, IssueStateOutcome, unknown_row}
use aiops_platform.Orchestrator.Actor.{is_tracker_state}
use aiops_platform.Orchestrator.Refresh.{patch_tracker_issue_state}
use aiops_platform.Orchestrator.Poller.Eligibility.{normalized_states, issue_has_required_labels}
use aiops_platform.Orchestrator.Poller.Revalidate.{ReconciliationConfig}

-- The maps that the loop over the refs fills.
pub record Observed : Type 0 where
  pub refreshed : Map Issue
  pub absent : TextSet

-- The issue to start from: the listed one, or one with the id and the identifier of the ref.
unfoldable pub base_issue : IssueRef → Text → Option Issue → Issue
base_issue ref id (some issue) = issue
base_issue ref id none = record {
  id = id;
  identifier = ref.identifier;
  title = [];
  description = [];
  url = [];
  state = [];
  labels = [];
  branch_name = [];
  priority = 0;
  created_at = 0;
  updated_at = 0;
  blocked_by = none;
}

unfoldable pub refreshed_issue : IssueRef → Text → IssueState → Map Issue → Issue
unfolding base_issue
refreshed_issue ref id state active_issues = record (base_issue ref id (lookup id active_issues)) {
  id = id;
  state = state.state;
  labels = state.labels;
  blocked_by = state.blocked_by;
}

unfoldable pub collect_claimed_refresh_outcome :
    IssueRef → IssueState → Map Issue → Observed → Observed
unfolding refreshed_issue
collect_claimed_refresh_outcome ref state active_issues seen =
    let id = trim_space ref.id in
    if is_empty id then seen else elim state.outcome [
      | IssueStateOutcome.absent ↦ record seen { absent = insert id tt seen.absent }
      | IssueStateOutcome.unknown ↦ seen
      | IssueStateOutcome.current ↦
          if is_empty (trim_space state.state) then seen else record seen {
            refreshed = insert id (refreshed_issue ref id state active_issues) seen.refreshed;
          }
    ]

-- A missing row reads as the zero IssueState, which is Unknown.
abbrev pub row_or_zero : Option IssueState → IssueState
row_or_zero none = unknown_row
row_or_zero (some row) = row

-- The loop of refreshRunningIssueStates over the refs.
unfoldable pub collect_refs : List IssueRef → Map IssueState → Map Issue → Observed → Observed
collect_refs [] rows active_issues seen = seen
collect_refs (ref ∷ refs) rows active_issues seen = collect_refs refs rows active_issues (
    collect_claimed_refresh_outcome ref (row_or_zero (lookup (trim_space ref.id) rows))
      active_issues seen)

-- The loop of mergeRefreshedActiveStates.
unfoldable pub merge_refreshed_active_states : TextSet → Map Issue → Map Issue → Map Issue
merge_refreshed_active_states active out [] = out
merge_refreshed_active_states active out ((id, issue) ∷ rest) =
    merge_refreshed_active_states active
      (if is_tracker_state issue.state active
        then elim (lookup id out) [
          | none ↦ out
          | some existing ↦ insert id (patch_tracker_issue_state existing issue) out
        ]
        else delete id out)
      rest

unfoldable pub non_empty_state_list : List Text → List Text
non_empty_state_list [] = []
non_empty_state_list (state ∷ rest) =
    let out = non_empty_state_list rest in if is_empty (trim_space state) then out else state ∷ out

unfoldable pub is_configured_inactive_state : ReconciliationConfig → Text → Bool
is_configured_inactive_state cfg state =
    is_tracker_state state (normalized_states (cfg.terminal_states ++ cfg.inactive_states))

unfoldable pub refreshed_issue_is_inactive : ReconciliationConfig → TextSet → Issue → Bool
refreshed_issue_is_inactive cfg active issue =
    if is_tracker_state issue.state active
    then not (issue_has_required_labels issue cfg.required_labels)
    else is_configured_inactive_state cfg issue.state

-- issueMapIDSet.
unfoldable pub id_set : Map Issue → TextSet
id_set [] = []
id_set ((id, issue) ∷ rest) = let out = id_set rest in if is_empty id then out else insert id tt out

-- The loop of deriveInactiveIssues: the sets `active_by_id` and `inactive_by_id`.
unfoldable pub split_refreshed :
    ReconciliationConfig → TextSet → Map Issue → TextSet × Map Issue → TextSet × Map Issue
split_refreshed cfg active [] seen = seen
split_refreshed cfg active ((id, issue) ∷ rest) (active_by_id, inactive_by_id) =
    split_refreshed cfg active rest (
      if not (refreshed_issue_is_inactive cfg active issue)
      then (active_by_id, inactive_by_id)
      else (delete id active_by_id, insert id issue inactive_by_id))

unfoldable pub add_inactive_listed_issues : Map Issue → TextSet → List Issue → Map Issue
add_inactive_listed_issues inactive active_by_id [] = inactive
add_inactive_listed_issues inactive active_by_id (issue ∷ rest) =
    add_inactive_listed_issues
      (if is_empty issue.id || has issue.id active_by_id
        then inactive
        else insert issue.id issue inactive)
      active_by_id rest

unfoldable pub reconcile_inactive_state_groups : ReconciliationConfig → List (List Text)
reconcile_inactive_state_groups cfg =
    group (non_empty_state_list cfg.terminal_states)
    ++ group (non_empty_state_list cfg.inactive_states)
  where
    group : List Text → List (List Text)
    group [] = []
    group (state ∷ states) = (state ∷ states) ∷ []

-- A listing by states: the issues, or a failure.
abbrev pub StateLister : Type 0
StateLister = List Text → Option (List Issue)

-- The loop of appendInactiveFromStateGroups; a group that fails is left out, and the failure kept.
unfoldable pub append_inactive_from_groups :
    StateLister → TextSet → List (List Text) → Map Issue → Map Issue × Bool
append_inactive_from_groups list active_by_id [] inactive = (inactive, false)
append_inactive_from_groups list active_by_id (states ∷ groups) inactive = elim (list states) [
  | none ↦
      let (out, failed) = append_inactive_from_groups list active_by_id groups inactive in
      (out, true)
  | some issues ↦
      append_inactive_from_groups list active_by_id groups
        (add_inactive_listed_issues inactive active_by_id issues)
]

unfoldable pub derive_inactive_issues :
    ReconciliationConfig → StateLister → Map Issue → Map Issue → TextSet → Map Issue × Bool
derive_inactive_issues cfg list active_issues refreshed active =
    let (active_by_id, inactive) =
      split_refreshed cfg active refreshed (id_set active_issues, []) in
    append_inactive_from_groups list active_by_id (reconcile_inactive_state_groups cfg) inactive
