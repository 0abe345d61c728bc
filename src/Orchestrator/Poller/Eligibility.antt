-- ===== src/Orchestrator/Poller/Eligibility.antt =====
-- internal/orchestrator/poller_candidates.go and poller.go: which listed issues may be dispatched.
use aiops_platform.Common.{
  Bool, true, false, not, ◌&&◌, ◌||◌, List, [], ◌∷◌, Text, is_empty, trim_space, to_lower, codes,
  if◌then◌else◌, text_eq, has_suffix,
}
use aiops_platform.Common.Map.{Map, TextSet, has, insert}
use aiops_platform.Tracker.{Issue, blockers, blocked_by_non_terminal}

unfoldable pub normalized_states_into : TextSet → List Text → TextSet
normalized_states_into out [] = out
normalized_states_into out (state ∷ rest) =
    let key = to_lower (trim_space state) in
    normalized_states_into (if is_empty key then out else insert key tt out) rest

unfoldable pub normalized_states : List Text → TextSet
unfolding normalized_states_into
normalized_states states = normalized_states_into [] states

unfoldable pub todo_workflow_state : Text → Bool
todo_workflow_state state =
    let key = to_lower (trim_space state) in
    text_eq key (codes "todo") || has_suffix key (codes ":todo") || has_suffix key (codes "/todo")

unfoldable pub todo_issue_blocked_by_open_dependency : Issue → TextSet → Bool
unfolding todo_workflow_state
todo_issue_blocked_by_open_dependency issue terminal_states =
    if not (todo_workflow_state issue.state)
    then false
    else blocked_by_non_terminal (blockers issue.blocked_by) terminal_states

-- The loop that fills `have`.
unfoldable pub normalized_labels : TextSet → List Text → TextSet
normalized_labels have [] = have
normalized_labels have (label ∷ rest) =
    normalized_labels (insert (to_lower (trim_space label)) tt have) rest

unfoldable pub has_all : List Text → TextSet → Bool
has_all [] have = true
has_all (label ∷ rest) have =
    if not (has (to_lower (trim_space label)) have) then false else has_all rest have

unfoldable pub labels_satisfy_required : List Text → List Text → Bool
unfolding normalized_labels has_all
labels_satisfy_required labels [] = true
labels_satisfy_required labels (r ∷ rest) = has_all (r ∷ rest) (normalized_labels [] labels)

unfoldable pub issue_has_required_labels : Issue → List Text → Bool
unfolding labels_satisfy_required
issue_has_required_labels issue required = labels_satisfy_required issue.labels required

unfoldable pub issue_has_required_candidate_fields : Issue → Bool
issue_has_required_candidate_fields issue =
    not (is_empty (trim_space issue.id))
    && not (is_empty (trim_space issue.identifier))
    && not (is_empty (trim_space issue.title))
    && not (is_empty (trim_space issue.state))

-- The body of the loop, with `terminal` and the rest of the issues.
unfoldable pub filter_eligible : TextSet → List Text → List Issue → List Issue
unfolding todo_issue_blocked_by_open_dependency issue_has_required_labels
    issue_has_required_candidate_fields
filter_eligible terminal required [] = []
filter_eligible terminal required (issue ∷ rest) =
    let out = filter_eligible terminal required rest in
    if not (issue_has_required_candidate_fields issue)
    then out
    else if todo_issue_blocked_by_open_dependency issue terminal
    then out
    else if not (issue_has_required_labels issue required)
    then out
    else issue ∷ out

unfoldable pub filter_eligible_candidates : List Issue → List Text → List Text → List Issue
unfolding filter_eligible normalized_states
filter_eligible_candidates issues terminal_states required =
    filter_eligible (normalized_states terminal_states) required issues

unfoldable pub not_in_map : Map Issue → List Issue → List Issue
not_in_map excluded [] = []
not_in_map excluded (issue ∷ rest) =
    let out = not_in_map excluded rest in if has issue.id excluded then out else issue ∷ out

unfoldable pub filter_issues_not_in_map : List Issue → Map Issue → List Issue
unfolding not_in_map
filter_issues_not_in_map issues [] = issues
filter_issues_not_in_map issues (e ∷ excluded) = not_in_map (e ∷ excluded) issues
