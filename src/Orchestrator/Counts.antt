-- ===== src/Orchestrator/Counts.antt =====
-- state.go, the claim check and the concurrency counts: IsClaimed, runningIssueIDs, RunningCount,
-- RunningCountByStateExcluding and the capacity tests.
pub mod Members
pub mod Sizes
use aiops_platform.Common.{
  pos_part, ℕ, suc, List, [], ◌∷◌, Bool, true, false, Option, none, some, ◌||◌, ◌==◌, Text, text_eq,
  is_empty, leb, length, if◌then◌else◌,
}
use aiops_platform.Common.Map.{Map, TextSet, lookup, has, insert, delete, keys}
use aiops_platform.Tracker.{Issue}
use aiops_platform.Workflow.{is_at_most_zero, normalize_state_concurrency_key}
use aiops_platform.Orchestrator.Types.{OrchestratorState}

unfoldable pub is_claimed : Text → OrchestratorState → Bool
is_claimed id s =
    has id s.claimed || has id s.running || has id s.blocked || has id s.retry_attempts

-- `for id := range m { counted[id] = struct{}{} }` and `for id := range m { delete(counted, id) }`.
unfoldable pub add_ids : List Text → TextSet → TextSet
add_ids [] counted = counted
add_ids (id ∷ ids) counted = add_ids ids (insert id tt counted)

unfoldable pub delete_ids : List Text → TextSet → TextSet
delete_ids [] counted = counted
delete_ids (id ∷ ids) counted = delete_ids ids (delete id counted)

unfoldable pub running_issue_ids : OrchestratorState → TextSet
running_issue_ids s =
    let reserved = add_ids (keys s.claimed) (add_ids (keys s.running) []) in
    delete_ids (keys s.blocked) (delete_ids (keys s.retry_attempts) reserved)

unfoldable pub running_count : OrchestratorState → ℕ
running_count s = length (running_issue_ids s)

-- The state under which an id is counted: its run's, or else its claim's.
unfoldable pub counted_state : OrchestratorState → Text → Option Text
counted_state s id = elim (lookup id s.running) [
  | some run ↦ some (s.runs run).issue.state
  | none ↦ elim (lookup id s.claimed_issues) [ some issue ↦ some issue.state | none ↦ none ]
]

unfoldable pub is_counted : OrchestratorState → Text → Text → Bool
is_counted s state_key id = elim (counted_state s id) [
  | some state ↦ text_eq (normalize_state_concurrency_key state) state_key
  | none ↦ false
]

unfoldable pub count_state : OrchestratorState → Text → List Text → ℕ
count_state s state_key [] = 0
count_state s state_key (id ∷ ids) =
    let rest = count_state s state_key ids in if is_counted s state_key id then suc rest else rest

unfoldable pub running_count_by_state_excluding : OrchestratorState → Text → Text → ℕ
running_count_by_state_excluding s state excluded =
    let state_key = normalize_state_concurrency_key state in
    let counted = running_issue_ids s in
    let kept = if is_empty excluded then counted else delete excluded counted in
    if is_empty state_key then 0 else count_state s state_key (keys kept)

-- A limit of zero or less, or none at all, leaves the state uncapped.
unfoldable pub state_capacity_full_excluding : OrchestratorState → Text → Text → Bool
state_capacity_full_excluding s state excluded =
    elim (lookup (normalize_state_concurrency_key state) s.max_concurrent_agents_by_state) [
      | none ↦ false
      | some limit ↦
          if is_at_most_zero limit
          then false
          else leb (pos_part limit) (running_count_by_state_excluding s state excluded)
    ]

unfoldable pub state_capacity_full : OrchestratorState → Text → Bool
state_capacity_full s state = state_capacity_full_excluding s state []
