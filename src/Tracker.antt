-- ===== src/Tracker.antt =====
-- internal/tracker/tracker.go: issues, narrow state rows, and the blocker rule. A time is the
-- number of nanoseconds since Go's zero time, so that `IsZero` is `== 0`.
use aiops_platform.Common.{
  ℕ, Bool, true, false, List, [], ◌∷◌, ◌++◌, ◌||◌, Option, none, some, not, Text, is_empty,
  trim_space, to_lower, if◌then◌else◌,
}
use aiops_platform.Common.Map.{Map, TextSet, has, insert}

pub record BlockerRef : Type 0 where
  pub id : Text
  pub identifier : Text
  pub state : Text

-- `blocked_by` is `none` where the Go slice is nil: the adapter knows nothing of blockers. A priority
-- below zero is 0: every use of a priority treats the two alike.
pub record Issue : Type 0 where
  pub id : Text
  pub identifier : Text
  pub title : Text
  pub description : Text
  pub url : Text
  pub state : Text
  pub labels : List Text
  pub branch_name : Text
  pub priority : ℕ
  pub created_at : ℕ
  pub updated_at : ℕ
  pub blocked_by : Option (List BlockerRef)

pub data IssueStateOutcome : Type 0 where
  unknown current absent : IssueStateOutcome

pub record IssueState : Type 0 where
  pub outcome : IssueStateOutcome
  pub state : Text
  pub labels : List Text
  pub blocked_by : Option (List BlockerRef)

-- Ranging over a nil slice.
abbrev pub blockers : Option (List BlockerRef) → List BlockerRef
blockers none = []
blockers (some refs) = refs

-- One turn of the loop of `BlockedByNonTerminal`: does this blocker block?
unfoldable pub is_open_blocker : TextSet → BlockerRef → Bool
is_open_blocker terminal_states blocker =
    let state = to_lower (trim_space blocker.state) in
    if is_empty state then true else not (has state terminal_states)

unfoldable pub blocked_by_non_terminal : List BlockerRef → TextSet → Bool
unfolding is_open_blocker
blocked_by_non_terminal [] terminal_states = false
blocked_by_non_terminal (blocker ∷ rest) terminal_states =
    if is_open_blocker terminal_states blocker
    then true
    else blocked_by_non_terminal rest terminal_states

pub record IssueRef : Type 0 where
  pub id : Text
  pub identifier : Text

abbrev pub unknown_row : IssueState
unknown_row = record {
  outcome = IssueStateOutcome.unknown;
  state = [];
  labels = [];
  blocked_by = none;
}

-- The loop over the refs, with the rows and the refs so far.
unfoldable pub unknown_rows_into :
    Map IssueState → List IssueRef → List IssueRef → Map IssueState × List IssueRef
unknown_rows_into states refs [] = (states, refs)
unknown_rows_into states refs (ref ∷ rest) =
    let id = trim_space ref.id in
    if is_empty id || has id states
    then unknown_rows_into states refs rest
    else unknown_rows_into (insert id unknown_row states) (refs ++ record ref { id = id } ∷ []) rest

unfoldable pub unknown_issue_states_by_refs : List IssueRef → Map IssueState × List IssueRef
unfolding unknown_rows_into
unknown_issue_states_by_refs issue_refs = unknown_rows_into [] [] issue_refs
