-- ===== src/Orchestrator/Refresh.antt =====
-- actor_reconcile.go: the operations that bring the issues of running, queued and blocked entries up
-- to date and cancel nothing. A write through a pointer of a map stores the entry in the map again.
use aiops_platform.Common.{
  ℕ, List, [], ◌∷◌, Option, none, some, Text, is_empty, false, if◌then◌else◌,
}
use aiops_platform.Common.Map.{Map, TextSet, lookup, insert}
use aiops_platform.Tracker.{Issue, BlockerRef}
use aiops_platform.Orchestrator.Types.{OrchestratorState, RunningEntry, RetryEntry, BlockedEntry}
use aiops_platform.Orchestrator.Actor.{update_run, is_tracker_state}
use aiops_platform.Orchestrator.Reconcile.{clear_terminal_handoff}
use aiops_platform.Orchestrator.RetryQueue.{store_retry}

unfoldable pub refresh_running_issue : RunningEntry → Issue → RunningEntry
refresh_running_issue run issue = clear_terminal_handoff (record run {
  issue = issue;
  reconcile_cleanup_workspace = false;
  agent_current_issue_handoff = false;
})

abbrev pub known_blockers :
    Option (List BlockerRef) → Option (List BlockerRef) → Option (List BlockerRef)
known_blockers none listed = listed
known_blockers (some refs) listed = some refs

unfoldable pub patch_tracker_issue_state : Issue → Issue → Issue
patch_tracker_issue_state issue narrow = record issue {
  id = if is_empty issue.id then narrow.id else issue.id;
  identifier = if is_empty issue.identifier then narrow.identifier else issue.identifier;
  state = narrow.state;
  labels = narrow.labels;
  blocked_by = known_blockers narrow.blocked_by issue.blocked_by;
}

unfoldable pub active_narrow : Map Issue → TextSet → Text → Option Issue
active_narrow issues active id = elim (lookup id issues) [
  | none ↦ none
  | some issue ↦ if is_tracker_state issue.state active then some issue else none
]

unfoldable pub patch_claimed_issue : Text → Issue → Issue → OrchestratorState → OrchestratorState
patch_claimed_issue id narrow fallback s = elim (lookup id s.claimed_issues) [
  | none ↦ record s { claimed_issues = insert id fallback s.claimed_issues }
  | some claimed ↦ record s {
    claimed_issues = insert id (patch_tracker_issue_state claimed narrow) s.claimed_issues;
  }
]

unfoldable pub store_blocked : Text → BlockedEntry → OrchestratorState → OrchestratorState
store_blocked id entry s = record s { blocked = insert id entry s.blocked }

-- The body of each loop, where the listing shows the issue active.
unfoldable pub patch_run : Issue → Text → ℕ → OrchestratorState → OrchestratorState
patch_run narrow id run s =
    let patched = patch_tracker_issue_state (s.runs run).issue narrow in
    patch_claimed_issue id narrow patched
      (update_run run (refresh_running_issue (s.runs run) patched) s)

unfoldable pub patch_retry : Issue → Text → RetryEntry → OrchestratorState → OrchestratorState
patch_retry narrow id retry s =
    let patched = patch_tracker_issue_state retry.issue narrow in
    patch_claimed_issue id narrow patched (store_retry id (record retry { issue = patched }) s)

unfoldable pub patch_blocked : Issue → Text → BlockedEntry → OrchestratorState → OrchestratorState
patch_blocked narrow id blocked s =
    let patched = patch_tracker_issue_state blocked.issue narrow in
    patch_claimed_issue id narrow patched (store_blocked id (record blocked { issue = patched }) s)

-- RefreshActive writes the whole issue, to the entry and to ClaimedIssues.
unfoldable pub claim_issue : Text → Issue → OrchestratorState → OrchestratorState
claim_issue id issue s = record s { claimed_issues = insert id issue s.claimed_issues }

unfoldable pub refresh_run : Issue → Text → ℕ → OrchestratorState → OrchestratorState
refresh_run issue id run s =
    let claimed = claim_issue id issue s in
    update_run run (refresh_running_issue (s.runs run) issue) claimed

unfoldable pub refresh_retry : Issue → Text → RetryEntry → OrchestratorState → OrchestratorState
refresh_retry issue id retry s =
    store_retry id (record retry { issue = issue }) (claim_issue id issue s)

unfoldable pub refresh_blocked : Issue → Text → BlockedEntry → OrchestratorState → OrchestratorState
refresh_blocked issue id blocked s =
    store_blocked id (record blocked { issue = issue }) (claim_issue id issue s)

-- A loop over the entries of a map; `write` is its body for an issue that is shown active.
unfoldable pub each_active {ℓ} :
    {V : Type ℓ}
    → (Issue → Text → V → OrchestratorState → OrchestratorState)
    → Map Issue
    → TextSet
    → Map V
    → OrchestratorState
    → OrchestratorState
each_active write issues active [] s = s
each_active write issues active ((id, entry) ∷ rest) s =
    each_active write issues active rest
      (elim (active_narrow issues active id) [ none ↦ s | some issue ↦ write issue id entry s ])

-- patchActiveClaimedTrackerIssueStatesOp.apply.
unfoldable pub patch_active_claimed : Map Issue → TextSet → OrchestratorState → OrchestratorState
patch_active_claimed issues active s =
    let t = each_active patch_run issues active s.running s in
    let u = each_active patch_retry issues active t.retry_attempts t in
    each_active patch_blocked issues active u.blocked u

-- refreshActiveTrackerIssuesOp.apply.
unfoldable pub refresh_active : Map Issue → TextSet → OrchestratorState → OrchestratorState
refresh_active issues active s =
    let t = each_active refresh_run issues active s.running s in
    let u = each_active refresh_retry issues active t.retry_attempts t in
    each_active refresh_blocked issues active u.blocked u
