-- ===== src/Examples/Polls.antt =====
-- A tick of the poller over two issues.
use aiops_platform.Common.{
  trim_space, trim_left, trim_right, to_lower, lower_code, ℕ, ◌+◌, ◌≡◌, refl, true, false, none,
  some, List, [], ◌∷◌, codes, text_eq, contains, inr,
}
use mathlib.Core.Path.{subst}
use aiops_platform.Common.Map.{Map, TextSet, lookup, has}
use aiops_platform.Tracker.{
  Issue, IssueRef, IssueState, IssueStateOutcome, unknown_issue_states_by_refs,
}
use aiops_platform.Orchestrator.Actor.{is_tracker_state}
use aiops_platform.Orchestrator.Poller.Eligibility.{
  labels_satisfy_required, issue_has_required_labels,
}
use aiops_platform.Orchestrator.Poller.Ordering.{sort_candidates}
use aiops_platform.Orchestrator.Poller.Ordering.Sorting.{
  IsStableSortOf, sort_candidates-IsStableSortOf,
}
use aiops_platform.Orchestrator.Poller.Merge.{merge_overflow_candidates}
use aiops_platform.Orchestrator.Poller.Merge.Listing.{
  IsMergeOf, issue_ids, merge_overflow_candidates-IsMergeOf,
}
use aiops_platform.Orchestrator.Poller.Merge.Once.{merge_overflow_candidates-Distinct}
use aiops_platform.Common.{Distinct}
use aiops_platform.Orchestrator.Poller.Revalidate.{
  ReconciliationConfig, Refresher, fetch_issue_states,
}
use aiops_platform.Orchestrator.Poller.Revalidate.Rows.{AnswersFor, fetch_issue_states-AnswersFor}
use aiops_platform.Orchestrator.Poller.Selection.{Claimable}
use aiops_platform.Orchestrator.Poller.Inactive.{
  StateLister, refreshed_issue_is_inactive, derive_inactive_issues,
}
use aiops_platform.Orchestrator.Poller.Inactive.Derived.{IsSpared, derive_inactive_issues-spares}
use aiops_platform.Orchestrator.Poller.Tick.{
  Calls, Poller, Answer, dispatched, capacity_full, poll_once,
}
use aiops_platform.Orchestrator.Poller.Tick.Guards.{HoldsBack, poll_once-HoldsBack}
use aiops_platform.Examples.Data.{issue_a}

abbrev issue_b : Issue
issue_b = record issue_a { id = codes "B"; identifier = codes "OPS-2"; priority = 2 }

abbrev two_issues : List Issue
two_issues = issue_b ∷ issue_a ∷ []

abbrev settings : ReconciliationConfig
settings = record {
  active_states = codes "Todo" ∷ [];
  terminal_states = codes "Done" ∷ [];
  inactive_states = [];
  required_labels = [];
  worker_exit_timeout = 0;
  stall_timeout_ms = 0;
}

abbrev current_row : IssueState
current_row = record {
  outcome = IssueStateOutcome.current;
  state = codes "Todo";
  labels = [];
  blocked_by = none;
}

abbrev rows : Map IssueState
rows = (codes "A", current_row) ∷ []

abbrev fetch : Refresher
fetch refs = (rows, false)

abbrev both : TextSet
both = (codes "A", tt) ∷ (codes "B", tt) ∷ []

abbrev ask : Claimable
ask ids = some both

sort_candidates-IsStableSortOf_example : IsStableSortOf two_issues (sort_candidates two_issues)
sort_candidates-IsStableSortOf_example = sort_candidates-IsStableSortOf two_issues

abbrev IsTodo : Issue → Type 0
IsTodo issue = issue.state ≡ codes "Todo"

merge_overflow_candidates-IsMergeOf_example :
    IsMergeOf IsTodo two_issues (merge_overflow_candidates (issue_a ∷ []) two_issues)
merge_overflow_candidates-IsMergeOf_example =
    merge_overflow_candidates-IsMergeOf IsTodo (issue_a ∷ []) two_issues (refl, (refl, tt))

merge_overflow_candidates-Distinct_example :
    Distinct (issue_ids (merge_overflow_candidates (issue_a ∷ []) two_issues))
unfolding contains text_eq
merge_overflow_candidates-Distinct_example =
    merge_overflow_candidates-Distinct (issue_a ∷ []) two_issues (refl, tt) (refl, (refl, tt))

abbrev two_refs : List IssueRef
two_refs =
    record { id = codes "A"; identifier = codes "OPS-1" }
    ∷ record { id = codes "B"; identifier = codes "OPS-2" }
    ∷ []

fetch_issue_states-AnswersFor_example :
    AnswersFor two_refs
      (fetch (unknown_issue_states_by_refs two_refs).1).0
      (fetch_issue_states (some fetch) two_refs).0
unfolding lookup
fetch_issue_states-AnswersFor_example =
    fetch_issue_states-AnswersFor fetch two_refs λ refs. (refl, tt)

-- A listing that shows issue A as done, against a refresh that shows it active.
abbrev stale : StateLister
stale states = some (issue_a ∷ [])

abbrev active : Map Issue
active = (codes "A", issue_a) ∷ []

abbrev todo : TextSet
todo = (codes "todo", tt) ∷ []

IsSpared-a : IsSpared settings todo active (codes "A")
unfolding lookup text_eq refreshed_issue_is_inactive is_tracker_state labels_satisfy_required
    issue_has_required_labels trim_space trim_left trim_right to_lower lower_code
IsSpared-a = record {
  spared = λ issue e.
      subst (λ i. refreshed_issue_is_inactive settings todo i ≡ false) (same issue e) refl;
}
  where
    same : (issue : Issue) → some issue_a ≡ some issue → issue_a ≡ issue
    same issue e = cc

derive_inactive_issues-spares_example :
    has (codes "A") (derive_inactive_issues settings stale active active todo).0 ≡ false
unfolding lookup text_eq
derive_inactive_issues-spares_example =
    derive_inactive_issues-spares settings stale active active todo (codes "A") refl (refl, tt) refl
      IsSpared-a

-- The tracker is down. The state counts the requests.
abbrev outage : Calls ℕ
outage = record {
  reconcile_budget_exceeded_runs = λ n. (n, false);
  context_has_ended = λ n. false;
  reconcile_claimed_tick = λ n. (n, record { inactive = []; refreshed = [] }, true);
  preflight_passes = λ n. true;
  record_preflight_failed = λ n. (n, false);
  list_active_issues = λ n. (n, [], true);
  refresh_listed_active_issues = λ issues refreshed n. (n, false);
  dispatch_claimable_issue_ids = λ n ids. some both;
  refresher = some fetch;
  request_dispatch = λ issue n. (n + 1, dispatched);
}

abbrev waiting : Poller
waiting = record {
  has_tracker = true;
  has_orchestrator = true;
  overflow = issue_a ∷ [];
  reconcile = settings;
  reconcile_known = true;
  has_preflight = true;
}

abbrev full : Issue → ℕ → ℕ × Answer
full issue n = (n + 1, capacity_full)

poll_once-HoldsBack_example :
    HoldsBack outage full waiting
      (poll_once outage waiting 0)
      (poll_once (record outage { request_dispatch = full }) waiting 0)
poll_once-HoldsBack_example =
    poll_once-HoldsBack outage full waiting 0 (record { stopped = inr λ n. (refl, refl) })
