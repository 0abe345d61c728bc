-- ===== src/Orchestrator/Poller/Tick.antt =====
-- internal/orchestrator/poller.go: PollOnce. `S` is the state around the poller, the actor's and the
-- tracker's; what the tick asks of them is the record `Calls`, whose functions answer and say whether
-- they failed. An error is the phase that it comes from.
pub mod Guards
use aiops_platform.Common.{
  Bool, true, false, not, ◌&&◌, Option, none, some, List, [], ◌∷◌, ◌++◌, Text, is_empty,
  if◌then◌else◌,
}
use aiops_platform.Common.Map.{Map, TextSet}
use aiops_platform.Tracker.{Issue}
use aiops_platform.Orchestrator.Poller.Revalidate.{ReconciliationConfig, Refresher}
use aiops_platform.Orchestrator.Poller.Selection.{listed_candidates, revalidate_dispatch_candidates}

pub data PollError : Type 0 where
  no_tracker no_orchestrator budget reconciliation preflight preflight_event : PollError
  listing refresh revalidation : PollError
  dispatch : Text → PollError

-- What RequestDispatchAfterTrackerRecheck returns: nil, ErrNotDispatched, ErrCapacityFull, or
-- another error.
pub data Answer : Type 0 where
  dispatched not_dispatched capacity_full failed : Answer

pub record TickReconciliation : Type 0 where
  pub inactive : Map Issue
  pub refreshed : Map Issue

pub record Calls (S : Type 0) : Type 0 where
  pub reconcile_budget_exceeded_runs : S → S × Bool
  pub context_has_ended : S → Bool
  pub reconcile_claimed_tick : S → S × TickReconciliation × Bool
  pub preflight_passes : S → Bool
  pub record_preflight_failed : S → S × Bool
  pub list_active_issues : S → S × List Issue × Bool
  pub refresh_listed_active_issues : List Issue → Map Issue → S → S × Bool
  pub dispatch_claimable_issue_ids : S → List Text → Option TextSet
  pub refresher : Option Refresher
  pub request_dispatch : Issue → S → S × Answer

-- A nil tracker or orchestrator, and an unset `preflight`, are false.
pub record Poller : Type 0 where
  pub has_tracker : Bool
  pub has_orchestrator : Bool
  pub overflow : List Issue
  pub reconcile : ReconciliationConfig
  pub reconcile_known : Bool
  pub has_preflight : Bool

abbrev pub error_if : Bool → PollError → List PollError
error_if true e = e ∷ []
error_if false e = []

abbrev pub is_nonempty : List Issue → Bool
is_nonempty [] = false
is_nonempty (issue ∷ rest) = true

module _ {S : Type 0} (calls : Calls S) where
  -- The state and the errors so far.
  abbrev pub Outcome : Type 0
  Outcome = S × List PollError

  -- What one answer leaves: the overflow, and the errors.
  abbrev pub answered : Issue → Answer → List Issue × List PollError → List Issue × List PollError
  answered issue dispatched (overflow, errors) = (overflow, errors)
  answered issue not_dispatched (overflow, errors) = (overflow, errors)
  answered issue capacity_full (overflow, errors) = (issue ∷ overflow, errors)
  answered issue failed (overflow, errors) = (overflow, dispatch issue.id ∷ errors)

  -- The loop over the candidates; an issue without an id is passed over.
  unfoldable pub dispatch_candidates : List Issue → S → S × (List Issue × List PollError)
  dispatch_candidates [] s = (s, ([], []))
  dispatch_candidates (issue ∷ rest) s =
      let (t, answer) = calls.request_dispatch issue s in
      let skipped = dispatch_candidates rest s in
      let (u, later) = dispatch_candidates rest t in
      if is_empty issue.id then skipped else (u, answered issue answer later)

  -- From the merged listing on.
  unfoldable pub dispatch_listed :
      Poller → TickReconciliation → List Issue → Outcome → Poller × Outcome
  dispatch_listed p seen issues (s, errors) =
      let candidates = listed_candidates p.reconcile p.overflow issues seen.inactive in
      let (kept, failing) =
        revalidate_dispatch_candidates p.reconcile calls.refresher
          (calls.dispatch_claimable_issue_ids s) candidates in
      let (t, (overflow, dispatch_errors)) = dispatch_candidates kept s in
      (
        record p { overflow = overflow },
        (t, errors ++ error_if failing revalidation ++ dispatch_errors),
      )

  -- The refresh of the listed issues, and the guard on an empty listing that failed.
  unfoldable pub poll_listing :
      Poller → TickReconciliation → List Issue → Bool → Outcome → Poller × Outcome
  poll_listing p seen issues failing (s, errors) =
      let listed = errors ++ error_if failing listing in
      let refreshes = p.reconcile_known && is_nonempty issues in
      let (refreshed, refresh_failing) =
        calls.refresh_listed_active_issues issues seen.refreshed s in
      let next : Outcome =
        if refreshes
        then (refreshed, listed ++ error_if refresh_failing refresh)
        else (s, listed) in
      if failing && not (is_nonempty issues) then (p, next) else dispatch_listed p seen issues next

  -- The gate of the preflight, then the listing.
  unfoldable pub poll_preflight : Poller → TickReconciliation → Outcome → Poller × Outcome
  poll_preflight p seen (s, errors) =
      let (noted, note_failing) = calls.record_preflight_failed s in
      let (t, issues, failing) = calls.list_active_issues s in
      if p.has_preflight && not (calls.preflight_passes s)
      then (p, (noted, errors ++ preflight ∷ error_if note_failing preflight_event))
      else poll_listing p seen issues failing (t, errors)

  unfoldable pub poll_reconcile : Poller → Outcome → Poller × Outcome
  poll_reconcile p (s, errors) =
      let (t, seen, failing) = calls.reconcile_claimed_tick s in
      if p.reconcile_known
      then poll_preflight p seen (t, errors ++ error_if failing reconciliation)
      else poll_preflight p (record { inactive = []; refreshed = [] }) (s, errors)

  unfoldable pub poll_once : Poller → S → Poller × Outcome
  poll_once p s =
      let (t, failing) = calls.reconcile_budget_exceeded_runs s in
      if not p.has_tracker
      then (p, (s, no_tracker ∷ []))
      else if not p.has_orchestrator
      then (p, (s, no_orchestrator ∷ []))
      else if failing && calls.context_has_ended t
      then (p, (t, budget ∷ []))
      else poll_reconcile p (t, error_if failing budget)
