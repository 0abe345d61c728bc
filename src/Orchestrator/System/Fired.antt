-- ===== src/Orchestrator/System/Fired.antt =====
-- actor_retry.go: the move of a fired retry at any issue `j`. A fired retry hands its issue to a
-- worker, stays queued, or is released.
use aiops_platform.Orchestrator.System.Moves.{fire_retry-Moved}
use aiops_platform.Common.Map.{delete, has-delete}
use aiops_platform.Orchestrator.System.Exits.{Moved-at}
use aiops_platform.Orchestrator.System.Moves.{release_claim-Moved}
use aiops_platform.Orchestrator.Transitions.{release_claim}
use aiops_platform.Orchestrator.Recent.{record_event}
use aiops_platform.Orchestrator.OperatorStop.{record_operator_terminal_dispatch_suppressed}
use aiops_platform.Common.{
  Bool, ◌∙◌, text_eq, Option, Option-cases, none, some, inr, ap, ◌≡◌, Text, ℕ, true, none, some,
  refl, arith, inl, inr,
}
use aiops_platform.Orchestrator.RetryQueue.{
  log_suppressed_retry, release_absent_retry, suppress_retry_fire, matching_retry_entry,
}
use aiops_platform.Orchestrator.Types.{
  OperatorTerminalStopEntry, RetryKind, RetryEntry, OrchestratorState,
}
use aiops_platform.Orchestrator.Actor.{
  terminal_workspace_for_cleanup, spawn, SpawnRequest, idle, Actor,
}
use aiops_platform.Orchestrator.System.Owners.{
  holdings_of, count_of, pending, Moves, owners, holdings, Held,
}
use aiops_platform.Common.Map.{has}
use aiops_platform.Orchestrator.System.Tables.{latch-tables}
use aiops_platform.Tracker.{Issue}

pub matching-has :
    (s : OrchestratorState) (id : Text) (attempt : ℕ) (kind : RetryKind) (entry : RetryEntry)
    → matching_retry_entry s id attempt kind ≡ some entry
    → has id s.retry_attempts ≡ true
unfolding matching_retry_entry
matching-has s id attempt kind entry e = ground arith

single_owner :
    (id : Text) (s : OrchestratorState)
    → Held id (holdings s)
    → has id s.retry_attempts ≡ true
    → owners id s ≡ 1
single_owner id s held queued = ground (arith, held.single)

release-cong :
    (id : Text) (t u : OrchestratorState)
    → holdings t ≡ holdings u
    → holdings (release_claim id t) ≡ holdings (release_claim id u)
unfolding release_claim
release-cong id t u e = ground (arith, e)

log-holdings :
    (now : ℕ) (id : Text) (t : OrchestratorState) (stop : Option OperatorTerminalStopEntry)
    (first : Bool)
    → holdings (log_suppressed_retry now id (t, stop, first)) ≡ holdings t
unfolding log_suppressed_retry record_event
log-holdings now id t none first = refl
log-holdings now id t (some latch) first = ground arith

counted-holdings :
    (now : ℕ) (id : Text) (issue : Issue) (reason : Text) (s : OrchestratorState)
    → holdings (record_operator_terminal_dispatch_suppressed now id issue reason s).0 ≡ holdings s
unfolding record_operator_terminal_dispatch_suppressed
counted-holdings now id issue reason s = ground arith

suppressed-holdings :
    (now : ℕ) (id : Text) (entry : RetryEntry) (s : OrchestratorState)
    → holdings (suppress_retry_fire now id entry s) ≡ holdings (release_claim id s)
unfolding suppress_retry_fire
suppressed-holdings now id entry s =
    release-cong id _ _ (log-holdings now id _ _ _ ∙ counted-holdings now id entry.issue _ s)

released-holdings :
    (now : ℕ) (id : Text) (entry : RetryEntry) (terminal : Option Text) (s : OrchestratorState)
    → holdings (release_absent_retry now id entry terminal s).0 ≡ holdings (release_claim id s)
unfolding release_absent_retry record_event
released-holdings now id entry none s = refl
released-holdings now id entry (some state) s =
    let issue = record (entry.issue) { state = state } in
    elim (Option-cases (
      terminal_workspace_for_cleanup id entry.identifier entry.workspace.path entry.workspace.root
        state)) [
          | inl e ↦
              rw (e, release_absent_retry)
                (release-cong id _ _ (ap holdings_of (latch-tables now id issue s)))
          | inr (w, e) ↦
              rw (e, release_absent_retry)
                (release-cong id _ _ (ap holdings_of (latch-tables now id issue s)))
        ]

released-free :
    (j : Text) (now : ℕ) (id : Text) (entry : RetryEntry) (terminal : Option Text)
    (s : OrchestratorState)
    → pending j (release_absent_retry now id entry terminal s).1 ≡ 0
unfolding release_absent_retry
released-free j now id entry none s = refl
released-free j now id entry (some state) s = ground arith

-- A release blocks no issue.
release-unparked :
    (j id : Text) (s t : OrchestratorState)
    → holdings t ≡ holdings (release_claim id s)
    → has j t.blocked ≡ true
    → has j s.blocked ≡ true
unfolding release_claim
release-unparked j id s t e h = ground (arith, e, h, has-delete j id s.blocked)

pub suppress-unparked :
    (j id : Text) (now : ℕ) (entry : RetryEntry) (s : OrchestratorState)
    → has j (suppress_retry_fire now id entry s).blocked ≡ true
    → has j s.blocked ≡ true
suppress-unparked j id now entry s =
    release-unparked j id s (suppress_retry_fire now id entry s)
      (suppressed-holdings now id entry s)

pub absent-unparked :
    (j id : Text) (now : ℕ) (entry : RetryEntry) (terminal : Option Text) (s : OrchestratorState)
    → has j (release_absent_retry now id entry terminal s).0.blocked ≡ true
    → has j s.blocked ≡ true
absent-unparked j id now entry terminal s =
    release-unparked j id s (release_absent_retry now id entry terminal s).0
      (released-holdings now id entry terminal s)

module _ (j id : Text) (o : Actor) (now : ℕ) (s : OrchestratorState) (h : Held j (holdings s))
    (held : Held id (holdings s)) where
  pub suppress-Moves :
      (entry : RetryEntry)
      → has id s.retry_attempts ≡ true
      → Moves j s (suppress_retry_fire now id entry s, idle)
  suppress-Moves entry queued = record {
    moved =
        Moved-at j _ _ _ _ _ (suppressed-holdings now id entry s) refl
          (release_claim-Moved j s h id (inl (single_owner id s held queued)));
  }

  -- A retry that the candidates no longer hold gives its issue up.
  pub release-Moves :
      (entry : RetryEntry) (terminal : Option Text)
      → has id s.retry_attempts ≡ true
      → Moves j s (release_absent_retry now id entry terminal s)
  unfolding release_absent_retry
  release-Moves entry terminal queued = record {
    moved =
        Moved-at j _ _ _ _ _ (released-holdings now id entry terminal s)
          (released-free j now id entry terminal s)
          (release_claim-Moved j s h id (inl (single_owner id s held queued)));
  }

  -- Without a free slot the entry stays, and a new schedule replaces it.
  pub spawn-Moves :
      (req : SpawnRequest)
      → req.id ≡ id
      → has id s.retry_attempts ≡ true
      → Moves j s (record s { retry_attempts = delete id s.retry_attempts }, spawn req)
  spawn-Moves req same queued = record {
    moved =
        Moved-at j _ _ _ _ _ refl (ap (λ k. count_of (text_eq k j)) same)
          (fire_retry-Moved j s h id queued);
  }
