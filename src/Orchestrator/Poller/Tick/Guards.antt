-- ===== src/Orchestrator/Poller/Tick/Guards.antt =====
-- A tick that fails its preflight or reads no listing dispatches nothing.
use aiops_platform.Common.{
  ◌≡◌, refl, Bool, true, false, not, ◌&&◌, ◌++◌, List, [], ◌∷◌, ◌⊎◌, inl, inr, if◌then◌else◌,
  if_intro, Bool-cases, arith,
}
use aiops_platform.Tracker.{Issue}
use aiops_platform.Orchestrator.Poller.Tick.{
  Calls, Poller, Answer, Outcome, PollError, no_tracker, no_orchestrator, budget, error_if, listing,
  preflight, is_nonempty, TickReconciliation, poll_listing, poll_preflight, poll_reconcile,
  poll_once,
}

abbrev pub is_reported : List PollError → Bool
is_reported [] = false
is_reported (e ∷ errors) = true

is_reported_cons : (l m : List PollError) (e : PollError) → is_reported (l ++ e ∷ m) ≡ true
is_reported_cons [] m e = refl
is_reported_cons (x ∷ l) m e = refl

is_reported-append : (l m : List PollError) → is_reported l ≡ true → is_reported (l ++ m) ≡ true
is_reported-append [] m h = cc
is_reported-append (x ∷ l) m h = refl

-- What stops a tick behind its reconciliation: the preflight fails, or the listing fails and shows
-- no issue.
pub record IsHeldBack {S : Type 0} (calls : Calls S) (p : Poller) : Type 0 where
  pub stopped :
      ((p.has_preflight ≡ true) × ((t : S) → calls.preflight_passes t ≡ false))
      ⊎ ((t : S)
          → (is_nonempty (calls.list_active_issues t).1 ≡ false)
            × ((calls.list_active_issues t).2 ≡ true))

module _ {S : Type 0} (calls : Calls S) (request : Issue → S → S × Answer) where
  -- The same tick with another answer to every request.
  abbrev other : Calls S
  other = record calls { request_dispatch = request }

  -- An error, no request, and what waited for a slot still waits.
  pub record HoldsBack (p : Poller) (mine theirs : Poller × Outcome calls) : Type 0 where
    pub undispatched : theirs ≡ mine
    pub waits : mine.0.overflow ≡ p.overflow
    pub reports : is_reported mine.1.1 ≡ true

  held :
      (p : Poller) (now : Outcome calls) → is_reported now.1 ≡ true → HoldsBack p (p, now) (p, now)
  held p now h = record { undispatched = refl; waits = refl; reports = h }

  listing_fails :
      (p : Poller) (seen : TickReconciliation) (now : Outcome calls) (issues : List Issue)
      (failing : Bool)
      → is_nonempty issues ≡ false
      → failing ≡ true
      → HoldsBack p
          (poll_listing calls p seen issues failing now)
          (poll_listing other p seen issues failing now)
  unfolding poll_listing
  listing_fails p seen now [] true h e = held p _ (
      if_intro (λ (o : Outcome calls). is_reported o.1 ≡ true) (p.reconcile_known && false)
        (is_reported-append _ _ (is_reported_cons now.1 [] listing))
        (is_reported_cons now.1 [] listing))
  listing_fails p seen now [] false h e = cc
  listing_fails p seen now (issue ∷ rest) failing h e = cc

  preflight_holds :
      (p : Poller) (seen : TickReconciliation) (now : Outcome calls)
      → IsHeldBack calls p
      → HoldsBack p (poll_preflight calls p seen now) (poll_preflight other p seen now)
  unfolding poll_preflight
  preflight_holds p seen now blocked =
      elim (Bool-cases (p.has_preflight && not (calls.preflight_passes now.0))) [
        | inl e ↦ rw e (held p _ (is_reported_cons now.1 _ preflight))
        | inr e ↦
            let l = calls.list_active_issues now.0 in
            rw e (elim blocked.stopped [
              | inl (h, g) ↦ absurd (ground (arith, h, g now.0, e))
              | inr f ↦ listing_fails p seen (l.0, now.1) l.1 l.2 (f now.0).0 (f now.0).1
            ])
      ]

  either :
      (p : Poller) {x y x' y' : Poller × Outcome calls} (b : Bool)
      → HoldsBack p x x'
      → HoldsBack p y y'
      → HoldsBack p (if b then x else y) (if b then x' else y')
  either p true h k = h
  either p false h k = k

  reconcile_holds :
      (p : Poller) (now : Outcome calls)
      → IsHeldBack calls p
      → HoldsBack p (poll_reconcile calls p now) (poll_reconcile other p now)
  unfolding poll_reconcile
  reconcile_holds p now blocked =
      either p p.reconcile_known (preflight_holds p _ _ blocked) (preflight_holds p _ _ blocked)

  -- A tick whose preflight fails, or whose listing fails with no issue, requests no dispatch, keeps
  -- the candidates that wait for a slot, and returns an error.
  pub poll_once-HoldsBack :
      (p : Poller) (s : S)
      → IsHeldBack calls p
      → HoldsBack p (poll_once calls p s) (poll_once other p s)
  unfolding poll_once
  poll_once-HoldsBack p s blocked =
      let (t, failing) = calls.reconcile_budget_exceeded_runs s in
      either p (not p.has_tracker) (held p (s, no_tracker ∷ []) refl) (
        either p (not p.has_orchestrator) (held p (s, no_orchestrator ∷ []) refl) (
          either p (failing && calls.context_has_ended t) (held p (t, budget ∷ []) refl)
            (reconcile_holds p (t, error_if failing budget) blocked)))
