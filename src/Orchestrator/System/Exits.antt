-- ===== src/Orchestrator/System/Exits.antt =====
-- actor_finalize.go: the move that each route of a worker's exit makes at any issue `j`. A claim goes
-- from the run to a blocked entry or to the retry that is to be scheduled, or is dropped.
use aiops_platform.Common.{
  Bool-cases, ◌∙◌, refl, text_eq, Bool, arith, true, ◌≡◌, Text, ℕ, inl, inr,
}
use aiops_platform.Orchestrator.Finalize.Ops.{followup_if, close_with, FinalizeOp}
use aiops_platform.Orchestrator.Types.{OrchestratorState}
use aiops_platform.Orchestrator.Transitions.{is_current, claim}
use aiops_platform.Orchestrator.System.Owners.{
  Moved-refl, count_of, pending, Moved, Held, holdings, Holdings,
}
use aiops_platform.Tracker.{Issue}
use aiops_platform.Orchestrator.Actor.{update_run, close_done, Followup}
use aiops_platform.Orchestrator.System.Endings.{Ends}
use aiops_platform.Orchestrator.System.Moves.{is_current-has, requeue-Moved, drop_run-Moved}

-- The pointer of an exit is the run of its own issue.
pub record IsKeyed (f : FinalizeOp) (s : OrchestratorState) : Type 0 where
  pub keyed : is_current f.id f.entry s ≡ true → (s.runs f.entry).issue.id ≡ f.id

pub Moved-at :
    (j : Text) (s t u : Holdings) (p q : ℕ) → t ≡ u → p ≡ q → Moved j s u q → Moved j s t p
Moved-at j s t u p q e e' m = rw (e, e') m

-- What a handler logs leaves the tables alone.
abbrev pub Logs : (OrchestratorState → OrchestratorState) → Type 0
Logs after = (t : OrchestratorState) → holdings (after t) ≡ holdings t

pub claim-cong :
    (id : Text) (issue : Issue) (t u : OrchestratorState)
    → holdings t ≡ holdings u
    → holdings (claim id issue t) ≡ holdings (claim id issue u)
unfolding claim
claim-cong id issue t u e = ground (arith, e)

module _ (j : Text) (f : FinalizeOp) (s : OrchestratorState) (h : Held j (holdings s)) where
  pub closed-Moved :
      (p : OrchestratorState × Bool) (after : OrchestratorState → OrchestratorState) (fu : Followup)
      → Ends f.id f.entry s p
      → Logs after
      → pending j fu ≡ 0
      → Moved j (holdings s) (holdings (close_with f p after)) (pending j (followup_if p fu))
  unfolding close_with followup_if close_done update_run
  closed-Moved p after fu ends logs free = elim (Bool-cases (is_current f.id f.entry s)) [
    | inl current ↦ rw (ends.made ∙ current) (
        Moved-at j _ _ _ _ _ (logs p.0 ∙ ends.dropped current) free
          (drop_run-Moved j s h f.id (is_current-has f.id f.entry s current)))
    | inr other ↦
        rw (ends.made ∙ other)
          (Moved-at j _ _ _ _ _ (ends.stale other) refl (Moved-refl j (holdings s) h))
  ]

  pub requeued-Moved :
      (p : OrchestratorState × Bool) (after : OrchestratorState → OrchestratorState) (fu : Followup)
      (issue : Issue)
      → Ends f.id f.entry s p
      → ((t : OrchestratorState) → holdings (after t) ≡ holdings (claim f.id issue t))
      → (is_current f.id f.entry s ≡ true → pending j fu ≡ count_of (text_eq f.id j))
      → Moved j (holdings s) (holdings (close_with f p after)) (pending j (followup_if p fu))
  unfolding close_with followup_if close_done update_run
  requeued-Moved p after fu issue ends claims held = elim (Bool-cases (is_current f.id f.entry s)) [
    | inl current ↦ rw (ends.made ∙ current) (
        Moved-at j _ _ _ _ _ (claims p.0 ∙ claim-cong f.id issue _ _ (ends.dropped current))
          (held current) (requeue-Moved j s h f.id issue (is_current-has f.id f.entry s current)))
    | inr other ↦
        rw (ends.made ∙ other)
          (Moved-at j _ _ _ _ _ (ends.stale other) refl (Moved-refl j (holdings s) h))
  ]
