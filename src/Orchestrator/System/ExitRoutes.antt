-- ===== src/Orchestrator/System/ExitRoutes.antt =====
-- actor_finalize.go: the ways that an exit takes, seen from an issue `j`: the run is dropped, queued again
-- or blocked.
use aiops_platform.Common.{
  Bool, true, false, ◌≡◌, refl, ap, ◌∙◌, inl, inr, Text, text_eq, text_eq_refl, ℕ, ℤ, arith,
  Bool-cases,
}
use aiops_platform.Common.Map.{has, delete, has-insert, has-delete}
use aiops_platform.Tracker.{Issue}
use aiops_platform.Orchestrator.Types.{OrchestratorState}
use aiops_platform.Orchestrator.Transitions.{is_current, drop_run, claim}
use aiops_platform.Orchestrator.Block.{block_run_with_reason, blocked_run, or_now}
use aiops_platform.Orchestrator.Usage.{count_seconds}
use aiops_platform.Orchestrator.Actor.{Followup, idle, close_done, update_run}
use aiops_platform.Orchestrator.Finalize.Ops.{FinalizeOp, close_with, followup_if}
use aiops_platform.Orchestrator.System.Owners.{Holdings, holdings, count_of, pending}
use aiops_platform.Orchestrator.System.Endings.{Ends}
use aiops_platform.Orchestrator.System.Exits.{Logs, claim-cong}
use aiops_platform.Orchestrator.System.Routes.{blocked-made, blocked-stale}

-- The issue `j` stands in the same tables.
pub record SameAt (j : Text) (s t : Holdings) : Type 0 where
  pub runs : has j t.running ≡ has j s.running
  pub queues : has j t.retry_attempts ≡ has j s.retry_attempts
  pub blocks : has j t.blocked ≡ has j s.blocked
  pub claims : has j t.claimed ≡ has j s.claimed
  pub cleans : has j t.cleaning_workspaces ≡ has j s.cleaning_workspaces

SameAt-refl : (j : Text) (s : Holdings) → SameAt j s s
SameAt-refl j s = record { runs = refl; queues = refl; blocks = refl; claims = refl; cleans = refl }

-- The way of an exit from `s` to `t`: `current` says that the run is the current one of its issue, `frees`
-- that the claim may be dropped, and `p` counts what the followup holds of `j`.
pub record Route (j id : Text) (current frees : Bool) (s t : Holdings) (p : ℕ) : Type 0 where
  pub others : text_eq id j ≡ false → SameAt j s t × (p ≡ 0)
  pub stale : current ≡ false → SameAt j s t × (p ≡ 0)
  pub left : current ≡ true → has id t.running ≡ false
  pub kept : current ≡ true → frees ≡ false → has id t.claimed ≡ true

Route-at :
    {j id : Text} {current frees : Bool} {s : Holdings} (t u : Holdings) (p q : ℕ)
    → t ≡ u
    → p ≡ q
    → Route j id current frees s u q
    → Route j id current frees s t p
Route-at t u p q e e' r = rw (e, e') r

Route-stale : (j id : Text) (frees : Bool) (s : Holdings) → Route j id false frees s s 0
Route-stale j id frees s = record {
  others = λ differs. (SameAt-refl j s, refl);
  stale = λ other. (SameAt-refl j s, refl);
  left = λ k. cc;
  kept = λ k l. cc;
}

module _ (j id : Text) (s : OrchestratorState) where
  dropped-Route : Route j id true true (holdings s) (holdings (drop_run id s)) 0
  unfolding drop_run
  dropped-Route =
      let gone = has-delete id id s.running in
      let apart = has-delete j id s.running in
      let unclaimed = has-delete j id s.claimed in
      record {
        others = λ differs. (
          record {
            runs = ground (arith, apart, differs);
            queues = refl;
            blocks = refl;
            claims = ground (arith, unclaimed, differs);
            cleans = refl;
          },
          refl,
        );
        stale = λ k. cc;
        left = λ k. ground (arith, gone, text_eq_refl id);
        kept = λ k l. cc;
      }

  requeued-Route :
      (frees : Bool) (issue : Issue)
      → Route j id true frees
          (holdings s)
          (holdings (claim id issue (drop_run id s)))
          (count_of (text_eq id j))
  unfolding drop_run claim
  requeued-Route frees issue =
      let gone = has-delete id id s.running in
      let apart = has-delete j id s.running in
      let unclaimed = has-delete j id s.claimed in
      let claims = has-insert j id tt (delete id s.claimed) in
      record {
        others = λ differs. (
          record {
            runs = ground (arith, apart, differs);
            queues = refl;
            blocks = refl;
            claims = ground (arith, unclaimed, claims, differs);
            cleans = refl;
          },
          ground (arith, differs),
        );
        stale = λ k. cc;
        left = λ k. ground (arith, gone, text_eq_refl id);
        kept = λ k l. ground (arith, has-insert id id tt (delete id s.claimed), text_eq_refl id);
      }

  blocked_run-Route :
      (frees : Bool) (now run blocked_at : ℕ) (method run_err : Text) (elapsed : ℤ)
      → is_current id run s ≡ true
      → Route j id true frees
          (holdings s)
          (holdings (block_run_with_reason now id run blocked_at method run_err elapsed s).0)
          0
  unfolding block_run_with_reason count_seconds claim
  blocked_run-Route frees now run blocked_at method run_err elapsed current =
      let b = blocked_run (s.runs run) (or_now now blocked_at) method run_err elapsed in
      let gone = has-delete id id s.running in
      let apart = has-delete j id s.running in
      let claims = has-insert j id tt s.claimed in
      let own = has-insert id id tt s.claimed in
      let queues = has-delete j id s.retry_attempts in
      let blocks = has-insert j id b s.blocked in
      rw current (record {
        others = λ differs. (
          record {
            runs = ground (arith, apart, differs);
            queues = ground (arith, queues, differs);
            blocks = ground (arith, blocks, differs);
            claims = ground (arith, claims, differs);
            cleans = refl;
          },
          refl,
        );
        stale = λ k. cc;
        left = λ k. ground (arith, gone, text_eq_refl id);
        kept = λ k l. ground (arith, own, text_eq_refl id);
      })

module _ (j : Text) (f : FinalizeOp) (s : OrchestratorState) where
  -- The way that an operation takes for the exit `f`.
  pub record Leaves (frees : Bool) (t : OrchestratorState × Followup) : Type 0 where
    pub route :
        Route j f.id (is_current f.id f.entry s) frees (holdings s) (holdings t.0) (pending j t.1)

  pub closed-Leaves :
      (p : OrchestratorState × Bool) (after : OrchestratorState → OrchestratorState) (fu : Followup)
      → Ends f.id f.entry s p
      → Logs after
      → pending j fu ≡ 0
      → Leaves true (close_with f p after, followup_if p fu)
  unfolding close_with followup_if close_done update_run
  closed-Leaves p after fu ends logs free = elim (Bool-cases (is_current f.id f.entry s)) [
    | inl current ↦ record {
      route =
          rw (current, ends.made ∙ current)
            (Route-at _ _ _ _ (logs p.0 ∙ ends.dropped current) free (dropped-Route j f.id s));
    }
    | inr other ↦ record {
      route =
          rw (other, ends.made ∙ other)
            (Route-at _ _ _ _ (ends.stale other) refl (Route-stale j f.id true (holdings s)));
    }
  ]

  pub requeued-Leaves :
      (frees : Bool) (p : OrchestratorState × Bool) (after : OrchestratorState → OrchestratorState)
      (fu : Followup) (issue : Issue)
      → Ends f.id f.entry s p
      → ((t : OrchestratorState) → holdings (after t) ≡ holdings (claim f.id issue t))
      → (is_current f.id f.entry s ≡ true → pending j fu ≡ count_of (text_eq f.id j))
      → Leaves frees (close_with f p after, followup_if p fu)
  unfolding close_with followup_if close_done update_run
  requeued-Leaves frees p after fu issue ends claims held =
      elim (Bool-cases (is_current f.id f.entry s)) [
        | inl current ↦ record {
          route =
              rw (current, ends.made ∙ current)
                (Route-at _ _ _ _ (claims p.0 ∙ claim-cong f.id issue _ _ (ends.dropped current))
                  (held current) (requeued-Route j f.id s frees issue));
        }
        | inr other ↦ record {
          route =
              rw (other, ends.made ∙ other)
                (Route-at _ _ _ _ (ends.stale other) refl (Route-stale j f.id frees (holdings s)));
        }
      ]

  pub blocked-Leaves :
      (frees : Bool) (now blocked_at : ℕ) (method run_err : Text) (elapsed : ℤ)
      (after : OrchestratorState → OrchestratorState)
      → Logs after
      → Leaves frees (
        close_with f
            (block_run_with_reason now f.id f.entry blocked_at method run_err elapsed s)
            after,
        idle,
      )
  unfolding close_with close_done update_run
  blocked-Leaves frees now blocked_at method run_err elapsed after logs =
      let p = block_run_with_reason now f.id f.entry blocked_at method run_err elapsed s in
      let made = blocked-made now f.id f.entry blocked_at method run_err elapsed s in
      elim (Bool-cases (is_current f.id f.entry s)) [
        | inl current ↦ record {
          route =
              rw (current, made ∙ current)
                (Route-at _ _ _ _ (logs p.0) refl (
                  blocked_run-Route j f.id s frees now f.entry blocked_at method run_err elapsed
                    current));
        }
        | inr other ↦ record {
          route =
              rw (other, made ∙ other)
                (Route-at _ _ _ _
                  (ap holdings
                    (blocked-stale now f.id f.entry blocked_at method run_err elapsed s other))
                  refl (Route-stale j f.id frees (holdings s)));
        }
      ]
