-- ===== src/Orchestrator/System/ExitWays.antt =====
-- actor_finalize.go: each route of a worker's exit takes one of the ways of ExitRoutes, and drops the claim
-- of its issue only for a reason.
use aiops_platform.Common.{
  Bool, true, false, ◌≡◌, ◌||◌, ◌&&◌, not, refl, ap, ◌∙◌, inl, inr, none, some, is_some, Option,
  Text, text_eq, ℕ, ℤ, trim_space, is_empty, arith, Bool-cases, if◌then◌else◌, elim_intro, if_intro,
}
use aiops_platform.Orchestrator.Types.{Outcome, OrchestratorState, RuntimeEventKind}
use aiops_platform.Orchestrator.Transitions.{
  is_current, claim, finish_run_failed, finish_run_reconciled_cancelled,
  finish_run_terminal_self_stop, finish_run_aborted,
}
use aiops_platform.Orchestrator.Recent.{record_event}
use aiops_platform.Orchestrator.Block.{block_run}
use aiops_platform.Orchestrator.Actor.{
  Actor, Followup, idle, schedule, ScheduleRequest, event, update_run, latch_operator_terminal_stop,
  reconciled_workspace_cleanup, run_has_completed_turn,
}
use aiops_platform.Orchestrator.Finalize.{apply_exit}
use aiops_platform.Orchestrator.Finalize.Ops.{
  FinalizeOp, IssueStateSnapshot, WorkerError, QuotaBackoff, run_of, is_input_required,
}
use aiops_platform.Orchestrator.Finalize.Blocks.{
  apply_input_required_block, apply_budget_exceeded_block,
}
use aiops_platform.Orchestrator.Finalize.CleanExit.{
  terminal_exit, apply_clean_exit, apply_clean_cleanup, apply_clean_continuation,
  apply_continuation_budget_block, apply_terminal_self_stop,
}
use aiops_platform.Orchestrator.Finalize.AbnormalExit.{
  apply_abnormal_exit, apply_failure_retry, apply_quota_backoff, apply_retry, cancel_reconciled,
}
use aiops_platform.Orchestrator.System.Owners.{Holdings, holdings, count_of, Held}
use aiops_platform.Orchestrator.System.Endings.{finish_run_aborted-Ends, finish_run_succeeded-Ends}
use aiops_platform.Orchestrator.System.Exits.{IsKeyed}
use aiops_platform.Orchestrator.System.Routes.{
  cleanup-free, record_event-Logs, record_reconcile_stop-Logs, finish_clean_continuation-Ends,
}
use aiops_platform.Orchestrator.System.Finalized.{latched-holdings, update_run-holdings}
use aiops_platform.Orchestrator.System.ExitRoutes.{
  Route, Leaves, closed-Leaves, requeued-Leaves, blocked-Leaves,
}

-- An exit may drop the claim of its issue: the worker saw the issue in a terminal state, or a
-- reconciliation has marked the run, for a cleanup of its workspace or as canceled.
unfoldable pub may_free : FinalizeOp → OrchestratorState → Bool
may_free f s =
    is_some (terminal_exit f.result)
    || (run_of f s).reconcile_cleanup_workspace
    || (run_of f s).reconcile_cancel

if_split {ℓ κ} :
    {A : Type ℓ} (P : A → Type κ) (b : Bool) {x y : A}
    → (b ≡ true → P x)
    → (b ≡ false → P y)
    → P (if b then x else y)
if_split P true h k = h refl
if_split P false h k = k refl

option_split {ℓ κ ν} :
    {A : Type ℓ} {B : Type κ} (P : B → Type ν) (o : Option A) {x : B} {g : A → B}
    → (o ≡ none → P x)
    → ((a : A) → o ≡ some a → P (g a))
    → P (elim o [ none ↦ x | some a ↦ g a ])
option_split P none h k = h refl
option_split P (some a) h k = k a refl

current-cong :
    (id : Text) (run : ℕ) (s t : OrchestratorState)
    → holdings t ≡ holdings s
    → is_current id run t ≡ is_current id run s
unfolding is_current
current-cong id run s t e = ground (arith, e)

terminal-frees :
    (f : FinalizeOp) (s : OrchestratorState) (snapshot : IssueStateSnapshot)
    → terminal_exit f.result ≡ some snapshot
    → may_free f s ≡ true
unfolding may_free
terminal-frees f s snapshot e = ground (arith, ap is_some e)

flag-frees :
    (f : FinalizeOp) (s : OrchestratorState)
    → (run_of f s).reconcile_cleanup_workspace ≡ true
    → may_free f s ≡ true
unfolding may_free
flag-frees f s e = ground (arith, e)

cancel-frees :
    (f : FinalizeOp) (s : OrchestratorState)
    → (run_of f s).reconcile_cancel ≡ true
    → may_free f s ≡ true
unfolding may_free
cancel-frees f s e = ground (arith, e)

-- A way from a state with the same holders.
moved_over :
    (f : FinalizeOp) (j : Text) (s w : OrchestratorState)
    → holdings w ≡ holdings s
    → {t : Holdings} {p : ℕ} → Route j f.id (is_current f.id f.entry w) true (holdings w) t p
    → Route j f.id (is_current f.id f.entry s) true (holdings s) t p
moved_over f j s w e r = rw⁻¹ (current-cong f.id f.entry s w e, e) r

module _ (j : Text) (o : Actor) (now : ℕ) (f : FinalizeOp) (elapsed : ℤ) (s : OrchestratorState)
    (h : Held j (holdings s)) where
  abbrev Goes : OrchestratorState × Followup → Type 0
  Goes = Leaves j f s (may_free f s)

  freed : {t : OrchestratorState × Followup} → may_free f s ≡ true → Leaves j f s true t → Goes t
  freed e l = record { route = rw e l.route }

  self_stop-Goes :
      (snapshot : IssueStateSnapshot) (record_stop : Bool)
      → terminal_exit f.result ≡ some snapshot
      → Goes (apply_terminal_self_stop o now f elapsed snapshot record_stop s)
  unfolding apply_terminal_self_stop finish_run_terminal_self_stop reconciled_workspace_cleanup
  self_stop-Goes snapshot record_stop e =
      let run = run_of f s in
      let issue =
        if is_empty (trim_space snapshot.state)
        then run.issue
        else record (run.issue) { state = snapshot.state } in
      let flagged = record run { issue = issue; reconcile_cleanup_workspace = true } in
      let latched = if record_stop then latch_operator_terminal_stop now f.id issue s else s in
      let written = update_run f.entry flagged latched in
      let same =
        update_run-holdings f.entry flagged latched
        ∙ latched-holdings now f.id issue record_stop s in
      let l =
        closed-Leaves j f written
          (finish_run_aborted now f.id f.entry elapsed Outcome.terminal_self_stop written) (λ t. t)
          _ (finish_run_aborted-Ends now f.id f.entry elapsed written Outcome.terminal_self_stop)
          (λ t. refl) (cleanup-free j o f.id flagged none) in
      freed (terminal-frees f s snapshot e)
        (record { route = moved_over f j s written same l.route })

  cleanup-Goes :
      (run_of f s).reconcile_cleanup_workspace ≡ true → Goes (apply_clean_cleanup o now f elapsed s)
  unfolding apply_clean_cleanup
  cleanup-Goes e = freed (flag-frees f s e) (
      closed-Leaves j f s _ _ _ (finish_run_succeeded-Ends now f.id f.entry elapsed s)
        (record_event-Logs now _) (cleanup-free j o f.id _ _))

  cancel-Goes : may_free f s ≡ true → Goes (cancel_reconciled o now f elapsed s)
  unfolding cancel_reconciled finish_run_reconciled_cancelled reconciled_workspace_cleanup
  cancel-Goes e = freed e (
      closed-Leaves j f s _ _ _
        (finish_run_aborted-Ends now f.id f.entry elapsed s Outcome.reconcile_ineligible)
        (record_reconcile_stop-Logs now f _) (cleanup-free j o f.id _ _))

  budget-Goes :
      (turn_count : ℕ) → Goes (apply_continuation_budget_block now f elapsed turn_count s, idle)
  unfolding apply_continuation_budget_block
  budget-Goes turn_count = blocked-Leaves j f s _ now _ _ _ elapsed _ (record_event-Logs now _)

  retry-Goes :
      (run_err : Text) (request : ScheduleRequest)
      → (is_current f.id f.entry s ≡ true → request.issue.id ≡ f.id)
      → Goes (apply_retry now f elapsed run_err request s)
  unfolding apply_retry finish_run_failed record_event claim
  retry-Goes run_err request keyed =
      requeued-Leaves j f s _ _
        (λ t.
          claim f.id (run_of f s).issue
            (record_event now (event RuntimeEventKind.failed f.id f.identifier run_err) t))
        (schedule request) (run_of f s).issue
        (finish_run_aborted-Ends now f.id f.entry elapsed s Outcome.failed) (λ t. refl)
        (λ current. ap (λ id. count_of (text_eq id j)) (keyed current))

  continuation-Goes : IsKeyed f s → Goes (apply_clean_continuation now f elapsed s)
  unfolding apply_clean_continuation
  continuation-Goes keyed =
      requeued-Leaves j f s _ _ (claim f.id (run_of f s).issue) _ (run_of f s).issue
        (finish_clean_continuation-Ends j o now f elapsed s h) (λ t. refl)
        (λ current. ap (λ id. count_of (text_eq id j)) (keyed.keyed current))

  clean_exit-Goes : IsKeyed f s → Goes (apply_clean_exit o now f elapsed s)
  unfolding apply_clean_exit
  clean_exit-Goes keyed =
      option_split Goes (terminal_exit f.result)
        (λ live.
          if_split Goes
            ((run_of f s).reconcile_cleanup_workspace && run_has_completed_turn (run_of f s))
            (λ e. cleanup-Goes (ground (arith, e)))
            (λ e. if_intro Goes _ (budget-Goes _) (continuation-Goes keyed)))
        (λ snapshot e. self_stop-Goes snapshot _ e)

  quota-Goes :
      IsKeyed f s → (quota : QuotaBackoff) → Goes (apply_quota_backoff now f elapsed quota s)
  unfolding apply_quota_backoff
  quota-Goes keyed quota = retry-Goes quota.message _ keyed.keyed

  failure-Goes : IsKeyed f s → (run_err : Text) → Goes (apply_failure_retry now f elapsed run_err s)
  unfolding apply_failure_retry
  failure-Goes keyed run_err = retry-Goes run_err _ keyed.keyed

  abnormal_exit-Goes :
      IsKeyed f s → (err : WorkerError) → Goes (apply_abnormal_exit o now f elapsed err s)
  unfolding apply_abnormal_exit
  abnormal_exit-Goes keyed err =
      if_split Goes _ (λ e. cancel-Goes (flag-frees f s (ground (arith, e))))
        (λ e.
          option_split Goes err.quota
            (λ free.
              if_split Goes _ (λ k. cancel-Goes (cancel-frees f s k))
                (λ k. failure-Goes keyed err.message))
            (λ quota k. quota-Goes keyed quota))

  pub exit-Goes : IsKeyed f s → Goes (apply_exit o now f elapsed s)
  unfolding apply_exit
  exit-Goes keyed = elim_intro Goes f.result.err (clean_exit-Goes keyed) (abnormal_exit-Goes keyed)

  pub input_block-Goes :
      (u : OrchestratorState × Followup)
      → Goes u
      → Goes (elim (apply_input_required_block now f elapsed s) [ none ↦ u | some t ↦ (t, idle) ])
  unfolding apply_input_required_block block_run
  input_block-Goes u m =
      elim (Bool-cases (
        not (run_of f s).input_required
        && not f.result.input_required
        && not (is_input_required f.result.err))) [
          | inl e ↦ rw e m
          | inr e ↦ rw e (blocked-Leaves j f s _ now _ _ _ elapsed _ (record_event-Logs now _))
        ]

  pub budget_block-Goes :
      (u : OrchestratorState × Followup)
      → Goes u
      → Goes (elim (apply_budget_exceeded_block now f elapsed s) [ none ↦ u | some t ↦ (t, idle) ])
  unfolding apply_budget_exceeded_block
  budget_block-Goes u m = elim (Bool-cases (run_of f s).budget_exceeded) [
    | inl e ↦ rw e (blocked-Leaves j f s _ now _ _ _ elapsed (λ t. t) (λ t. refl))
    | inr e ↦ rw e m
  ]
