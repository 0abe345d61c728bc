-- ===== src/Orchestrator/System/Refreshed.antt =====
-- actor_reconcile.go: bringing issues up to date moves no claim.
use aiops_platform.Common.{
  ℕ, Bool, ◌≡◌, refl, ◌∙◌, true, [], ◌∷◌, none, some, Text, text_eq_iff, text_eq_refl, arith,
  elim_intro,
}
use aiops_platform.Common.Map.{Map, TextSet, has, lookup, has-insert}
use aiops_platform.Tracker.{Issue}
use aiops_platform.Orchestrator.Types.{OrchestratorState, RunningEntry, RetryEntry, BlockedEntry}
use aiops_platform.Orchestrator.Actor.{update_run}
use aiops_platform.Orchestrator.RetryQueue.{store_retry}
use aiops_platform.Orchestrator.Refresh.{
  patch_claimed_issue, patch_run, patch_retry, patch_blocked, refresh_run, refresh_retry,
  refresh_blocked, claim_issue, store_blocked, each_active, active_narrow, patch_active_claimed,
  refresh_active,
}
use aiops_platform.Orchestrator.System.Owners.{Holdings, holdings, Held, Moved}

-- The same issues run, are queued, are blocked, are claimed and are cleaned up.
pub record SameHolders (s t : Holdings) : Type 0 where
  pub runs : (j : Text) → has j t.running ≡ has j s.running
  pub queues : (j : Text) → has j t.retry_attempts ≡ has j s.retry_attempts
  pub blocks : (j : Text) → has j t.blocked ≡ has j s.blocked
  pub claims : (j : Text) → has j t.claimed ≡ has j s.claimed
  pub cleans : (j : Text) → has j t.cleaning_workspaces ≡ has j s.cleaning_workspaces

pub SameHolders-refl : (s : Holdings) → SameHolders s s
SameHolders-refl s = record {
  runs = λ j. refl;
  queues = λ j. refl;
  blocks = λ j. refl;
  claims = λ j. refl;
  cleans = λ j. refl;
}

pub SameHolders-trans : (s t u : Holdings) → SameHolders s t → SameHolders t u → SameHolders s u
SameHolders-trans s t u h k = record {
  runs = λ j. k.runs j ∙ h.runs j;
  queues = λ j. k.queues j ∙ h.queues j;
  blocks = λ j. k.blocks j ∙ h.blocks j;
  claims = λ j. k.claims j ∙ h.claims j;
  cleans = λ j. k.cleans j ∙ h.cleans j;
}

pub SameHolders-Moved : (j : Text) (s t : Holdings) → Held j s → SameHolders s t → Moved j s t 0
SameHolders-Moved j s t h k =
    ground (arith, k.runs j, k.queues j, k.blocks j, k.claims j, k.cleans j)

-- What a write to an entry keeps.
pub record Keeps (s t : OrchestratorState) : Type 0 where
  pub kept : SameHolders (holdings s) (holdings t)

patch_claimed-Keeps :
    (id : Text) (narrow fallback : Issue) (s t : OrchestratorState)
    → Keeps s t
    → Keeps s (patch_claimed_issue id narrow fallback t)
unfolding patch_claimed_issue
patch_claimed-Keeps id narrow fallback s t k =
    elim_intro (Keeps s) (lookup id t.claimed_issues) (record { kept = k.kept })
      (λ claimed. record { kept = k.kept })

Keeps-trans : (s t u : OrchestratorState) → Keeps s t → Keeps t u → Keeps s u
Keeps-trans s t u k l = record {
  kept = SameHolders-trans (holdings s) (holdings t) (holdings u) k.kept l.kept;
}

update_run-Keeps :
    (run : ℕ) (entry : RunningEntry) (s t : OrchestratorState)
    → Keeps s t
    → Keeps s (update_run run entry t)
unfolding update_run
update_run-Keeps run entry s t k = record { kept = k.kept }

claim_issue-Keeps :
    (id : Text) (issue : Issue) (s : OrchestratorState) → Keeps s (claim_issue id issue s)
unfolding claim_issue
claim_issue-Keeps id issue s = record { kept = SameHolders-refl (holdings s) }

store_retry-Keeps :
    (id : Text) (entry : RetryEntry) (s t : OrchestratorState)
    → has id s.retry_attempts ≡ true
    → Keeps s t
    → Keeps s (store_retry id entry t)
unfolding store_retry
store_retry-Keeps id entry s t queued k = record {
  kept = record {
    runs = k.kept.runs;
    queues = λ j.
        ground (
          arith,
          text_eq_iff id j,
          has-insert j id entry t.retry_attempts,
          queued,
          k.kept.queues j,
        );
    blocks = k.kept.blocks;
    claims = k.kept.claims;
    cleans = k.kept.cleans;
  };
}

store_blocked-Keeps :
    (id : Text) (entry : BlockedEntry) (s t : OrchestratorState)
    → has id s.blocked ≡ true
    → Keeps s t
    → Keeps s (store_blocked id entry t)
unfolding store_blocked
store_blocked-Keeps id entry s t held k = record {
  kept = record {
    runs = k.kept.runs;
    queues = k.kept.queues;
    blocks = λ j.
        ground (arith, text_eq_iff id j, has-insert j id entry t.blocked, held, k.kept.blocks j);
    claims = k.kept.claims;
    cleans = k.kept.cleans;
  };
}

same : (s : OrchestratorState) → Keeps s s
same s = record { kept = SameHolders-refl (holdings s) }

-- The loop over a table, when the body keeps the holders for an entry of that table.
record IsTable (table : Text → Holdings → Bool) : Type 0 where
  pub stable : (k : Text) (s t : Holdings) → SameHolders s t → table k t ≡ table k s

each_active-Keeps :
    {V : Type 0} (table : Text → Holdings → Bool)
    (write : Issue → Text → V → OrchestratorState → OrchestratorState) (issues : Map Issue)
    (active : TextSet) (entries : Map V) (s : OrchestratorState)
    → IsTable table
    → ((issue : Issue) (id : Text) (entry : V) (t : OrchestratorState)
        → table id (holdings t) ≡ true
        → Keeps t (write issue id entry t))
    → ((k : Text) → has k entries ≡ true → table k (holdings s) ≡ true)
    → Keeps s (each_active write issues active entries s)
unfolding each_active lookup
each_active-Keeps table write issues active [] s is_table body visit = same s
each_active-Keeps table write issues active ((id, entry) ∷ rest) s is_table body visit =
    let head = visit id (ground (arith, text_eq_refl id)) in
    let t : OrchestratorState = elim (active_narrow issues active id) [
      | none ↦ s
      | some issue ↦ write issue id entry s
    ] in
    let first =
      elim_intro (Keeps s) (active_narrow issues active id) (same s)
        (λ issue. body issue id entry s head) in
    Keeps-trans s t _ first (
      each_active-Keeps table write issues active rest t is_table body
        λ k h. is_table.stable k (holdings s) (holdings t) first.kept ∙ visit k (ground (arith, h)))

runs-IsTable : IsTable (λ k t. has k t.running)
runs-IsTable = record { stable = λ k s t h. h.runs k }

retries-IsTable : IsTable (λ k t. has k t.retry_attempts)
retries-IsTable = record { stable = λ k s t h. h.queues k }

blocked-IsTable : IsTable (λ k t. has k t.blocked)
blocked-IsTable = record { stable = λ k s t h. h.blocks k }

-- Patching the state, labels and blockers of the active issues keeps every issue where it is.
pub patch_active_claimed-Keeps :
    (issues : Map Issue) (active : TextSet) (s : OrchestratorState)
    → Keeps s (patch_active_claimed issues active s)
unfolding patch_active_claimed patch_run patch_retry patch_blocked
patch_active_claimed-Keeps issues active s =
    let t = each_active patch_run issues active s.running s in
    let u = each_active patch_retry issues active t.retry_attempts t in
    let w =
      each_active-Keeps (λ k h. has k h.running) patch_run issues active s.running s runs-IsTable
        (λ issue id run x h.
          patch_claimed-Keeps id issue _ x _ (update_run-Keeps run _ x x (same x)))
        (λ k h. h) in
    let x =
      each_active-Keeps (λ k h. has k h.retry_attempts) patch_retry issues active t.retry_attempts t
        retries-IsTable
        (λ issue id retry x h.
          patch_claimed-Keeps id issue _ x _ (store_retry-Keeps id _ x x h (same x)))
        (λ k h. h) in
    let y =
      each_active-Keeps (λ k h. has k h.blocked) patch_blocked issues active u.blocked u
        blocked-IsTable
        (λ issue id entry x h.
          patch_claimed-Keeps id issue _ x _ (store_blocked-Keeps id _ x x h (same x)))
        (λ k h. h) in
    Keeps-trans s t _ w (Keeps-trans t u _ x y)

-- Replacing the issues that the listing shows active keeps every issue where it is.
pub refresh_active-Keeps :
    (issues : Map Issue) (active : TextSet) (s : OrchestratorState)
    → Keeps s (refresh_active issues active s)
unfolding refresh_active refresh_run refresh_retry refresh_blocked
refresh_active-Keeps issues active s =
    let t = each_active refresh_run issues active s.running s in
    let u = each_active refresh_retry issues active t.retry_attempts t in
    let w =
      each_active-Keeps (λ k h. has k h.running) refresh_run issues active s.running s runs-IsTable
        (λ issue id run x h. update_run-Keeps run _ x _ (claim_issue-Keeps id issue x))
        (λ k h. h) in
    let x =
      each_active-Keeps (λ k h. has k h.retry_attempts) refresh_retry issues active t.retry_attempts
        t retries-IsTable
        (λ issue id retry x h. store_retry-Keeps id _ x _ h (claim_issue-Keeps id issue x))
        (λ k h. h) in
    let y =
      each_active-Keeps (λ k h. has k h.blocked) refresh_blocked issues active u.blocked u
        blocked-IsTable
        (λ issue id entry x h. store_blocked-Keeps id _ x _ h (claim_issue-Keeps id issue x))
        (λ k h. h) in
    Keeps-trans s t _ w (Keeps-trans t u _ x y)
