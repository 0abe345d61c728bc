-- ===== src/Orchestrator/Poller/Revalidate/Survivors.antt =====
-- The candidates that the recheck keeps, as a relation.
use aiops_platform.Common.{
  ◌≡◌, refl, sym, ap, true, false, Option, none, some, List, [], ◌∷◌, Text, is_empty, trim_space,
  arith, Bool-cases, Option-cases, inl, inr, ◌∙◌,
}
use aiops_platform.Common.Map.{Map, TextSet, has, lookup}
use aiops_platform.Orchestrator.Actor.{is_tracker_state}
use aiops_platform.Tracker.{BlockerRef, Issue, IssueState, IssueStateOutcome}
use aiops_platform.Orchestrator.Poller.Eligibility.{
  normalized_states, issue_has_required_labels, todo_issue_blocked_by_open_dependency,
}
use aiops_platform.Orchestrator.Poller.Revalidate.{
  ReconciliationConfig, refreshed_blockers, carry_refreshed, current_candidate, revalidated_row,
  revalidated_candidate, keep_revalidated, filter_revalidated_candidates,
}

-- The listed issue with the state, the labels and, where the row has any, the blockers of its row.
unfoldable pub with_row : Issue → IssueState → Issue
with_row listed row = record listed {
  state = row.state;
  labels = row.labels;
  blocked_by = elim row.blocked_by [ none ↦ listed.blocked_by | some refs ↦ some refs ];
}

carry_refreshed-with_row :
    (listed : Issue) (row : IssueState) → carry_refreshed listed row ≡ with_row listed row
unfolding carry_refreshed with_row
carry_refreshed-with_row listed row =
    ap (λ b. record listed { state = row.state; labels = row.labels; blocked_by = b })
      (blockers row.blocked_by)
  where
    blockers :
        (b : Option (List BlockerRef))
        → refreshed_blockers b listed.blocked_by
          ≡ elim b [ none ↦ listed.blocked_by | some refs ↦ some refs ]
    blockers none = refl
    blockers (some refs) = refl

-- `kept` is `listed` with the data of its current row, and passes every gate of the dispatch.
pub record IsSurvivor (cfg : ReconciliationConfig) (claimable : TextSet) (rows : Map IssueState)
    (listed kept : Issue) : Type 0 where
  pub claim : has listed.id claimable ≡ true
  pub row : IssueState
  pub found : lookup listed.id rows ≡ some row
  pub current : row.outcome ≡ IssueStateOutcome.current
  pub stated : is_empty (trim_space row.state) ≡ false
  pub carried : kept ≡ with_row listed row
  pub in_active_state : is_tracker_state kept.state (normalized_states cfg.active_states) ≡ true
  pub labelled : issue_has_required_labels kept cfg.required_labels ≡ true
  pub unblocked :
      todo_issue_blocked_by_open_dependency kept (normalized_states cfg.terminal_states) ≡ false

-- The listed issues on the left, the kept ones on the right, in the same order: an issue is left out
-- only when nothing could survive of it.
pub data Survives (cfg : ReconciliationConfig) (claimable : TextSet) (rows : Map IssueState)
    : List Issue → List Issue → Type 0 where
  nothing : Survives cfg claimable rows [] []
  keeps :
      {a b : Issue} {l m : List Issue}
      → IsSurvivor cfg claimable rows a b
      → Survives cfg claimable rows l m
      → Survives cfg claimable rows (a ∷ l) (b ∷ m)
  drops :
      {a : Issue} {l m : List Issue}
      → ((b : Issue) → ¬ IsSurvivor cfg claimable rows a b)
      → Survives cfg claimable rows l m
      → Survives cfg claimable rows (a ∷ l) m

-- What the gates answer, for one row.
record Passes (active terminal : TextSet) (required : List Text) (listed : Issue) (row : IssueState)
    (kept : Issue) : Type 0 where
  pub stated : is_empty (trim_space row.state) ≡ false
  pub carried : kept ≡ carry_refreshed listed row
  pub in_active_state : is_tracker_state kept.state active ≡ true
  pub labelled : issue_has_required_labels kept required ≡ true
  pub unblocked : todo_issue_blocked_by_open_dependency kept terminal ≡ false

current-Passes :
    (active terminal : TextSet) (required : List Text) (listed : Issue) (row : IssueState)
    (kept : Issue)
    → current_candidate listed row active terminal required ≡ some kept
    → Passes active terminal required listed row kept
unfolding current_candidate
current-Passes active terminal required listed row kept h = ground arith

Passes-current :
    (active terminal : TextSet) (required : List Text) (listed : Issue) (row : IssueState)
    (kept : Issue)
    → Passes active terminal required listed row kept
    → current_candidate listed row active terminal required ≡ some kept
unfolding current_candidate
Passes-current active terminal required listed row kept p = ground arith

-- A row decides: `some kept` exactly when it is current and `kept` passes.
revalidated-current :
    (active terminal : TextSet) (required : List Text) (listed : Issue) (row : IssueState)
    (kept : Issue)
    → revalidated_row listed (some row) active terminal required ≡ some kept
    → (row.outcome ≡ IssueStateOutcome.current)
      × (current_candidate listed row active terminal required ≡ some kept)
unfolding revalidated_row
revalidated-current active terminal required listed row kept h = ground arith

current-revalidated :
    (active terminal : TextSet) (required : List Text) (listed : Issue) (row : IssueState)
    → row.outcome ≡ IssueStateOutcome.current
    → revalidated_row listed (some row) active terminal required
      ≡ current_candidate listed row active terminal required
unfolding revalidated_row
current-revalidated active terminal required listed row h = ground arith

no_row :
    (listed : Issue) (active terminal : TextSet) (required : List Text) (kept : Issue)
    → revalidated_row listed none active terminal required ≡ some kept
    → ⊥
unfolding revalidated_row
no_row listed active terminal required kept h = cc

module _ (cfg : ReconciliationConfig) (claimable : TextSet) (rows : Map IssueState) where
  abbrev revalidate : Issue → Option Issue
  revalidate listed =
      revalidated_candidate listed rows (normalized_states cfg.active_states)
        (normalized_states cfg.terminal_states) cfg.required_labels

  revalidate-IsSurvivor :
      (listed kept : Issue)
      → has listed.id claimable ≡ true
      → revalidate listed ≡ some kept
      → IsSurvivor cfg claimable rows listed kept
  unfolding revalidated_candidate
  revalidate-IsSurvivor listed kept claim h = elim (Option-cases (lookup listed.id rows)) [
    | inl e ↦ absurd (no_row listed _ _ _ kept (rw e at h))
    | inr (row, e) ↦ of_row row e (rw e at h)
  ]
    where
      active : TextSet
      active = normalized_states cfg.active_states

      terminal : TextSet
      terminal = normalized_states cfg.terminal_states

      of_row :
          (row : IssueState)
          → lookup listed.id rows ≡ some row
          → revalidated_row listed (some row) active terminal cfg.required_labels ≡ some kept
          → IsSurvivor cfg claimable rows listed kept
      of_row row e h =
          let (current, passing) =
            revalidated-current active terminal cfg.required_labels listed row kept h in
          let p = current-Passes active terminal cfg.required_labels listed row kept passing in
          record {
            claim = claim;
            row = row;
            found = e;
            current = current;
            stated = p.stated;
            carried = p.carried ∙ carry_refreshed-with_row listed row;
            in_active_state = p.in_active_state;
            labelled = p.labelled;
            unblocked = p.unblocked;
          }

  IsSurvivor-revalidate :
      (listed kept : Issue)
      → IsSurvivor cfg claimable rows listed kept
      → revalidate listed ≡ some kept
  unfolding revalidated_candidate
  IsSurvivor-revalidate listed kept p = rw p.found (
      current-revalidated (normalized_states cfg.active_states)
        (normalized_states cfg.terminal_states) cfg.required_labels listed p.row p.current
      ∙ Passes-current (normalized_states cfg.active_states) (normalized_states cfg.terminal_states)
          cfg.required_labels listed p.row kept
          (record {
            stated = p.stated;
            carried = p.carried ∙ sym (carry_refreshed-with_row listed p.row);
            in_active_state = p.in_active_state;
            labelled = p.labelled;
            unblocked = p.unblocked;
          }))

  pub filter_revalidated_candidates-Survives :
      (candidates : List Issue)
      → Survives cfg claimable rows candidates
          (filter_revalidated_candidates cfg candidates claimable rows)
  unfolding filter_revalidated_candidates keep_revalidated
  filter_revalidated_candidates-Survives [] = Survives.nothing
  filter_revalidated_candidates-Survives (issue ∷ rest) =
      let tail = filter_revalidated_candidates-Survives rest in
      elim (Bool-cases (has issue.id claimable)) [
        | inr h ↦ rw h (Survives.drops {a = issue} (λ b p. ground (arith, p.claim)) tail)
        | inl h ↦ elim (Option-cases (revalidate issue)) [
          | inl e ↦
              rw (h, e)
                (Survives.drops {a = issue} (λ b p. ground (arith, IsSurvivor-revalidate issue b p))
                  tail)
          | inr (kept, e) ↦ rw (h, e) (Survives.keeps (revalidate-IsSurvivor issue kept h e) tail)
        ]
      ]
