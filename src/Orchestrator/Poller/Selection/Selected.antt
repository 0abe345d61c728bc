-- ===== src/Orchestrator/Poller/Selection/Selected.antt =====
-- What holds of every candidate that a tick asks to dispatch.
use aiops_platform.Common.{◌≡◌, refl, true, false, List, [], ◌∷◌, Text, Bool-cases, inl, inr}
use aiops_platform.Common.Map.{Map, TextSet, has, lookup}
use aiops_platform.Tracker.{Issue}
use aiops_platform.Orchestrator.Poller.Eligibility.{
  filter_eligible, filter_eligible_candidates, not_in_map, filter_issues_not_in_map,
  normalized_states, issue_has_required_candidate_fields, issue_has_required_labels,
  todo_issue_blocked_by_open_dependency,
}
use aiops_platform.Orchestrator.Poller.Ordering.{place, precedes, sort_candidates}
use aiops_platform.Orchestrator.Poller.Merge.{merge_overflow_candidates}
use aiops_platform.Orchestrator.Poller.Merge.Listing.{
  AllIssues, merge_overflow_candidates-IsMergeOf,
}
use aiops_platform.Orchestrator.Poller.Revalidate.{ReconciliationConfig}
use aiops_platform.Orchestrator.Poller.Selection.{listed_candidates}

-- An issue that stands in the listing, is complete, unblocked and labelled, and was not reconciled as
-- inactive in this tick.
pub record IsEligible (P : Issue → Type 0) (cfg : ReconciliationConfig) (inactive : Map Issue)
    (issue : Issue) : Type 0 where
  pub listed : P issue
  pub complete : issue_has_required_candidate_fields issue ≡ true
  pub unblocked :
      todo_issue_blocked_by_open_dependency issue (normalized_states cfg.terminal_states) ≡ false
  pub labelled : issue_has_required_labels issue cfg.required_labels ≡ true
  pub active : has issue.id inactive ≡ false

-- The gates of the filter.
record Passed (P : Issue → Type 0) (terminal : TextSet) (required : List Text) (issue : Issue)
    : Type 0 where
  pub listed : P issue
  pub complete : issue_has_required_candidate_fields issue ≡ true
  pub unblocked : todo_issue_blocked_by_open_dependency issue terminal ≡ false
  pub labelled : issue_has_required_labels issue required ≡ true

module _ (P : Issue → Type 0) where
  filter_eligible-all :
      (terminal : TextSet) (required : List Text) (l : List Issue)
      → AllIssues P l
      → AllIssues (Passed P terminal required) (filter_eligible terminal required l)
  unfolding filter_eligible
  filter_eligible-all terminal required [] h = tt
  filter_eligible-all terminal required (issue ∷ rest) h =
      let tail = filter_eligible-all terminal required rest h.1 in
      elim (Bool-cases (issue_has_required_candidate_fields issue)) [
        | inr a ↦ rw a tail
        | inl a ↦ elim (Bool-cases (todo_issue_blocked_by_open_dependency issue terminal)) [
          | inl b ↦ rw (a, b) tail
          | inr b ↦ elim (Bool-cases (issue_has_required_labels issue required)) [
            | inr c ↦ rw (a, b, c) tail
            | inl c ↦
                rw (a, b, c)
                  (record { listed = h.0; complete = a; unblocked = b; labelled = c }, tail)
          ]
        ]
      ]

  -- Filters and permutations keep what holds of all issues.
  place-all :
      (issue : Issue) (l : List Issue) → P issue → AllIssues P l → AllIssues P (place issue l)
  unfolding place
  place-all issue [] p h = (p, tt)
  place-all issue (other ∷ rest) p h = elim (Bool-cases (precedes other issue)) [
    | inl b ↦ rw b (h.0, place-all issue rest p h.1)
    | inr b ↦ rw b (p, h)
  ]

  sort_candidates-all : (l : List Issue) → AllIssues P l → AllIssues P (sort_candidates l)
  unfolding sort_candidates
  sort_candidates-all [] h = tt
  sort_candidates-all (issue ∷ rest) h =
      place-all issue (sort_candidates rest) h.0 (sort_candidates-all rest h.1)

record Remains (P : Issue → Type 0) (inactive : Map Issue) (issue : Issue) : Type 0 where
  pub before : P issue
  pub active : has issue.id inactive ≡ false

not_in_map-all :
    (P : Issue → Type 0) (inactive : Map Issue) (l : List Issue)
    → AllIssues P l
    → AllIssues (Remains P inactive) (not_in_map inactive l)
unfolding not_in_map
not_in_map-all P inactive [] h = tt
not_in_map-all P inactive (issue ∷ rest) h = elim (Bool-cases (has issue.id inactive)) [
  | inl b ↦ rw b (not_in_map-all P inactive rest h.1)
  | inr b ↦ rw b (record { before = h.0; active = b }, not_in_map-all P inactive rest h.1)
]

AllIssues-map :
    (P Q : Issue → Type 0) (l : List Issue)
    → ((issue : Issue) → P issue → Q issue)
    → AllIssues P l
    → AllIssues Q l
AllIssues-map P Q [] f h = tt
AllIssues-map P Q (issue ∷ l) f h = (f issue h.0, AllIssues-map P Q l f h.1)

not_in_empty : (P : Issue → Type 0) (issue : Issue) → P issue → Remains P [] issue
unfolding lookup
not_in_empty P issue p = record { before = p; active = refl }

filter_inactive-all :
    (P : Issue → Type 0) (inactive : Map Issue) (l : List Issue)
    → AllIssues P l
    → AllIssues (Remains P inactive) (filter_issues_not_in_map l inactive)
unfolding filter_issues_not_in_map
filter_inactive-all P [] l h = AllIssues-map P (Remains P []) l (not_in_empty P) h
filter_inactive-all P (e ∷ inactive) l h = not_in_map-all P (e ∷ inactive) l h

module _ (P : Issue → Type 0) (cfg : ReconciliationConfig) (overflow listed : List Issue)
    (inactive : Map Issue) (all : AllIssues P listed) where
  pub listed_candidates-all :
      AllIssues (IsEligible P cfg inactive) (listed_candidates cfg overflow listed inactive)
  unfolding listed_candidates filter_eligible_candidates
  listed_candidates-all =
      let terminal = normalized_states cfg.terminal_states in
      let required = cfg.required_labels in
      let merged = merge_overflow_candidates overflow listed in
      let eligible = filter_eligible terminal required merged in
      sort_candidates-all (IsEligible P cfg inactive) _ (
        AllIssues-map (Remains (Passed P terminal required) inactive) (IsEligible P cfg inactive) _
          (λ issue r. record {
            listed = r.before.listed;
            complete = r.before.complete;
            unblocked = r.before.unblocked;
            labelled = r.before.labelled;
            active = r.active;
          })
          (filter_inactive-all (Passed P terminal required) inactive eligible (
            filter_eligible-all P terminal required merged
              (merge_overflow_candidates-IsMergeOf P overflow listed all).all)))
