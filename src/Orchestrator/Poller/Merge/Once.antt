-- ===== src/Orchestrator/Poller/Merge/Once.antt =====
-- No id is offered twice.
use aiops_platform.Common.{
  [], ◌∷◌, ◌++◌, List, arith, Bool-cases, Option-cases, inl, inr, contains, Distinct,
  Distinct-append,
}
use aiops_platform.Common.Map.{Map, TextSet, has, insert, lookup}
use aiops_platform.Tracker.{Issue}
use aiops_platform.Orchestrator.Poller.Merge.{
  issue_map, carry_over, not_seen, merge_overflow_candidates,
}
use aiops_platform.Orchestrator.Poller.Merge.Listing.{
  issue_ids, issue_ids-append, IsIndexed, issue_map-IsIndexed, Carries, carry_over-Carries,
  contains-not_seen, AllIssues,
}

abbrev Anything : Issue → Type 0
Anything issue = Unit {0}

AllIssues-Anything : (l : List Issue) → AllIssues Anything l
AllIssues-Anything [] = tt
AllIssues-Anything (issue ∷ l) = (tt, AllIssues-Anything l)

carry_over-Distinct :
    (m : Map Issue) (seen : TextSet) (overflow : List Issue)
    → IsIndexed Anything m
    → Distinct (issue_ids overflow)
    → Distinct (issue_ids (carry_over m seen overflow).1)
unfolding carry_over contains
carry_over-Distinct m seen [] h d = tt
carry_over-Distinct m seen (issue ∷ rest) h d = elim (Option-cases (lookup issue.id m)) [
  | inl e ↦ rw (e, carry_over) (carry_over-Distinct m seen rest h d.1)
  | inr (found, e) ↦
      let c = carry_over-Carries Anything m (insert issue.id tt seen) rest h in
      let (same, _) = h.indexed issue.id found e in
      rw (e, carry_over)
        (
          ground (arith, same, d.0, c.carries found.id),
          carry_over-Distinct m (insert issue.id tt seen) rest h d.1,
        )
]

not_seen-Distinct :
    (seen : TextSet) (fresh : List Issue)
    → Distinct (issue_ids fresh)
    → Distinct (issue_ids (not_seen seen fresh))
unfolding not_seen
not_seen-Distinct seen [] d = tt
not_seen-Distinct seen (issue ∷ rest) d = elim (Bool-cases (has issue.id seen)) [
  | inl h ↦ rw h (not_seen-Distinct seen rest d.1)
  | inr h ↦
      rw h
        (ground (arith, contains-not_seen issue.id seen rest, d.0), not_seen-Distinct seen rest d.1)
]

parts-Distinct :
    (m : Map Issue) (overflow fresh : List Issue) (r : TextSet × List Issue)
    → Carries Anything m [] overflow r
    → Distinct (issue_ids r.1)
    → Distinct (issue_ids fresh)
    → Distinct (issue_ids (r.1 ++ not_seen r.0 fresh))
unfolding lookup
parts-Distinct m overflow fresh r c d e = rw issue_ids-append (
    Distinct-append (issue_ids r.1) (issue_ids (not_seen r.0 fresh)) d
      (not_seen-Distinct r.0 fresh e)
      λ k. ground (arith, c.marks k, c.carries k, contains-not_seen k r.0 fresh))

-- When neither the overflow nor the fresh listing has an id twice, the merge has no id twice.
pub merge_overflow_candidates-Distinct :
    (overflow fresh : List Issue)
    → Distinct (issue_ids overflow)
    → Distinct (issue_ids fresh)
    → Distinct (issue_ids (merge_overflow_candidates overflow fresh))
unfolding merge_overflow_candidates
merge_overflow_candidates-Distinct [] fresh d e = e
merge_overflow_candidates-Distinct (issue ∷ rest) fresh d e =
    let m = issue_map fresh in
    let h = issue_map-IsIndexed Anything fresh (AllIssues-Anything fresh) in
    parts-Distinct m (issue ∷ rest) fresh (carry_over m [] (issue ∷ rest))
      (carry_over-Carries Anything m [] (issue ∷ rest) h)
      (carry_over-Distinct m [] (issue ∷ rest) h d) e
