-- ===== src/Orchestrator/Poller/Revalidate/Rows.antt =====
-- The rows of a refresh: one for each requested id, unknown unless the adapter returned one.
use aiops_platform.Common.{
  ◌≡◌, refl, Bool, false, not, ◌&&◌, ◌||◌, Option, none, some, List, [], ◌∷◌, ◌++◌, Text, is_empty,
  trim_space, arith, Bool-cases, inl, inr, if◌then◌else◌, contains, contains_snoc, text_eq,
  text_eq_iff,
}
use aiops_platform.Common.Map.{Map, has, insert, lookup, lookup-insert, has-insert, UniqueKeys}
use aiops_platform.Tracker.{
  IssueRef, IssueState, unknown_rows_into, unknown_issue_states_by_refs, unknown_row,
}
use aiops_platform.Orchestrator.Poller.Revalidate.{
  fetch_rows, Refresher, merge_requested_issue_states, fetch_issue_states,
}

-- The ids that the refs ask for.
unfoldable pub is_requested : Text → List IssueRef → Bool
is_requested id [] = false
is_requested id (ref ∷ refs) =
    (text_eq (trim_space ref.id) id && not (is_empty id)) || is_requested id refs

abbrev pub or_unknown : Option IssueState → IssueState
or_unknown none = unknown_row
or_unknown (some row) = row

lookup-unknown_rows :
    (id : Text) (states : Map IssueState) (out refs : List IssueRef)
    → lookup id (unknown_rows_into states out refs).0 ≡ (
        if has id states
        then lookup id states
        else if is_requested id refs
        then some unknown_row
        else none)
unfolding unknown_rows_into is_requested
lookup-unknown_rows id states out [] = ground arith
lookup-unknown_rows id states out (ref ∷ refs) = ground (
  arith,
  lookup-unknown_rows id states out refs,
  text_eq_iff (trim_space ref.id) id,
  lookup-insert id (trim_space ref.id) unknown_row states,
  lookup-unknown_rows id (insert (trim_space ref.id) unknown_row states)
      (out ++ record ref { id = trim_space ref.id } ∷ []) refs,
)

lookup-unknown_rows_none :
    (refs : List IssueRef) (id : Text)
    → lookup id (unknown_rows_into [] [] refs).0
      ≡ (if is_requested id refs then some unknown_row else none)
unfolding lookup
lookup-unknown_rows_none refs id = lookup-unknown_rows id [] [] refs

-- Each requested row is replaced by the fetched one, the others are ignored.
lookup-merge :
    (id : Text) (states fetched : Map IssueState)
    → UniqueKeys fetched
    → lookup id (merge_requested_issue_states states fetched)
      ≡ (if has id states && has id fetched then lookup id fetched else lookup id states)
unfolding merge_requested_issue_states lookup
lookup-merge id states [] u = ground arith
lookup-merge id states ((k, row) ∷ fetched) u = ground (
  arith,
  lookup-merge id states fetched u.1,
  lookup-merge id (insert k row states) fetched u.1,
  lookup-insert id k row states,
  text_eq_iff k id,
)

abbrev ref_ids : List IssueRef → List Text
ref_ids [] = []
ref_ids (ref ∷ refs) = ref.id ∷ ref_ids refs

ref_ids-append : (l m : List IssueRef) → ref_ids (l ++ m) ≡ ref_ids l ++ ref_ids m
ref_ids-append [] m = refl
ref_ids-append (ref ∷ l) m = ground (arith, ref_ids-append l m)

-- The rows stand under the ids of the normalized refs.
rows_match :
    (states : Map IssueState) (out refs : List IssueRef)
    → ((id : Text) → has id states ≡ contains id (ref_ids out))
    → (id : Text)
    → has id (unknown_rows_into states out refs).0
      ≡ contains id (ref_ids (unknown_rows_into states out refs).1)
unfolding unknown_rows_into
rows_match states out [] h id = h id
rows_match states out (ref ∷ refs) h id =
    let key = trim_space ref.id in
    elim (Bool-cases (is_empty key || has key states)) [
      | inl e ↦ rw e (rows_match states out refs h id)
      | inr e ↦ rw e (
          rows_match (insert key unknown_row states) (out ++ record ref { id = key } ∷ []) refs
            (λ k. rw ref_ids-append (
              ground (
                arith,
                h k,
                has-insert k key unknown_row states,
                contains_snoc k key (ref_ids out),
              )))
            id)
    ]

-- One row for each requested id and for no other: the fetched one, or `Unknown`.
pub record AnswersFor (refs : List IssueRef) (fetched rows : Map IssueState) : Type 0 where
  pub answer :
      (id : Text)
      → lookup id rows
        ≡ (if is_requested id refs then some (or_unknown (lookup id fetched)) else none)

fetch_rows-AnswersFor :
    (fetch : Refresher) (issue_refs : List IssueRef) (states : Map IssueState)
    (refs : List IssueRef)
    → ((id : Text)
        → lookup id states ≡ (if is_requested id issue_refs then some unknown_row else none))
    → ((id : Text) → has id states ≡ contains id (ref_ids refs))
    → UniqueKeys (fetch refs).0
    → AnswersFor issue_refs (fetch refs).0 (fetch_rows fetch states refs).0
unfolding fetch_rows lookup contains
fetch_rows-AnswersFor fetch issue_refs states [] h k u = record {
  answer = λ id. ground (arith, h id, k id);
}
fetch_rows-AnswersFor fetch issue_refs states (ref ∷ refs) h k u = record {
  answer = λ id. ground (arith, h id, lookup-merge id states (fetch (ref ∷ refs)).0 u);
}

-- A refresh answers for every requested id: with the row that the adapter returned for it, or with
-- `Unknown`, and never with a row that nobody asked for, when the adapter returns a map.
pub fetch_issue_states-AnswersFor :
    (fetch : Refresher) (issue_refs : List IssueRef)
    → ((refs : List IssueRef) → UniqueKeys (fetch refs).0)
    → AnswersFor issue_refs
        (fetch (unknown_issue_states_by_refs issue_refs).1).0
        (fetch_issue_states (some fetch) issue_refs).0
unfolding fetch_issue_states unknown_issue_states_by_refs lookup contains
fetch_issue_states-AnswersFor fetch issue_refs u =
    fetch_rows-AnswersFor fetch issue_refs (unknown_rows_into [] [] issue_refs).0
      (unknown_rows_into [] [] issue_refs).1 (lookup-unknown_rows_none issue_refs)
      (rows_match [] [] issue_refs λ id. refl) (u (unknown_rows_into [] [] issue_refs).1)
