-- ===== src/Orchestrator/Poller/Ordering.antt =====
-- internal/orchestrator/poller_candidates.go: the order of the candidates. A priority below zero
-- has the same key as the priority 0. `sort.SliceStable` is an insertion sort here: a stable sort
-- by a strict weak order has one result.
pub mod WeakOrder
pub mod Sorting
use Prim.Native.Nat.{Ordering}
use aiops_platform.Common.{
  ℕ, Bool, true, false, not, ◌&&◌, List, [], ◌∷◌, Text, ltb, leb, ◌==◌, if◌then◌else◌, text_lt,
}
use aiops_platform.Tracker.{Issue}

unfoldable pub priority_sort_key : ℕ → ℕ
priority_sort_key priority = if leb 1 priority && leb priority 4 then priority else 5

-- The results -1, 0 and 1 are `lt`, `eq` and `gt`.
unfoldable pub compare_created_at : ℕ → ℕ → Ordering
compare_created_at left right =
    if left == 0 && right == 0
    then Ordering.eq
    else if left == 0
    then Ordering.gt
    else if right == 0
    then Ordering.lt
    else if ltb left right
    then Ordering.lt
    else if ltb right left
    then Ordering.gt
    else Ordering.eq

-- The two returns on `compareCreatedAt`, and `rest` where neither is taken.
abbrev pub by_time : Ordering → Bool → Bool
by_time Ordering.lt rest = true
by_time Ordering.gt rest = false
by_time Ordering.eq rest = rest

-- The comparison of `sortCandidates`.
unfoldable pub precedes : Issue → Issue → Bool
precedes left right =
    let left_priority = priority_sort_key left.priority in
    let right_priority = priority_sort_key right.priority in
    if not (left_priority == right_priority)
    then ltb left_priority right_priority
    else by_time (compare_created_at left.created_at right.created_at)
        (text_lt left.identifier right.identifier)

-- An issue goes before those that do not precede it.
unfoldable pub place : Issue → List Issue → List Issue
place issue [] = issue ∷ []
place issue (other ∷ rest) =
    let placed = place issue rest in
    if precedes other issue then other ∷ placed else issue ∷ other ∷ rest

unfoldable pub sort_candidates : List Issue → List Issue
unfolding place
sort_candidates [] = []
sort_candidates (issue ∷ rest) = place issue (sort_candidates rest)
