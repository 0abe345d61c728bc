-- ===== src/Workflow/Limits.antt =====
-- normalize.go: the concurrency caps that the orchestrator gets are usable.
use aiops_platform.Common.{
  ℤ, pos, negsuc, text_eq_iff, Bool-cases, inl, inr, ℕ, [], ◌∷◌, some, false, ◌||◌, ◌≡◌, ◌≤◌, Text,
  is_empty, if◌then◌else◌, arith,
}
use aiops_platform.Common.Map.{Map, insert, lookup, lookup-insert}
use aiops_platform.Workflow.{
  is_at_most_zero, normalize_state_concurrency_key, normalize_limits_into,
  normalize_state_concurrency_limits,
}

pub data IsPositive : ℤ → Type 0 where
  positive : (n : ℕ) → 1 ≤ n → IsPositive (pos n)

not_at_most_zero : (limit : ℤ) → is_at_most_zero limit ≡ false → IsPositive limit
not_at_most_zero (pos n) h = positive n (ground (arith, h))
not_at_most_zero (negsuc n) h = cc

-- Every cap is positive and stands under a key that is not empty.
pub record IsUsable (limits : Map ℤ) : Type 0 where
  pub usable :
      (key : Text) (limit : ℤ)
      → lookup key limits ≡ some limit
      → (is_empty key ≡ false) × IsPositive limit

insert-IsUsable :
    (key : Text) (limit : ℤ) (out : Map ℤ)
    → is_empty key ≡ false
    → IsPositive limit
    → IsUsable out
    → IsUsable (insert key limit out)
insert-IsUsable key limit out filled above u = record {
  usable = λ k l found.
      ground (arith, u.usable k l, lookup-insert k key limit out, text_eq_iff key k, found);
}

empty-IsUsable : IsUsable []
unfolding lookup
empty-IsUsable = record { usable = λ key limit found. cc }

normalize_limits_into-IsUsable :
    (limits out : Map ℤ) → IsUsable out → IsUsable (normalize_limits_into out limits)
unfolding normalize_limits_into
normalize_limits_into-IsUsable [] out u = u
normalize_limits_into-IsUsable ((state, limit) ∷ rest) out u =
    let key = normalize_state_concurrency_key state in
    let kept = if is_empty key || is_at_most_zero limit then out else insert key limit out in
    normalize_limits_into-IsUsable rest kept
      (elim (Bool-cases (is_empty key || is_at_most_zero limit)) [
        | inl dropped ↦ rw dropped u
        | inr taken ↦ rw taken (
            insert-IsUsable key limit out (ground (arith, taken))
              (not_at_most_zero limit (ground (arith, taken))) u)
      ])

-- Whatever limits a workflow file gives, every cap that the normalization keeps is positive and stands
-- under a key that is not empty.
pub normalize_state_concurrency_limits-IsUsable :
    (limits : Map ℤ) → IsUsable (normalize_state_concurrency_limits limits)
unfolding normalize_state_concurrency_limits
normalize_state_concurrency_limits-IsUsable limits =
    normalize_limits_into-IsUsable limits [] empty-IsUsable
