-- ===== src/Workflow.antt =====
-- internal/workflow/normalize.go: the keys and limits of the per-state concurrency caps.
pub mod Limits
pub mod FrontMatter
use aiops_platform.Common.{
  Bool, true, ℤ, pos, negsuc, [], ◌∷◌, ◌||◌, ◌==◌, Text, is_empty, trim_space, to_lower,
  replace_all, if◌then◌else◌,
}
use aiops_platform.Common.Map.{Map, insert}

unfoldable pub normalize_state_concurrency_key : Text → Text
unfolding trim_space to_lower replace_all
normalize_state_concurrency_key state = replace_all b' ' b'_' (to_lower (trim_space state))

abbrev pub is_at_most_zero : ℤ → Bool
is_at_most_zero (pos n) = n == 0
is_at_most_zero (negsuc n) = true

-- The loop over the entries, which writes to `out`; an empty map gives Go's nil map, here `[]`.
unfoldable pub normalize_limits_into : Map ℤ → Map ℤ → Map ℤ
normalize_limits_into out [] = out
normalize_limits_into out ((state, limit) ∷ rest) =
    let key = normalize_state_concurrency_key state in
    normalize_limits_into
      (if is_empty key || is_at_most_zero limit then out else insert key limit out) rest

unfoldable pub normalize_state_concurrency_limits : Map ℤ → Map ℤ
unfolding normalize_limits_into
normalize_state_concurrency_limits limits = normalize_limits_into [] limits
