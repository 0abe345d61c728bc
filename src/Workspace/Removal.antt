-- ===== src/Workspace/Removal.antt =====
-- internal/workspace/safe_remove.go. The file system is an argument: what EvalSymlinks and Lstat
-- answer at one time. A removal is the path that os.RemoveAll is called with.
pub mod Contained
pub mod Ancestors
use aiops_platform.Common.{
  ℕ, zero, suc, ◌+◌, Bool, true, false, not, ◌||◌, Option, none, some, List, [], ◌∷◌, ◌++◌, Text,
  is_empty, trim_space, text_eq, length, if◌then◌else◌,
}
use aiops_platform.Workspace.Paths.{absolute, clean, dir, base, paths_eq, rel, parent_segment}

pub data RemoveError : Type 0 where
  invalid_path escapes_root failed out_of_fuel : RemoveError

-- A result, or the error of an early return.
pub data Outcome {ν} (R : Type ν) : Type ν where
  refused : RemoveError → Outcome R
  done : R → Outcome R

infixl 5 ◌>>=◌ ◌>>◌
abbrev pub ◌>>=◌ {ν μ} : {R : Type ν} {S : Type μ} → Outcome R → (R → Outcome S) → Outcome S
refused why >>= next = refused why
done result >>= next = next result

abbrev pub ◌>>◌ {μ} : {S : Type μ} → Outcome (Unit {0}) → Outcome S → Outcome S
first >> next = first >>= λ _. next

abbrev pub refuse_if : Bool → RemoveError → Outcome (Unit {0})
refuse_if test why = if test then refused why else done tt

-- EvalSymlinks: the path behind the links, os.IsNotExist, or another error.
pub data Evaluated : Type 0 where
  resolved : List Text → Evaluated
  not_exist other_error : Evaluated

-- Lstat.
pub data Stat : Type 0 where
  symlink other_file no_file stat_error : Stat

pub record FileSystem : Type 0 where
  pub eval_symlinks : List Text → Evaluated
  pub lstat : List Text → Stat

unfoldable pub has_parent_traversal : List Text → Bool
has_parent_traversal [] = false
has_parent_traversal (segment ∷ rest) =
    if text_eq segment parent_segment then true else has_parent_traversal rest

-- The tests on the result of Rel.
abbrev pub is_outside : List Text → Bool
is_outside [] = true
is_outside (segment ∷ rest) = text_eq segment parent_segment

unfoldable pub assert_contained : List Text → List Text → Outcome (Unit {0})
assert_contained root path = do
  refuse_if (paths_eq root path) escapes_root
  refuse_if (is_outside (rel root path)) escapes_root
  done tt

abbrev pub join_base : List Text → Text → List Text
join_base parent name = clean (parent ++ name ∷ [])

-- Each call of itself is on the parent directory; `resolve_remove_path` gives fuel for all of them.
unfoldable pub resolve_with : FileSystem → ℕ → List Text → Outcome (List Text)
resolve_with fs zero path = refused out_of_fuel
resolve_with fs (suc fuel) path =
    let above = resolve_with fs fuel (dir path) in
    elim (fs.eval_symlinks path) [
      | resolved target ↦ done (clean target)
      | other_error ↦ refused failed
      | not_exist ↦ elim (fs.lstat path) [
        | symlink ↦ refused escapes_root
        | other_file ↦ refused failed
        | stat_error ↦ refused failed
        | no_file ↦
            if paths_eq (dir path) path
            then done (clean path)
            else above >>= λ parent. done (join_base parent (base path))
      ]
    ]

unfoldable pub resolve_remove_path : FileSystem → List Text → Outcome (List Text)
resolve_remove_path fs path = resolve_with fs (length path + 2) path

pub record ValidatedRemoval : Type 0 where
  pub root : Text
  pub path : Text
  pub canonical_root : List Text

abbrev pub absolute_or_invalid : Text → Outcome (List Text)
absolute_or_invalid s = elim (absolute s) [ none ↦ refused invalid_path | some p ↦ done p ]

-- The checks behind the guards on the texts.
unfoldable pub validate_paths : FileSystem → List Text → List Text → Outcome (List Text)
validate_paths fs root path = do
  refuse_if (has_parent_traversal root || has_parent_traversal path) escapes_root
  assert_contained (clean root) (clean path)
  canonical_root ← resolve_remove_path fs root
  canonical_path ← resolve_remove_path fs path
  assert_contained canonical_root canonical_path
  done canonical_root

unfoldable pub validate_removal : FileSystem → Text → Text → Outcome ValidatedRemoval
validate_removal fs root path = do
  refuse_if (is_empty (trim_space root) || is_empty (trim_space path)) invalid_path
  root_path ← absolute_or_invalid (trim_space root)
  target_path ← absolute_or_invalid (trim_space path)
  canonical_root ← validate_paths fs root_path target_path
  done (record { root = trim_space root; path = trim_space path; canonical_root = canonical_root })

-- Remove, with the file system of its own time.
unfoldable pub remove : FileSystem → ValidatedRemoval → Outcome Text
remove fs v = do
  current ← validate_removal fs v.root v.path
  refuse_if (not (paths_eq current.canonical_root v.canonical_root)) escapes_root
  done v.path

-- SafeRemove: the file system may change between its two checks.
unfoldable pub safe_remove : FileSystem → FileSystem → Text → Text → Outcome Text
safe_remove before after root path = do
  removal ← validate_removal before root path
  remove after removal
