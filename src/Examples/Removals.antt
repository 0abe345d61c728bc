-- ===== src/Examples/Removals.antt =====
-- Removals in a file system without links.
use aiops_platform.Common.{
  ◌≡◌, ◌≢◌, refl, [], ◌∷◌, Text, codes, trim_space, trim_left, trim_right, text_eq,
}
use aiops_platform.Workspace.Paths.{
  split_slashes, absolute, clean_into, clean, init, dir, base, paths_eq, rel, steps_up,
}
use aiops_platform.Workspace.Removal.{
  done, refused, out_of_fuel, FileSystem, resolved, not_exist, no_file, other_file,
  has_parent_traversal, assert_contained, resolve_with, resolve_remove_path, validate_paths,
  validate_removal, remove, safe_remove,
}
use aiops_platform.Workspace.Removal.Contained.{IsSafe, safe_remove-IsSafe}
use aiops_platform.Workspace.Removal.Ancestors.{resolve_remove_path-ends}

abbrev plain : FileSystem
plain = record { eval_symlinks = λ p. resolved p; lstat = λ p. other_file }

abbrev bare : FileSystem
bare = record { eval_symlinks = λ p. not_exist; lstat = λ p. no_file }

abbrev root_text : Text
root_text = codes "/ws"

abbrev target_text : Text
target_text = codes "/ws/A"

removes_target : safe_remove plain bare root_text target_text ≡ done target_text
unfolding safe_remove remove validate_removal validate_paths resolve_remove_path resolve_with
    assert_contained has_parent_traversal split_slashes absolute clean_into clean init dir base
    paths_eq rel steps_up trim_space trim_left trim_right text_eq
removes_target = refl

safe_remove-IsSafe_example : IsSafe plain bare root_text target_text target_text
safe_remove-IsSafe_example =
    safe_remove-IsSafe plain bare root_text target_text target_text removes_target

resolve_remove_path-ends_example :
    resolve_remove_path bare (codes "ws" ∷ codes "A" ∷ []) ≢ refused out_of_fuel
resolve_remove_path-ends_example = resolve_remove_path-ends bare (codes "ws" ∷ codes "A" ∷ [])
