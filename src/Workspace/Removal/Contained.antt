-- ===== src/Workspace/Removal/Contained.antt =====
-- What is removed lies strictly below the canonical root that was validated.
use aiops_platform.Common.{
  ◌≡◌, refl, ◌∙◌, Bool, true, false, not, ◌||◌, some, List, Text, trim_space, is_empty, arith,
  Option-cases, inl, inr,
}
use mathlib.Core.Path.{subst}
use aiops_platform.Workspace.Paths.{absolute, clean, rel, paths_eq}
use aiops_platform.Workspace.Paths.Relative.{IsBelow, rel-IsBelow, paths_eq_lem}
use aiops_platform.Workspace.Removal.{
  RemoveError, Outcome, done, refused, ◌>>=◌, ◌>>◌, refuse_if, FileSystem, has_parent_traversal,
  is_outside, assert_contained, resolve_remove_path, ValidatedRemoval, absolute_or_invalid,
  validate_paths, validate_removal, remove, safe_remove,
}

-- What a successful result satisfies.
pub record Gives {ℓ κ} {A : Type ℓ} (P : A → Type κ) (r : Outcome A) : Type (ℓ ⊔ κ) where
  pub gives : (a : A) → r ≡ done a → P a

bind-Gives {ℓ κ ν} :
    {A : Type ℓ} {B : Type κ} (P : B → Type ν) (m : Outcome A) {f : A → Outcome B}
    → ((a : A) → m ≡ done a → Gives P (f a))
    → Gives P (m >>= f)
bind-Gives P (done a) h = h a refl
bind-Gives P (refused e) h = record { gives = λ b k. cc }

refuse_if-Gives {ℓ κ} :
    {B : Type ℓ} (P : B → Type κ) (test : Bool) (e : RemoveError) {k : Outcome B}
    → (test ≡ false → Gives P k)
    → Gives P (refuse_if test e >> k)
refuse_if-Gives P true e h = record { gives = λ b k. cc }
refuse_if-Gives P false e h = h refl

done-Gives {ℓ κ} : {A : Type ℓ} (P : A → Type κ) (a : A) → P a → Gives P (done a)
done-Gives {A = A} P a p = record { gives = λ b e. subst P (done-injective a b e) p }
  where
    done-injective : (a b : A) → done a ≡ done b → a ≡ b
    done-injective a b e = cc

absolute-done : (s : Text) (p : List Text) → absolute_or_invalid s ≡ done p → absolute s ≡ some p
absolute-done s p h = elim (Option-cases (absolute s)) [
  | inl e ↦ absurd (ground (arith, e, h))
  | inr (q, e) ↦ ground (arith, e, h)
]

assert_contained-IsBelow :
    (root path : List Text) → Gives (λ u. IsBelow root path) (assert_contained root path)
unfolding assert_contained
assert_contained-IsBelow root path = refuse_if-Gives _ (paths_eq root path) _ λ differ.
    refuse_if-Gives _ (is_outside (rel root path)) _
      λ inside. record { gives = λ u e. rel-IsBelow root path inside }

-- What the file system `fs` shows of a root and a path: the path lies strictly below the root, as it is
-- written and behind its links.
pub record Contains (fs : FileSystem) (root path : Text) (canonical_root : List Text) : Type 0 where
  pub root_path : List Text
  pub target_path : List Text
  pub root_absolute : absolute (trim_space root) ≡ some root_path
  pub target_absolute : absolute (trim_space path) ≡ some target_path
  pub no_parents : has_parent_traversal root_path || has_parent_traversal target_path ≡ false
  pub lexical : IsBelow (clean root_path) (clean target_path)
  pub canonical_target : List Text
  pub root_resolves : resolve_remove_path fs root_path ≡ done canonical_root
  pub target_resolves : resolve_remove_path fs target_path ≡ done canonical_target
  pub canonical : IsBelow canonical_root canonical_target

module _ (fs : FileSystem) where
  -- What the checks of two paths establish.
  record Checked (root_path target_path canonical_root : List Text) : Type 0 where
    pub no_parents : has_parent_traversal root_path || has_parent_traversal target_path ≡ false
    pub lexical : IsBelow (clean root_path) (clean target_path)
    pub canonical_target : List Text
    pub root_resolves : resolve_remove_path fs root_path ≡ done canonical_root
    pub target_resolves : resolve_remove_path fs target_path ≡ done canonical_target
    pub canonical : IsBelow canonical_root canonical_target

  validate_paths-Checked :
      (root path : List Text) → Gives (Checked root path) (validate_paths fs root path)
  unfolding validate_paths
  validate_paths-Checked root path =
      refuse_if-Gives (Checked root path) (has_parent_traversal root || has_parent_traversal path) _
        λ plain.
          bind-Gives (Checked root path) (assert_contained (clean root) (clean path)) λ u lexical.
            bind-Gives (Checked root path) (resolve_remove_path fs root)
              λ canonical_root root_resolves.
                bind-Gives (Checked root path) (resolve_remove_path fs path)
                  λ canonical_path path_resolves.
                    bind-Gives (Checked root path) (assert_contained canonical_root canonical_path)
                      λ w canonical. done-Gives (Checked root path) canonical_root (record {
                        no_parents = plain;
                        lexical =
                            (assert_contained-IsBelow (clean root) (clean path)).gives u lexical;
                        canonical_target = canonical_path;
                        root_resolves = root_resolves;
                        target_resolves = path_resolves;
                        canonical =
                            (assert_contained-IsBelow canonical_root canonical_path).gives w
                              canonical;
                      })

  -- A validated removal keeps the texts and the canonical root.
  pub record IsValidated (root path : Text) (v : ValidatedRemoval) : Type 0 where
    pub keeps_root : v.root ≡ trim_space root
    pub keeps_path : v.path ≡ trim_space path
    pub contains : Contains fs root path v.canonical_root

  pub validate_removal-IsValidated :
      (root path : Text) → Gives (IsValidated root path) (validate_removal fs root path)
  unfolding validate_removal
  validate_removal-IsValidated root path =
      refuse_if-Gives (IsValidated root path)
        (is_empty (trim_space root) || is_empty (trim_space path)) _
        λ filled.
          bind-Gives (IsValidated root path) (absolute_or_invalid (trim_space root))
            λ root_path root_absolute.
              bind-Gives (IsValidated root path) (absolute_or_invalid (trim_space path))
                λ target_path target_absolute.
                  bind-Gives (IsValidated root path) (validate_paths fs root_path target_path)
                    λ canonical_root checked.
                      let c =
                        (validate_paths-Checked root_path target_path).gives canonical_root
                          checked in
                      done-Gives (IsValidated root path) _ (record {
                        keeps_root = refl;
                        keeps_path = refl;
                        contains = record {
                          root_path = root_path;
                          target_path = target_path;
                          root_absolute = absolute-done (trim_space root) root_path root_absolute;
                          target_absolute =
                              absolute-done (trim_space path) target_path target_absolute;
                          no_parents = c.no_parents;
                          lexical = c.lexical;
                          canonical_target = c.canonical_target;
                          root_resolves = c.root_resolves;
                          target_resolves = c.target_resolves;
                          canonical = c.canonical;
                        };
                      })

  -- What Remove deletes is the validated path, and now too it lies below the canonical root of the
  -- validation.
  pub record Removes (v : ValidatedRemoval) (removed : Text) : Type 0 where
    pub same_path : removed ≡ v.path
    pub contains : Contains fs v.root v.path v.canonical_root

  remove-Removes : (v : ValidatedRemoval) → Gives (Removes v) (remove fs v)
  unfolding remove
  remove-Removes v = bind-Gives (Removes v) (validate_removal fs v.root v.path) λ current valid.
      refuse_if-Gives (Removes v) (not (paths_eq current.canonical_root v.canonical_root)) _ λ same.
        done-Gives (Removes v) v.path (record {
          same_path = refl;
          contains =
              subst (Contains fs v.root v.path)
                (paths_eq_lem current.canonical_root v.canonical_root (ground (arith, same)))
                ((validate_removal-IsValidated v.root v.path).gives current valid).contains;
        })

-- What SafeRemove deletes, with a file system that may change between its two checks.
pub record IsSafe (before after : FileSystem) (root path removed : Text) : Type 0 where
  pub same_path : removed ≡ trim_space path
  pub canonical_root : List Text
  pub contained : Contains before root path canonical_root
  pub still_contained : Contains after (trim_space root) (trim_space path) canonical_root

safe_remove-Gives :
    (before after : FileSystem) (root path : Text)
    → Gives (IsSafe before after root path) (safe_remove before after root path)
unfolding safe_remove
safe_remove-Gives before after root path =
    bind-Gives (IsSafe before after root path) (validate_removal before root path) λ v valid.
      let h = (validate_removal-IsValidated before root path).gives v valid in
      record {
        gives = λ removed e.
            let r = (remove-Removes after v).gives removed e in
            record {
              same_path = r.same_path ∙ h.keeps_path;
              canonical_root = v.canonical_root;
              contained = h.contains;
              still_contained =
                  subst (λ t. Contains after t (trim_space path) v.canonical_root) h.keeps_root
                    (subst (λ t. Contains after v.root t v.canonical_root) h.keeps_path r.contains);
            };
      }

-- Whatever SafeRemove deletes is the path that it was given, and at both checks it lies strictly below
-- the root, as both are written and behind all links, with one and the same canonical root, even if the
-- file system changes in between.
pub safe_remove-IsSafe :
    (before after : FileSystem) (root path removed : Text)
    → safe_remove before after root path ≡ done removed
    → IsSafe before after root path removed
safe_remove-IsSafe before after root path removed =
    (safe_remove-Gives before after root path).gives removed
