-- ===== src/Workspace/Removal/Ancestors.antt =====
-- The walk up to an ancestor that exists ends.
use aiops_platform.Common.{
  ℕ, zero, suc, ◌+◌, ◌-◌, ◌≤◌, ◌<◌, ◌≡◌, ◌≢◌, ◌⊎◌, inl, inr, refl, true, false, List, [], ◌∷◌, ◌++◌,
  Text, text_eq, length, length-append, arith, Bool-cases,
}
use mathlib.Core.Path.{subst}
use aiops_platform.Workspace.Paths.{init, clean_into, clean, raw, dir, base, paths_eq}
use aiops_platform.Workspace.Removal.{
  out_of_fuel, failed, escapes_root, Outcome, done, refused, FileSystem, Evaluated, resolved,
  not_exist, other_error, Stat, symlink, other_file, no_file, stat_error, resolve_with,
  resolve_remove_path, ◌>>=◌, join_base,
}

length-init {ℓ} : {A : Type ℓ} (l : List A) → length (init l) ≡ length l - 1
unfolding init
length-init [] = refl
length-init (x ∷ []) = refl
length-init (x ∷ y ∷ l) = omega (arith, length-init (y ∷ l))

length-clean_into : (out path : List Text) → length (clean_into out path) ≤ length out + length path
unfolding clean_into
length-clean_into out [] = omega arith
length-clean_into out (segment ∷ rest) = ground (
  arith,
  length-init out,
  length-append out (segment ∷ []),
  length-clean_into out rest,
  length-clean_into (init out) rest,
  length-clean_into (out ++ segment ∷ []) rest,
)

-- The measure of the walk: the root is the last directory.
data IsEnough (fuel : ℕ) (path : List Text) : Type 0 where
  above : length path + 1 < fuel → IsEnough fuel path
  at_root : path ≡ [] ∷ [] → 1 ≤ fuel → IsEnough fuel path

length-dir : (path : List Text) → (dir path ≡ [] ∷ []) ⊎ (length (dir path) + 1 ≤ length path)
unfolding dir clean
length-dir path =
    raw_length (clean_into [] (init path))
      (omega (arith, length-clean_into [] (init path), length-init path))
  where
    raw_length :
        (l : List Text)
        → length l ≤ length path - 1
        → (raw l ≡ [] ∷ []) ⊎ (length (raw l) + 1 ≤ length path)
    raw_length [] h = inl refl
    raw_length (x ∷ l) h = inr (omega (arith, h))

record Ends {ℓ} {A : Type ℓ} (r : Outcome A) : Type ℓ where
  pub ends : r ≡ refused out_of_fuel → ⊥

root_stays : paths_eq (dir ([] ∷ [])) ([] ∷ []) ≡ true
unfolding dir clean init clean_into paths_eq text_eq
root_stays = refl

step_up :
    (fuel : ℕ) (path : List Text)
    → IsEnough (suc fuel) path
    → paths_eq (dir path) path ≡ false
    → IsEnough fuel (dir path)
step_up fuel path (at_root e h) differ =
    absurd (ground (arith, root_stays, subst (λ p. paths_eq (dir p) p ≡ false) e differ))
step_up fuel path (above h) differ = elim (length-dir path) [
  | inl e ↦ at_root e (omega (arith, h))
  | inr l ↦ above (omega (arith, h, l))
]

above_Ends :
    (r : Outcome (List Text)) (f : List Text → List Text)
    → Ends r
    → Ends (r >>= λ parent. done (f parent))
above_Ends (done p) f h = record { ends = λ e. cc }
above_Ends (refused e) f h = record { ends = λ k. h.ends (ground (arith, k)) }

evaluated_Ends :
    (v : Evaluated) {missing : Outcome (List Text)}
    → Ends missing
    → Ends (elim v [
      | resolved target ↦ done (clean target)
      | other_error ↦ refused failed
      | not_exist ↦ missing
    ])
evaluated_Ends (resolved target) h = record { ends = λ k. cc }
evaluated_Ends other_error h = record { ends = λ k. cc }
evaluated_Ends not_exist h = h

stat_Ends :
    (w : Stat) {missing : Outcome (List Text)}
    → Ends missing
    → Ends (elim w [
      | symlink ↦ refused escapes_root
      | other_file ↦ refused failed
      | stat_error ↦ refused failed
      | no_file ↦ missing
    ])
stat_Ends symlink h = record { ends = λ k. cc }
stat_Ends other_file h = record { ends = λ k. cc }
stat_Ends stat_error h = record { ends = λ k. cc }
stat_Ends no_file h = h

resolve_with-Ends :
    (fs : FileSystem) (fuel : ℕ) (path : List Text)
    → IsEnough fuel path
    → Ends (resolve_with fs fuel path)
unfolding resolve_with
resolve_with-Ends fs zero path (above h) = absurd (omega (arith, h))
resolve_with-Ends fs zero path (at_root e h) = absurd (omega (arith, h))
resolve_with-Ends fs (suc fuel) path enough = evaluated_Ends (fs.eval_symlinks path) (
    stat_Ends (fs.lstat path) (elim (Bool-cases (paths_eq (dir path) path)) [
      | inl e ↦ rw e (record { ends = λ k. cc })
      | inr e ↦ rw e (
          above_Ends (resolve_with fs fuel (dir path)) (λ parent. join_base parent (base path))
            (resolve_with-Ends fs fuel (dir path) (step_up fuel path enough e)))
    ]))

-- The walk of resolveRemovePath up to an ancestor that exists ends, whatever the file system answers:
-- its fuel of two more than the segments of the path is enough.
pub resolve_remove_path-ends :
    (fs : FileSystem) (path : List Text) → resolve_remove_path fs path ≢ refused out_of_fuel
unfolding resolve_remove_path
resolve_remove_path-ends fs path =
    (resolve_with-Ends fs (length path + 2) path (above (omega arith))).ends
