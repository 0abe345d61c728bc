-- ===== src/Workspace/Paths/Relative.antt =====
-- Rel leads down exactly to the paths below its base.
use aiops_platform.Common.{
  ◌≡◌, refl, ap, Bool, true, false, List, [], ◌∷◌, ◌++◌, Text, text_eq, text_eq_iff, text_eq_refl,
  arith, Bool-cases, inl, inr,
}
use aiops_platform.Workspace.Paths.{rel, steps_up, parent_segment, paths_eq}

-- A segment and more behind all of `root`.
pub record IsBelow (root path : List Text) : Type 0 where
  pub first : Text
  pub rest : List Text
  pub extends : path ≡ root ++ first ∷ rest
  pub descends : text_eq first parent_segment ≡ false

-- `true` for `.` and for what starts with `..`.
abbrev pub leads_out : List Text → Bool
leads_out [] = true
leads_out (segment ∷ rest) = text_eq segment parent_segment

pub rel-IsBelow : (root path : List Text) → leads_out (rel root path) ≡ false → IsBelow root path
unfolding rel steps_up
rel-IsBelow [] [] h = cc
rel-IsBelow [] (t ∷ path) h = record { first = t; rest = path; extends = refl; descends = h }
rel-IsBelow (b ∷ root) [] h = absurd (ground (arith, text_eq_refl parent_segment, h))
rel-IsBelow (b ∷ root) (t ∷ path) h = elim (Bool-cases (text_eq b t)) [
  | inl e ↦
      let below = rel-IsBelow root path (rw e at h) in
      record {
        first = below.first;
        rest = below.rest;
        extends = rw ((text_eq_iff b t).0 e) (ap (◌∷◌ t) below.extends);
        descends = below.descends;
      }
  | inr e ↦ absurd (ground (arith, text_eq_refl parent_segment, h, e))
]

pub IsBelow-rel :
    (root rest : List Text) (first : Text) → rel root (root ++ first ∷ rest) ≡ first ∷ rest
unfolding rel
IsBelow-rel [] rest first = refl
IsBelow-rel (b ∷ root) rest first = rw text_eq_refl (IsBelow-rel root rest first)

pub paths_eq-differ :
    (root rest : List Text) (first : Text) → paths_eq root (root ++ first ∷ rest) ≡ false
unfolding paths_eq
paths_eq-differ [] rest first = refl
paths_eq-differ (b ∷ root) rest first = rw text_eq_refl (paths_eq-differ root rest first)

pub paths_eq_lem : (l m : List Text) → paths_eq l m ≡ true → l ≡ m
unfolding paths_eq
paths_eq_lem [] [] h = refl
paths_eq_lem [] (b ∷ m) h = cc
paths_eq_lem (a ∷ l) [] h = cc
paths_eq_lem (a ∷ l) (b ∷ m) h = ground (arith, text_eq_iff a b, paths_eq_lem l m)
