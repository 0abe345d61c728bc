-- ===== src/Workspace/Paths.antt =====
-- What internal/workspace uses of the package path/filepath, on a Unix system. An absolute path is the
-- list of the segments behind its first slash: `/a//b/` is `a`, an empty one, `b` and an empty one,
-- and `/` is one empty segment. A clean path has no empty segment, no `.` and no `..`, and `/` has none
-- at all.
pub mod Relative
use aiops_platform.Common.{
  Bool, true, false, ◌||◌, Option, none, some, List, [], ◌∷◌, ◌++◌, Text, is_empty, text_eq, ◌==◌,
  codes, if◌then◌else◌,
}

-- strings.Split by a slash.
unfoldable pub split_slashes : Text → List Text
split_slashes [] = [] ∷ []
split_slashes (c ∷ s) = elim (split_slashes s) [
  | [] ↦ []
  | segment ∷ rest ↦ if c == b'/' then [] ∷ segment ∷ rest else (c ∷ segment) ∷ rest
]

-- IsAbs, with the segments of the path.
unfoldable pub absolute : Text → Option (List Text)
unfolding split_slashes
absolute [] = none
absolute (c ∷ s) = if c == b'/' then some (split_slashes s) else none

abbrev pub parent_segment : Text
parent_segment = codes ".."

-- All but the last element.
unfoldable pub init {ℓ} : {A : Type ℓ} → List A → List A
init [] = []
init (x ∷ []) = []
init (x ∷ y ∷ xs) = x ∷ init (y ∷ xs)

-- Clean, from the left: `out` is what is clean so far.
unfoldable pub clean_into : List Text → List Text → List Text
unfolding init
clean_into out [] = out
clean_into out (segment ∷ rest) =
    clean_into
      (if is_empty segment || text_eq segment (codes ".")
        then out
        else if text_eq segment parent_segment
        then init out
        else out ++ segment ∷ [])
      rest

unfoldable pub clean : List Text → List Text
unfolding clean_into
clean path = clean_into [] path

-- A clean path as an argument of another call.
abbrev pub raw : List Text → List Text
raw [] = [] ∷ []
raw (segment ∷ rest) = segment ∷ rest

-- Dir.
unfoldable pub dir : List Text → List Text
unfolding clean init
dir path = raw (clean (init path))

-- Base: the last segment that is not empty; of slashes alone it is an empty one, where Go has `/`.
unfoldable pub base : List Text → Text
base [] = []
base (segment ∷ rest) = let later = base rest in if is_empty later then segment else later

unfoldable pub paths_eq : List Text → List Text → Bool
paths_eq [] [] = true
paths_eq (a ∷ l) (b ∷ m) = if text_eq a b then paths_eq l m else false
paths_eq [] (b ∷ m) = false
paths_eq (a ∷ l) [] = false

-- One step up for each segment that is left of the base.
unfoldable pub steps_up : List Text → List Text
steps_up [] = []
steps_up (segment ∷ rest) = parent_segment ∷ steps_up rest

-- Rel between clean paths; `.` is no segment.
unfoldable pub rel : List Text → List Text → List Text
unfolding steps_up
rel [] target = target
rel (b ∷ base) [] = steps_up (b ∷ base)
rel (b ∷ base) (t ∷ target) =
    let below = rel base target in if text_eq b t then below else steps_up (b ∷ base) ++ t ∷ target
