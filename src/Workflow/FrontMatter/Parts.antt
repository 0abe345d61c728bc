-- ===== src/Workflow/FrontMatter/Parts.antt =====
-- The parts of a workflow file.
use aiops_platform.Common.{◌≡◌, true, false, Option, none, some, List, [], ◌∷◌, ◌++◌, Text, arith}
use aiops_platform.Workflow.FrontMatter.{
  lf_fence, crlf_fence, behind, has_prefix, split_after_newlines, join, is_fence,
}

pub behind-append : (prefix s rest : Text) → behind prefix s ≡ some rest → s ≡ prefix ++ rest
unfolding behind
behind-append [] s rest h = cc
behind-append (p ∷ prefix) [] rest h = cc
behind-append (p ∷ prefix) (c ∷ s) rest h = ground (arith, behind-append prefix s rest, h)

-- None of the lines closes the block.
abbrev pub Plain : List Text → Type 0
Plain [] = Unit {0}
Plain (line ∷ rest) = (is_fence line ≡ false) × Plain rest

-- The first fence among the lines, behind `front`.
data IsScanned (front : Text) (lines : List Text) : Option (Text × Text) → Type 0 where
  open_ended : Plain lines → IsScanned front lines none
  closed :
      (before after : List Text) (fence : Text)
      → lines ≡ before ++ fence ∷ after
      → Plain before
      → is_fence fence ≡ true
      → IsScanned front lines (some (front ++ join before, join after))

-- What stands before the block: a fence; or a CRLF fence and an LF fence right behind it, of which the
-- second is trimmed away too, though it closes an empty block.
pub data IsOpening : Text → Type 0 where
  lf_opening : IsOpening lf_fence
  crlf_opening : IsOpening crlf_fence
  swallowed_opening : IsOpening (crlf_fence ++ lf_fence)

record Opened (s rest : Text) : Type 0 where
  pub opening : Text
  pub is_opening : IsOpening opening
  pub extends : s ≡ opening ++ rest

-- How a workflow file `s` falls into the settings and the prompt.
pub data IsSplit (s : Text) : Text × Text → Type 0 where
  unopened : has_prefix s lf_fence ≡ false → has_prefix s crlf_fence ≡ false → IsSplit s ([], s)
  unclosed :
      (opening rest : Text)
      → IsOpening opening
      → s ≡ opening ++ rest
      → Plain (split_after_newlines rest)
      → IsSplit s ([], s)
  fenced :
      (opening rest fence : Text) (before after : List Text)
      → IsOpening opening
      → s ≡ opening ++ rest
      → rest ≡ join before ++ (fence ++ join after)
      → split_after_newlines rest ≡ before ++ fence ∷ after
      → Plain before
      → is_fence fence ≡ true
      → IsSplit s (join before, join after)
