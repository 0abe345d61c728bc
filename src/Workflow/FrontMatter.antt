-- ===== src/Workflow/FrontMatter.antt =====
-- internal/workflow/frontmatter.go: the block of settings at the start of a workflow file.
pub mod Lines
pub mod Parts
pub mod Printed
use aiops_platform.Common.{
  ℕ, Bool, true, false, not, ◌&&◌, ◌||◌, ◌==◌, Option, none, some, List, [], ◌∷◌, ◌++◌, Text,
  text_eq, codes, is_some, if◌then◌else◌,
}

-- The newline and the carriage return.
abbrev pub newline : ℕ
newline = 10

abbrev pub carriage_return : ℕ
carriage_return = 13

abbrev pub dashes : Text
dashes = codes "---"

abbrev pub lf_fence : Text
lf_fence = dashes ++ newline ∷ []

abbrev pub crlf_fence : Text
crlf_fence = dashes ++ carriage_return ∷ newline ∷ []

-- What stands behind a prefix.
unfoldable pub behind : Text → Text → Option Text
behind [] s = some s
behind (p ∷ prefix) [] = none
behind (p ∷ prefix) (c ∷ s) = let rest = behind prefix s in if p == c then rest else none

abbrev pub has_prefix : Text → Text → Bool
has_prefix s prefix = is_some (behind prefix s)

abbrev pub rest_or_all : Text → Option Text → Text
rest_or_all s none = s
rest_or_all s (some rest) = rest

abbrev pub trim_prefix : Text → Text → Text
trim_prefix s prefix = rest_or_all s (behind prefix s)

-- strings.SplitAfter by a newline: a text that ends in one has an empty last line.
abbrev pub onto_lines : ℕ → List Text → List Text
onto_lines c [] = []
onto_lines c (line ∷ rest) = if c == newline then (c ∷ []) ∷ line ∷ rest else (c ∷ line) ∷ rest

unfoldable pub split_after_newlines : Text → List Text
split_after_newlines [] = [] ∷ []
split_after_newlines (c ∷ s) = onto_lines c (split_after_newlines s)

-- strings.Join with nothing between.
unfoldable pub join : List Text → Text
join [] = []
join (line ∷ rest) = line ++ join rest

-- strings.TrimRight of both characters of a line's end.
abbrev pub trim_onto : ℕ → Text → Text
trim_onto c [] = if c == newline || c == carriage_return then [] else c ∷ []
trim_onto c (d ∷ s) = c ∷ d ∷ s

unfoldable pub trim_line_end : Text → Text
trim_line_end [] = []
trim_line_end (c ∷ s) = trim_onto c (trim_line_end s)

unfoldable pub is_fence : Text → Bool
unfolding text_eq trim_line_end
is_fence line = text_eq (trim_line_end line) dashes

-- The loop over the lines; `front` is what the builder holds.
unfoldable pub scan_lines : Text → List Text → Option (Text × Text)
unfolding join is_fence
scan_lines front [] = none
scan_lines front (line ∷ rest) =
    let later = scan_lines (front ++ line) rest in
    if is_fence line then some (front, join rest) else later

abbrev pub parts_or_all : Text → Option (Text × Text) → Text × Text
parts_or_all s none = ([], s)
parts_or_all s (some parts) = parts

unfoldable pub split_front_matter : Text → Text × Text
split_front_matter s =
    if not (has_prefix s lf_fence) && not (has_prefix s crlf_fence)
    then ([], s)
    else parts_or_all s
        (scan_lines [] (split_after_newlines (trim_prefix (trim_prefix s crlf_fence) lf_fence)))
