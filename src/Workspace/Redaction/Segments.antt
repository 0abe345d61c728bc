-- ===== src/Workspace/Redaction/Segments.antt =====
-- The segments of an output.
use aiops_platform.Common.{
  ℕ, ◌≡◌, refl, ap, Bool, true, false, ◌||◌, Option, none, some, List, [], ◌∷◌, ◌++◌, Text, arith,
  if◌then◌else◌,
}
use aiops_platform.Workspace.Redaction.{is_break, onto_segment, next_segment}

-- A text whose only break is its last character.
pub data IsSegment : Text → Type 0 where
  ended : (c : ℕ) → is_break c ≡ true → IsSegment (c ∷ [])
  longer : (c : ℕ) (s : Text) → is_break c ≡ false → IsSegment s → IsSegment (c ∷ s)

abbrev pub AllSegments : List Text → Type 0
AllSegments [] = Unit {0}
AllSegments (s ∷ rest) = IsSegment s × AllSegments rest

unfoldable pub has_break : Text → Bool
has_break [] = false
has_break (c ∷ s) = is_break c || has_break s

-- What `next_segment` finds.
pub data IsCut (s : Text) : Option (Text × Text) → Type 0 where
  uncut : has_break s ≡ false → IsCut s none
  cut :
      (segment rest : Text)
      → s ≡ segment ++ rest
      → IsSegment segment
      → IsCut s (some (segment, rest))

onto-IsCut :
    (c : ℕ) {s : Text} {o : Option (Text × Text)}
    → is_break c ≡ false
    → IsCut s o
    → IsCut (c ∷ s) (onto_segment c o)
unfolding has_break
onto-IsCut c e (uncut h) = uncut (ground (arith, e, h))
onto-IsCut c e (cut segment rest h k) = cut (c ∷ segment) rest (ap (◌∷◌ c) h) (longer c segment e k)

pub next_segment-IsCut : (s : Text) → IsCut s (next_segment s)
unfolding next_segment has_break
next_segment-IsCut [] = uncut refl
next_segment-IsCut (c ∷ s) = tested (is_break c) refl (next_segment-IsCut s)
  where
    tested :
        (b : Bool)
        → is_break c ≡ b
        → IsCut s (next_segment s)
        → IsCut (c ∷ s) (if b then some (c ∷ [], s) else onto_segment c (next_segment s))
    tested true e later = cut (c ∷ []) s refl (ended c e)
    tested false e later = onto-IsCut c e later
