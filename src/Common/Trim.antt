-- ===== src/Common/Trim.antt =====
-- Trimming a second time changes nothing.
use Prim.Native.Nat.{ℕ}
use mathlib.Core.Path.{◌≡◌, refl}
use mathlib.Core.Logic.{inl, inr}
use mathlib.Core.Bool.{false}
use mathlib.Core.List.{[], ◌∷◌}
use aiops_platform.Common.Tests.{Bool-cases, if◌then◌else◌}
use aiops_platform.Common.Strings.{Text, is_space, trim_left, trim_right, trim_space}

-- A text that starts with a character that is no space, or an empty one.
data IsFlush : Text → Type 0 where
  empty : IsFlush []
  starts : (c : ℕ) (s : Text) → is_space c ≡ false → IsFlush (c ∷ s)

trim_left-IsFlush : (s : Text) → IsFlush (trim_left s)
unfolding trim_left
trim_left-IsFlush [] = empty
trim_left-IsFlush (c ∷ s) = elim (Bool-cases (is_space c)) [
  | inl e ↦ rw e (trim_left-IsFlush s)
  | inr e ↦ rw e (starts c s e)
]

IsFlush-trim_left : {s : Text} → IsFlush s → trim_left s ≡ s
unfolding trim_left
IsFlush-trim_left empty = refl
IsFlush-trim_left (starts c s e) = rw e refl

-- What `trim_right` makes of a character and the trimmed rest.
abbrev joined : ℕ → Text → Text
joined c [] = if is_space c then [] else c ∷ []
joined c (d ∷ t) = c ∷ d ∷ t

trim_right-joined : (c : ℕ) (s : Text) → trim_right (c ∷ s) ≡ joined c (trim_right s)
unfolding trim_right
trim_right-joined c s =
    elim (trim_right s)
      as (λ r.
        (elim r as (λ x. Text) [ [] ↦ if is_space c then [] else c ∷ [] | d ∷ t ↦ c ∷ d ∷ t ])
        ≡ joined c r) [ [] ↦ refl | d ∷ t ↦ refl ]

joined-IsFlush : (c : ℕ) (r : Text) → is_space c ≡ false → IsFlush (joined c r)
joined-IsFlush c [] e = rw e (starts c [] e)
joined-IsFlush c (d ∷ t) e = starts c (d ∷ t) e

trim_right-IsFlush : {s : Text} → IsFlush s → IsFlush (trim_right s)
unfolding trim_right
trim_right-IsFlush empty = empty
trim_right-IsFlush (starts c s e) = rw (trim_right-joined c s) (joined-IsFlush c (trim_right s) e)

trim_right-joined_idem :
    (c : ℕ) (r : Text) → trim_right r ≡ r → trim_right (joined c r) ≡ joined c r
unfolding trim_right
trim_right-joined_idem c [] h = elim (Bool-cases (is_space c)) [
  | inl e ↦ rw e refl
  | inr e ↦ rw (e, e) refl
]
trim_right-joined_idem c (d ∷ t) h = rw (trim_right-joined c (d ∷ t), h) refl

trim_right_nil : trim_right (trim_right []) ≡ trim_right []
unfolding trim_right
trim_right_nil = refl

trim_right_idem : (s : Text) → trim_right (trim_right s) ≡ trim_right s
trim_right_idem [] = trim_right_nil
trim_right_idem (c ∷ s) =
    rw (trim_right-joined c s) (trim_right-joined_idem c (trim_right s) (trim_right_idem s))

pub trim_space_idem : (s : Text) → trim_space (trim_space s) ≡ trim_space s
unfolding trim_space
trim_space_idem s =
    rw (IsFlush-trim_left (trim_right-IsFlush (trim_left-IsFlush s)))
      (trim_right_idem (trim_left s))
