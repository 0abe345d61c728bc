-- ===== src/Common/Lists.antt =====
-- Membership in lists of texts, and the last elements of a list.
use Prim.Native.Nat.{ℕ, ◌-◌, ◌≤◌}
use mathlib.Core.Path.{◌≡◌, refl}
use mathlib.Core.Bool.{Bool, false, ◌||◌, ◌&&◌}
use mathlib.Core.List.{List, [], ◌∷◌, ◌++◌}
use native.Mathlib.Omega.{arith}
use aiops_platform.Common.Tests.{length, drop, length-drop}
use aiops_platform.Common.Strings.{Text, text_eq, text_eq_iff}

unfoldable pub contains : Text → List Text → Bool
contains j [] = false
contains j (x ∷ xs) = text_eq x j || contains j xs

-- No text stands twice.
abbrev pub Distinct : List Text → Type 0
Distinct [] = Unit {0}
Distinct (x ∷ xs) = (contains x xs ≡ false) × Distinct xs

pub contains-append :
    (j : Text) (xs ys : List Text) → contains j (xs ++ ys) ≡ contains j xs || contains j ys
unfolding contains
contains-append j [] ys = refl
contains-append j (x ∷ xs) ys = ground (arith, contains-append j xs ys)

pub contains_snoc :
    (j k : Text) (xs : List Text) → contains j (xs ++ k ∷ []) ≡ contains j xs || text_eq k j
unfolding contains
contains_snoc j k xs = ground (arith, contains-append j xs (k ∷ []))

pub Distinct-snoc :
    (k : Text) (xs : List Text) → contains k xs ≡ false → Distinct xs → Distinct (xs ++ k ∷ [])
unfolding contains
Distinct-snoc k [] h d = ground arith
Distinct-snoc k (x ∷ xs) h d =
    ground (arith, text_eq_iff x k, text_eq_iff k x, contains_snoc x k xs, Distinct-snoc k xs)

-- `xs[len(xs)-n:]`, and all of a shorter list.
module _ {ℓ} {A : Type ℓ} where
  abbrev pub take_last : ℕ → List A → List A
  take_last n xs = drop (length xs - n) xs

  pub length-take_last : (n : ℕ) (xs : List A) → length (take_last n xs) ≤ n
  length-take_last n xs = omega (arith, length-drop (length xs - n) xs)

pub Distinct-append :
    (xs ys : List Text)
    → Distinct xs
    → Distinct ys
    → ((k : Text) → contains k xs && contains k ys ≡ false)
    → Distinct (xs ++ ys)
unfolding contains
Distinct-append [] ys d e apart = e
Distinct-append (x ∷ xs) ys d e apart = (
  ground (arith, contains-append x xs ys, text_eq_iff x x, apart x, d.0),
  Distinct-append xs ys d.1 e λ k. ground (arith, apart k),
)
