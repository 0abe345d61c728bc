-- ===== src/Common/Map.antt =====
-- Go maps keyed by strings, as association lists. `insert` writes `m[k] = v`, `delete` is Go's.
use aiops_platform.Common.Tests.{if◌then◌else◌, is_some, length}
use aiops_platform.Common.Strings.{Text, text_eq, text_eq_iff}
use Prim.Native.Nat.{suc}
use mathlib.Core.Path.{◌≡◌, refl}
use mathlib.Core.Bool.{Bool, false, not, ◌&&◌, ◌||◌}
use mathlib.Core.Option.{Option, none, some}
use mathlib.Core.List.{List, [], ◌∷◌, map}
use native.Mathlib.Omega.{arith}

abbrev pub Map {ℓ} : Type ℓ → Type ℓ
Map V = List (Text × V)

-- map[K]struct{}
abbrev pub TextSet : Type 0
TextSet = Map (Unit {0})

module _ {ℓ} {V : Type ℓ} where
  unfoldable pub lookup : Text → Map V → Option V
  lookup k [] = none
  lookup k ((j, v) ∷ m) = if text_eq j k then some v else lookup k m

  abbrev pub has : Text → Map V → Bool
  has k m = is_some (lookup k m)

  unfoldable pub insert : Text → V → Map V → Map V
  insert k v [] = (k, v) ∷ []
  insert k v ((j, w) ∷ m) = if text_eq j k then (k, v) ∷ m else (j, w) ∷ insert k v m

  unfoldable pub delete : Text → Map V → Map V
  delete k [] = []
  delete k ((j, v) ∷ m) = let rest = delete k m in if text_eq j k then rest else (j, v) ∷ rest

  unfoldable pub keys : Map V → List Text
  keys m = map (λ e. e.0) m

  -- No key stands twice, which holds of every map that the program builds.
  abbrev pub UniqueKeys : Map V → Type 0
  UniqueKeys [] = Unit {0}
  UniqueKeys ((k, v) ∷ m) = (has k m ≡ false) × UniqueKeys m

  pub lookup-insert :
      (j k : Text) (v : V) (m : Map V)
      → lookup j (insert k v m) ≡ (if text_eq k j then some v else lookup j m)
  unfolding lookup insert
  lookup-insert j k v [] = refl
  lookup-insert j k v ((i, w) ∷ m) =
      ground (arith, text_eq_iff k j, text_eq_iff i k, text_eq_iff i j, lookup-insert j k v m)

  pub lookup-delete :
      (j k : Text) (m : Map V) → lookup j (delete k m) ≡ (if text_eq k j then none else lookup j m)
  unfolding lookup delete
  lookup-delete j k [] = ground arith
  lookup-delete j k ((i, w) ∷ m) =
      ground (arith, text_eq_iff k j, text_eq_iff i k, text_eq_iff i j, lookup-delete j k m)

  pub has-insert : (j k : Text) (v : V) (m : Map V) → has j (insert k v m) ≡ text_eq k j || has j m
  has-insert j k v m = rw lookup-insert (ground arith)

  pub has-delete : (j k : Text) (m : Map V) → has j (delete k m) ≡ not (text_eq k j) && has j m
  has-delete j k m = rw lookup-delete (ground arith)

  pub length-insert :
      (k : Text) (v : V) (m : Map V)
      → length (insert k v m) ≡ (if has k m then length m else suc (length m))
  unfolding lookup insert
  length-insert k v [] = refl
  length-insert k v ((i, w) ∷ m) = ground (arith, length-insert k v m)

  pub delete_absent : (k : Text) (m : Map V) → has k m ≡ false → delete k m ≡ m
  unfolding lookup delete
  delete_absent k [] h = refl
  delete_absent k ((i, w) ∷ m) h = ground (arith, delete_absent k m)

  pub length-delete :
      (k : Text) (m : Map V)
      → UniqueKeys m
      → length m ≡ (if has k m then suc (length (delete k m)) else length (delete k m))
  unfolding lookup delete
  length-delete k [] u = refl
  length-delete k ((i, w) ∷ m) u =
      ground (arith, text_eq_iff i k, delete_absent k m, length-delete k m u.1)

  pub insert-UniqueKeys : (k : Text) (v : V) (m : Map V) → UniqueKeys m → UniqueKeys (insert k v m)
  unfolding insert lookup
  insert-UniqueKeys k v [] u = ground arith
  insert-UniqueKeys k v ((i, w) ∷ m) u =
      ground
        (arith, text_eq_iff i k, text_eq_iff k i, has-insert i k v m, insert-UniqueKeys k v m u.1)

  pub delete-UniqueKeys : (k : Text) (m : Map V) → UniqueKeys m → UniqueKeys (delete k m)
  unfolding delete
  delete-UniqueKeys k [] u = tt
  delete-UniqueKeys k ((i, w) ∷ m) u = ground (arith, has-delete i k m, delete-UniqueKeys k m u.1)
