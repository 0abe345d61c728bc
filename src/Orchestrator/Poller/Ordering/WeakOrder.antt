-- ===== src/Orchestrator/Poller/Ordering/WeakOrder.antt =====
-- The comparison of the candidates is a strict weak order.
use aiops_platform.Common.{
  ℕ, Bool, not, ltb, ◌==◌, if◌then◌else◌, ◌≡◌, refl, true, false, ◌||◌, [], ◌∷◌, Text, text_lt,
  arith,
}
use aiops_platform.Tracker.{Issue}
use aiops_platform.Orchestrator.Poller.Ordering.{
  precedes, by_time, compare_created_at, priority_sort_key,
}

text_lt_asymm : (s t : Text) → text_lt s t ≡ true → text_lt t s ≡ false
unfolding text_lt
text_lt_asymm s [] h = absurd (ground arith)
text_lt_asymm [] (b ∷ t) h = refl
text_lt_asymm (a ∷ s) (b ∷ t) h = ground (arith, text_lt_asymm s t)

pub text_lt_split : (s t u : Text) → text_lt s u ≡ true → text_lt s t || text_lt t u ≡ true
unfolding text_lt
text_lt_split s t [] h = absurd (ground arith)
text_lt_split [] [] (c ∷ u) h = refl
text_lt_split [] (b ∷ t) (c ∷ u) h = refl
text_lt_split (a ∷ s) [] (c ∷ u) h = refl
text_lt_split (a ∷ s) (b ∷ t) (c ∷ u) h = ground (arith, text_lt_split s t u)

-- A comparison by a key and, for equal keys, by the rest of the fields.
abbrev by_priority : ℕ → ℕ → Bool → Bool
by_priority p q rest = if not (p == q) then ltb p q else rest

by_priority_split :
    (p q r : ℕ) (x y z : Bool)
    → (z ≡ true → x || y ≡ true)
    → by_priority p r z ≡ true
    → by_priority p q x || by_priority q r y ≡ true
by_priority_split p q r x y z h k = ground arith

by_time_split :
    (a b c : ℕ) (x y z : Bool)
    → (z ≡ true → x || y ≡ true)
    → by_time (compare_created_at a c) z ≡ true
    → by_time (compare_created_at a b) x || by_time (compare_created_at b c) y ≡ true
unfolding compare_created_at
by_time_split a b c x y z h k = ground arith

by_time_asymm :
    (a b : ℕ) (x y : Bool)
    → (x ≡ true → y ≡ false)
    → by_time (compare_created_at a b) x ≡ true
    → by_time (compare_created_at b a) y ≡ false
unfolding compare_created_at
by_time_asymm a b x y h k = ground arith

pub precedes_asymm : (a b : Issue) → precedes a b ≡ true → precedes b a ≡ false
unfolding precedes
precedes_asymm a b h = ground (
  arith,
  by_time_asymm a.created_at b.created_at (text_lt a.identifier b.identifier)
      (text_lt b.identifier a.identifier) (text_lt_asymm a.identifier b.identifier),
)

pub precedes_split : (a b c : Issue) → precedes a c ≡ true → precedes a b || precedes b c ≡ true
unfolding precedes
precedes_split a b c =
    by_priority_split (priority_sort_key a.priority) (priority_sort_key b.priority)
      (priority_sort_key c.priority) (by_time (compare_created_at a.created_at b.created_at) ab)
      (by_time (compare_created_at b.created_at c.created_at) bc)
      (by_time (compare_created_at a.created_at c.created_at) ac)
      (by_time_split a.created_at b.created_at c.created_at ab bc ac
        (text_lt_split a.identifier b.identifier c.identifier))
  where
    ab : Bool
    ab = text_lt a.identifier b.identifier

    bc : Bool
    bc = text_lt b.identifier c.identifier

    ac : Bool
    ac = text_lt a.identifier c.identifier
