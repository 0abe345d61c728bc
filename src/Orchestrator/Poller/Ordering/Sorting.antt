-- ===== src/Orchestrator/Poller/Ordering/Sorting.antt =====
-- The sorted candidates: in order, a rearrangement, and equal ones in the order of the listing.
use aiops_platform.Common.{
  ℕ, ◌≡◌, ◌≤◌, refl, ◌∙◌, ltb, ◌==◌, ◌||◌, text_lt, Bool, true, false, not, ◌&&◌, List, [], ◌∷◌,
  arith, Bool-cases, if◌then◌else◌, inl, inr,
}
use mathlib.Core.List.{forall_mem-cons, Mem, Perm, Pairwise, Pairwise-singleton}
use mathlib.Core.List.Perm
use mathlib.Core.List.Pairwise
use mathlib.Core.Path.{subst}
use aiops_platform.Tracker.{Issue}
use aiops_platform.Orchestrator.Poller.Ordering.{
  priority_sort_key, compare_created_at, by_time, precedes, place, sort_candidates,
}
use aiops_platform.Orchestrator.Poller.Ordering.WeakOrder.{precedes_asymm, precedes_split}

-- `b` may stand after `a`.
abbrev pub MayFollow : Issue → Issue → Type 0
MayFollow a b = precedes b a ≡ false

-- No issue precedes one that stands before it.
abbrev pub IsOrdered : List Issue → Type 0
IsOrdered = Pairwise MayFollow

-- The priorities 1 to 4 are set, and any other is not.
abbrev pub is_set : ℕ → Bool
is_set p = ltb 0 p && ltb p 5

-- Equal priorities, or none set in either.
abbrev pub is_as_urgent : Issue → Issue → Bool
is_as_urgent a b = a.priority == b.priority || not (is_set a.priority) && not (is_set b.priority)

-- As urgent, as old, and with identifiers of which neither is the smaller one.
unfoldable pub is_tied : Issue → Issue → Bool
is_tied a b =
    is_as_urgent a b
    && a.created_at == b.created_at
    && not (text_lt a.identifier b.identifier)
    && not (text_lt b.identifier a.identifier)

-- What it means that `b` stands behind `a`: a set priority stands before a greater one and before those
-- that are not set; among equally urgent issues a known time of creation, which is not 0, stands before a
-- later one and before unknown ones, and at the same time the smaller identifier stands first.
pub record StandsBehind (a b : Issue) : Type 0 where
  pub urgent : is_set b.priority ≡ true → (is_set a.priority ≡ true) × (a.priority ≤ b.priority)
  pub older :
      is_as_urgent a b ≡ true
      → 1 ≤ b.created_at
      → (1 ≤ a.created_at) × (a.created_at ≤ b.created_at)
  pub named :
      is_as_urgent a b ≡ true
      → a.created_at ≡ b.created_at
      → text_lt b.identifier a.identifier ≡ false

tied-compared :
    (p q c d : ℕ) (x y : Bool)
    → (p == q || not (is_set p) && not (is_set q)) && c == d && not x && not y
      ≡ not (
          if not (priority_sort_key p == priority_sort_key q)
          then ltb (priority_sort_key p) (priority_sort_key q)
          else by_time (compare_created_at c d) x)
        && not (
            if not (priority_sort_key q == priority_sort_key p)
            then ltb (priority_sort_key q) (priority_sort_key p)
            else by_time (compare_created_at d c) y)
unfolding priority_sort_key compare_created_at
tied-compared p q c d x y = ground arith

-- Issues tie exactly if neither precedes the other.
tied-precedes : (a b : Issue) → is_tied a b ≡ not (precedes a b) && not (precedes b a)
unfolding is_tied precedes
tied-precedes a b =
    tied-compared a.priority b.priority a.created_at b.created_at
      (text_lt a.identifier b.identifier) (text_lt b.identifier a.identifier)

urgent-of_key :
    (p q : ℕ) (rest : Bool)
    → (if not (priority_sort_key q == priority_sort_key p)
        then ltb (priority_sort_key q) (priority_sort_key p)
        else rest)
      ≡ false
    → is_set q ≡ true
    → (is_set p ≡ true) × (p ≤ q)
unfolding priority_sort_key
urgent-of_key p q rest h set = ground (arith, h, set)

same-key :
    (p q : ℕ)
    → p == q || not (is_set p) && not (is_set q) ≡ true
    → priority_sort_key q == priority_sort_key p ≡ true
unfolding priority_sort_key
same-key p q h = ground (arith, h)

older-of_time :
    (a b : ℕ) (rest : Bool)
    → by_time (compare_created_at b a) rest ≡ false
    → 1 ≤ b
    → (1 ≤ a) × (a ≤ b)
unfolding compare_created_at
older-of_time a b rest h known = ground (arith, h, known)

named-of_time : (a : ℕ) (rest : Bool) → by_time (compare_created_at a a) rest ≡ false → rest ≡ false
unfolding compare_created_at
named-of_time a rest h = ground (arith, h)

MayFollow-timed :
    (a b : Issue)
    → MayFollow a b
    → is_as_urgent a b ≡ true
    → by_time (compare_created_at b.created_at a.created_at) (text_lt b.identifier a.identifier)
      ≡ false
unfolding precedes
MayFollow-timed a b h same = ground (arith, h, same-key a.priority b.priority same)

MayFollow-StandsBehind : (a b : Issue) → MayFollow a b → StandsBehind a b
unfolding precedes
MayFollow-StandsBehind a b h = record {
  urgent = urgent-of_key a.priority b.priority _ h;
  older = λ same. older-of_time a.created_at b.created_at _ (MayFollow-timed a b h same);
  named = λ same time. named-of_time b.created_at _ (
      subst
        (λ t.
          by_time (compare_created_at b.created_at t) (text_lt b.identifier a.identifier) ≡ false)
        time (MayFollow-timed a b h same));
}

-- The issues that tie with `a`, in their order.
unfoldable pub tied_with : Issue → List Issue → List Issue
unfolding is_tied
tied_with a [] = []
tied_with a (b ∷ rest) = let tied = tied_with a rest in if is_tied a b then b ∷ tied else tied

MayFollow-trans : (a b c : Issue) → MayFollow a b → MayFollow b c → MayFollow a c
MayFollow-trans a b c h k = ground (arith, precedes_split c b a)

MayFollow-of_precedes : (a b : Issue) → precedes a b ≡ true → MayFollow a b
MayFollow-of_precedes a b h = precedes_asymm a b h

place-perm : (a : Issue) (l : List Issue) → Perm (place a l) (a ∷ l)
unfolding place
place-perm a [] = Perm.rfl
place-perm a (b ∷ l) = elim (Bool-cases (precedes b a)) [
  | inl h ↦ rw h (Perm.trans (Perm.cons b (place-perm a l)) (Perm.swap a b l))
  | inr h ↦ rw h Perm.rfl
]

MayFollow-all :
    (a b : Issue) (l : List Issue)
    → MayFollow a b
    → ((c : Issue) → Mem c l → MayFollow b c)
    → (c : Issue) → Mem c (b ∷ l)
    → MayFollow a c
MayFollow-all a b l h below =
    (forall_mem-cons (λ c. hlevel)).1 (h, λ c m. MayFollow-trans a b c h (below c m))

place-IsOrdered : (a : Issue) {l : List Issue} → IsOrdered l → IsOrdered (place a l)
unfolding place
place-IsOrdered a Pairwise.nil = Pairwise-singleton _ a
place-IsOrdered a (Pairwise.cons {a = b} {l = l} below s) = elim (Bool-cases (precedes b a)) [
  | inl h ↦
      rw h (
        Pairwise.cons (λ c m. after h c ((Perm.mem_iff (place-perm a l)).0 m))
          (place-IsOrdered a s))
  | inr h ↦ rw h (Pairwise.cons (MayFollow-all a b l h below) (Pairwise.cons below s))
]
  where
    after : precedes b a ≡ true → (c : Issue) → Mem c (a ∷ l) → MayFollow b c
    after h = (forall_mem-cons (λ c. hlevel)).1 (MayFollow-of_precedes b a h, below)

place-tied : (z a : Issue) (l : List Issue) → tied_with z (place a l) ≡ tied_with z (a ∷ l)
unfolding place tied_with
place-tied z a [] = refl
place-tied z a (b ∷ l) = ground (
  arith,
  place-tied z a l,
  tied-precedes z a,
  tied-precedes z b,
  precedes_split b z a,
  precedes_split a z b,
)

tied_with_cons :
    (z a : Issue) (l m : List Issue)
    → tied_with z l ≡ tied_with z m
    → tied_with z (a ∷ l) ≡ tied_with z (a ∷ m)
unfolding tied_with
tied_with_cons z a l m h = ground arith

pub record IsStableSortOf (l sorted : List Issue) : Type 0 where
  pub ordered : Pairwise StandsBehind sorted
  pub rearranged : Perm sorted l
  pub stable : (a : Issue) → tied_with a sorted ≡ tied_with a l

sorted-IsOrdered : (l : List Issue) → IsOrdered (sort_candidates l)
unfolding sort_candidates
sorted-IsOrdered [] = Pairwise.nil
sorted-IsOrdered (a ∷ l) = place-IsOrdered a (sorted-IsOrdered l)

sorted-perm : (l : List Issue) → Perm (sort_candidates l) l
unfolding sort_candidates
sorted-perm [] = Perm.rfl
sorted-perm (a ∷ l) = Perm.trans (place-perm a (sort_candidates l)) (Perm.cons a (sorted-perm l))

sorted-stable : (z : Issue) (l : List Issue) → tied_with z (sort_candidates l) ≡ tied_with z l
unfolding sort_candidates
sorted-stable z [] = refl
sorted-stable z (a ∷ l) =
    place-tied z a (sort_candidates l) ∙ tied_with_cons z a _ _ (sorted-stable z l)

-- The candidates are rearranged only, and stand in order: set priorities first, the smaller ones before the
-- greater ones; among equally urgent ones the older ones, and those of unknown age last; at the same age the
-- smaller identifiers. Issues that tie in all three keep the order of the listing.
pub sort_candidates-IsStableSortOf : (l : List Issue) → IsStableSortOf l (sort_candidates l)
sort_candidates-IsStableSortOf l = record {
  ordered =
      Pairwise.imp {R = MayFollow} {S = StandsBehind} MayFollow-StandsBehind (sorted-IsOrdered l);
  rearranged = sorted-perm l;
  stable = λ z. sorted-stable z l;
}
