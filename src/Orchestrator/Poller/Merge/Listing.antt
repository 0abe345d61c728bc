-- ===== src/Orchestrator/Poller/Merge/Listing.antt =====
-- The merged candidates are the issues of the fresh listing, each id once.
use aiops_platform.Common.{
  ◌≡◌, refl, true, false, not, ◌&&◌, ◌||◌, some, List, [], ◌∷◌, ◌++◌, Text, is_empty, if◌then◌else◌,
  arith, Bool-cases, Option-cases, inl, inr, if_intro, contains, contains-append, text_eq,
  text_eq_iff,
}
use aiops_platform.Common.Map.{Map, TextSet, has, insert, lookup, lookup-insert, has-insert}
use mathlib.Core.Path.{subst}
use aiops_platform.Tracker.{Issue}
use aiops_platform.Orchestrator.Poller.Merge.{
  by_id_into, issue_map, carry_over, not_seen, merge_overflow_candidates,
}

abbrev pub issue_ids : List Issue → List Text
issue_ids [] = []
issue_ids (issue ∷ rest) = issue.id ∷ issue_ids rest

-- Every issue of the list satisfies `P`.
abbrev pub AllIssues : (Issue → Type 0) → List Issue → Type 0
AllIssues P [] = Unit {0}
AllIssues P (issue ∷ rest) = P issue × AllIssues P rest

AllIssues-append :
    (P : Issue → Type 0) (l m : List Issue) → AllIssues P l → AllIssues P m → AllIssues P (l ++ m)
AllIssues-append P [] m h k = k
AllIssues-append P (issue ∷ l) m h k = (h.0, AllIssues-append P l m h.1 k)

-- Every issue of the map stands under its own id and satisfies `P`.
pub record IsIndexed (P : Issue → Type 0) (m : Map Issue) : Type 0 where
  pub indexed : (id : Text) (issue : Issue) → lookup id m ≡ some issue → (issue.id ≡ id) × P issue

insert-IsIndexed :
    (P : Issue → Type 0) (m : Map Issue) (issue : Issue)
    → P issue
    → IsIndexed P m
    → IsIndexed P (insert issue.id issue m)
insert-IsIndexed P m issue p h = record {
  indexed = λ id found e. elim (Bool-cases (text_eq issue.id id)) [
    | inl same ↦ of_same id found same (replaced id found same e)
    | inr other ↦ h.indexed id found (kept id found other e)
  ];
}
  where
    replaced :
        (id : Text) (found : Issue)
        → text_eq issue.id id ≡ true
        → lookup id (insert issue.id issue m) ≡ some found
        → issue ≡ found
    replaced id found same e = ground (arith, lookup-insert id issue.id issue m)

    kept :
        (id : Text) (found : Issue)
        → text_eq issue.id id ≡ false
        → lookup id (insert issue.id issue m) ≡ some found
        → lookup id m ≡ some found
    kept id found other e = ground (arith, lookup-insert id issue.id issue m)

    of_same :
        (id : Text) (found : Issue)
        → text_eq issue.id id ≡ true
        → issue ≡ found
        → (found.id ≡ id) × P found
    of_same id found same e = subst (λ i. (i.id ≡ id) × P i) e ((text_eq_iff issue.id id).0 same, p)

by_id-IsIndexed :
    (P : Issue → Type 0) (out : Map Issue) (fresh : List Issue)
    → AllIssues P fresh
    → IsIndexed P out
    → IsIndexed P (by_id_into out fresh)
unfolding by_id_into
by_id-IsIndexed P out [] all h = h
by_id-IsIndexed P out (issue ∷ rest) all h =
    by_id-IsIndexed P (if is_empty issue.id then out else insert issue.id issue out) rest all.1
      (if_intro (IsIndexed P) (is_empty issue.id) h (insert-IsIndexed P out issue all.0 h))

has-by_id :
    (id : Text) (out : Map Issue) (fresh : List Issue)
    → has id (by_id_into out fresh)
      ≡ has id out || (not (is_empty id) && contains id (issue_ids fresh))
unfolding by_id_into contains
has-by_id id out [] = ground arith
has-by_id id out (issue ∷ rest) = ground (
  arith,
  text_eq_iff issue.id id,
  has-insert id issue.id issue out,
  has-by_id id out rest,
  has-by_id id (insert issue.id issue out) rest,
)

pub issue_map-IsIndexed :
    (P : Issue → Type 0) (fresh : List Issue) → AllIssues P fresh → IsIndexed P (issue_map fresh)
unfolding issue_map lookup
issue_map-IsIndexed P fresh all =
    by_id-IsIndexed P [] fresh all (record { indexed = λ id i e. absurd (cc) })

-- What the loop over the overflow does to the ids, and to what holds of the issues.
pub record Carries (P : Issue → Type 0) (m : Map Issue) (seen : TextSet) (overflow : List Issue)
    (r : TextSet × List Issue) : Type 0 where
  pub marks :
      (id : Text) → has id r.0 ≡ has id seen || (has id m && contains id (issue_ids overflow))
  pub carries :
      (id : Text) → contains id (issue_ids r.1) ≡ has id m && contains id (issue_ids overflow)
  pub all : AllIssues P r.1

pub carry_over-Carries :
    (P : Issue → Type 0) (m : Map Issue) (seen : TextSet) (overflow : List Issue)
    → IsIndexed P m
    → Carries P m seen overflow (carry_over m seen overflow)
unfolding carry_over contains
carry_over-Carries P m seen [] h = record {
  marks = λ id. ground arith;
  carries = λ id. ground arith;
  all = tt;
}
carry_over-Carries P m seen (issue ∷ rest) h = elim (Option-cases (lookup issue.id m)) [
  | inl e ↦
      let r = carry_over-Carries P m seen rest h in
      rw (e, carry_over)
        (record {
          marks = λ id. ground (arith, e, r.marks id, text_eq_iff issue.id id);
          carries = λ id. ground (arith, e, r.carries id, text_eq_iff issue.id id);
          all = r.all;
        })
  | inr (found, e) ↦
      let r = carry_over-Carries P m (insert issue.id tt seen) rest h in
      let (same, p) = h.indexed issue.id found e in
      rw (e, carry_over)
        (record {
          marks = λ id.
              ground
                (arith, e, r.marks id, text_eq_iff issue.id id, has-insert id issue.id tt seen);
          carries = λ id.
              ground
                (arith, e, same, r.carries id, text_eq_iff issue.id id, text_eq_iff found.id id);
          all = (p, r.all);
        })
]

not_seen-all :
    (P : Issue → Type 0) (seen : TextSet) (fresh : List Issue)
    → AllIssues P fresh
    → AllIssues P (not_seen seen fresh)
unfolding not_seen
not_seen-all P seen [] h = tt
not_seen-all P seen (issue ∷ rest) h =
    let r = not_seen-all P seen rest h.1 in if_intro (AllIssues P) (has issue.id seen) r (h.0, r)

pub issue_ids-append : (l m : List Issue) → issue_ids (l ++ m) ≡ issue_ids l ++ issue_ids m
issue_ids-append [] m = refl
issue_ids-append (issue ∷ l) m = ground (arith, issue_ids-append l m)

pub contains-not_seen :
    (id : Text) (seen : TextSet) (fresh : List Issue)
    → contains id (issue_ids (not_seen seen fresh))
      ≡ contains id (issue_ids fresh) && not (has id seen)
unfolding not_seen contains
contains-not_seen id seen [] = refl
contains-not_seen id seen (issue ∷ rest) =
    ground (arith, text_eq_iff issue.id id, contains-not_seen id seen rest)

-- `merged` has the ids of `fresh`, and no issue that `fresh` has not.
pub record IsMergeOf (P : Issue → Type 0) (fresh merged : List Issue) : Type 0 where
  pub ids : (id : Text) → contains id (issue_ids merged) ≡ contains id (issue_ids fresh)
  pub all : AllIssues P merged

merge_parts :
    (P : Issue → Type 0) (overflow fresh : List Issue) (r : TextSet × List Issue)
    → AllIssues P fresh
    → Carries P (issue_map fresh) [] overflow r
    → IsMergeOf P fresh (r.1 ++ not_seen r.0 fresh)
unfolding issue_map lookup
merge_parts P overflow fresh r all c = record {
  ids = λ id. rw issue_ids-append (
      ground (
        arith,
        c.marks id,
        c.carries id,
        contains-not_seen id r.0 fresh,
        has-by_id id [] fresh,
        contains-append id (issue_ids r.1) (issue_ids (not_seen r.0 fresh)),
      ));
  all = AllIssues-append P r.1 (not_seen r.0 fresh) c.all (not_seen-all P r.0 fresh all);
}

-- The merge offers exactly the ids of the fresh listing, and what holds of every listed issue holds
-- of every candidate: no stale copy from the overflow is offered.
pub merge_overflow_candidates-IsMergeOf :
    (P : Issue → Type 0) (overflow fresh : List Issue)
    → AllIssues P fresh
    → IsMergeOf P fresh (merge_overflow_candidates overflow fresh)
unfolding merge_overflow_candidates issue_map lookup
merge_overflow_candidates-IsMergeOf P [] fresh all = record { ids = λ id. refl; all = all }
merge_overflow_candidates-IsMergeOf P (issue ∷ rest) fresh all =
    merge_parts P (issue ∷ rest) fresh (carry_over (issue_map fresh) [] (issue ∷ rest)) all
      (carry_over-Carries P (issue_map fresh) [] (issue ∷ rest) (issue_map-IsIndexed P fresh all))
