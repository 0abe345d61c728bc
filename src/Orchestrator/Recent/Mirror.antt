-- ===== src/Orchestrator/Recent/Mirror.antt =====
-- The set of a bounded history and its order hold the same ids, each once, within the cap.
use aiops_platform.Common.{
  ℕ, suc, ◌≤◌, ◌<◌, ◌≡◌, sym, ◌∙◌, List, [], ◌∷◌, ◌++◌, false, Text, text_eq_iff, contains,
  contains_snoc, Distinct, Distinct-snoc, length, length-append, arith,
}
use aiops_platform.Common.Map.{has, insert, has-insert, has-delete}
use aiops_platform.Orchestrator.Types.{RecentSet}
use aiops_platform.Orchestrator.Recent.{evict, record_recent, add_int64}

pub record IsMirrored (limit : ℕ) (r : RecentSet) : Type 0 where
  pub same : (j : Text) → has j r.members ≡ contains j r.order
  pub distinct : Distinct r.order
  pub bounded : 0 < limit → length r.order ≤ limit

-- What `evict` does where the whole list is the order: it is mirrored again, one shorter.
evict-same :
    (r : RecentSet) (xs : List Text) (j : Text)
    → has j r.members ≡ contains j xs
    → Distinct xs
    → r.order ≡ xs
    → has j (evict r xs).members ≡ contains j (evict r xs).order
unfolding evict contains
evict-same r [] j h d e = ground arith
evict-same r (x ∷ xs) j h d e = ground (arith, text_eq_iff x j, has-delete j x r.members)

evict-Distinct :
    (r : RecentSet) (xs : List Text) → Distinct xs → r.order ≡ xs → Distinct (evict r xs).order
unfolding evict
evict-Distinct r [] d e = ground arith
evict-Distinct r (x ∷ xs) d e = d.1

length-evict :
    (r : RecentSet) (xs : List Text) (n : ℕ)
    → length xs ≤ suc n
    → r.order ≡ xs
    → length (evict r xs).order ≤ n
unfolding evict
length-evict r [] n h e = rw e (omega arith)
length-evict r (x ∷ xs) n h e = omega arith

-- The set after the id was added, before any eviction.
added-same :
    (r : RecentSet) (id j : Text)
    → has j r.members ≡ contains j r.order
    → has j (insert id tt r.members) ≡ contains j (r.order ++ id ∷ [])
added-same r id j h = ground (arith, has-insert j id tt r.members, contains_snoc j id r.order)

abbrev added : RecentSet → Text → ℕ → RecentSet
added r id n = record { members = insert id tt r.members; order = r.order ++ id ∷ []; total = n }

module _ (limit : ℕ) (id : Text) (r : RecentSet) (m : IsMirrored limit r) where
  now_added : RecentSet
  now_added = added r id (add_int64 r.total 1)

  now_added-Distinct : has id r.members ≡ false → Distinct now_added.order
  unfolding now_added
  now_added-Distinct new = Distinct-snoc id r.order (sym (m.same id) ∙ new) m.distinct

  -- Recording an id keeps the set and its order in step, each id once, and the order within the cap,
  -- also when it evicts the oldest id.
  pub record_recent-IsMirrored : IsMirrored limit (record_recent limit id r)
  unfolding record_recent now_added
  record_recent-IsMirrored = record {
    same = λ j. ground (
      arith,
      m.same j,
      now_added-Distinct,
      added-same r id j (m.same j),
      evict-same now_added now_added.order j,
    );
    distinct = ground (arith, now_added-Distinct, evict-Distinct now_added now_added.order);
    bounded = λ h. ground (
      arith,
      m.bounded h,
      length-append r.order (id ∷ []),
      length-evict now_added now_added.order limit,
    );
  }
