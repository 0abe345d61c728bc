-- ===== src/Orchestrator/OperatorStop/Latch.antt =====
-- The latch set and its order hold the same ids, each once, within the cap; a new latch stands.
use aiops_platform.Common.{
  ◌||◌, inr, is_some, ap, inl, Option-cases, refl, text_eq_refl, length-append, ◌∙◌, sym, true,
  Distinct-snoc, contains_snoc, false, ◌++◌, ℕ, suc, ◌≤◌, ◌<◌, ◌≡◌, List, [], ◌∷◌, Text,
  text_eq_iff, contains, Distinct, length, arith,
}
use aiops_platform.Common.Map.{lookup, has-insert, insert, has, has-delete}
use aiops_platform.Orchestrator.Types.{OperatorTerminalStopEntry, OrchestratorState}
use aiops_platform.Orchestrator.OperatorStop.{
  is_operator_terminal_stopped, record_operator_terminal_stop, add_stop, evict_stop,
}
use aiops_platform.Orchestrator.Recent.{add_int64}
use aiops_platform.Tracker.{Issue}

pub record IsLatched (s : OrchestratorState) : Type 0 where
  pub same :
      (j : Text) → has j s.operator_terminal_stops ≡ contains j s.operator_terminal_stop_order
  pub distinct : Distinct s.operator_terminal_stop_order
  pub bounded :
      0 < s.max_recent_operator_terminal_stops
      → length s.operator_terminal_stop_order ≤ s.max_recent_operator_terminal_stops

evict_stop-same :
    (s : OrchestratorState) (xs : List Text) (j : Text)
    → s.operator_terminal_stop_order ≡ xs
    → has j s.operator_terminal_stops ≡ contains j xs
    → Distinct xs
    → has j (evict_stop s xs).operator_terminal_stops
      ≡ contains j (evict_stop s xs).operator_terminal_stop_order
unfolding evict_stop contains
evict_stop-same s [] j e h d = ground arith
evict_stop-same s (x ∷ xs) j e h d =
    ground (arith, text_eq_iff x j, has-delete j x s.operator_terminal_stops)

evict_stop-Distinct :
    (s : OrchestratorState) (xs : List Text)
    → s.operator_terminal_stop_order ≡ xs
    → Distinct xs
    → Distinct (evict_stop s xs).operator_terminal_stop_order
unfolding evict_stop
evict_stop-Distinct s [] e d = ground arith
evict_stop-Distinct s (x ∷ xs) e d = d.1

length-evict_stop :
    (s : OrchestratorState) (xs : List Text) (n : ℕ)
    → s.operator_terminal_stop_order ≡ xs
    → length xs ≤ suc n
    → length (evict_stop s xs).operator_terminal_stop_order ≤ n
unfolding evict_stop
length-evict_stop s [] n e h = rw e (omega arith)
length-evict_stop s (x ∷ xs) n e h = omega arith

evict_stop-max :
    (s : OrchestratorState) (xs : List Text)
    → (evict_stop s xs).max_recent_operator_terminal_stops ≡ s.max_recent_operator_terminal_stops
unfolding evict_stop
evict_stop-max s [] = refl
evict_stop-max s (x ∷ xs) = refl

-- The oldest of several latches is not the one that was added last.
evict_stop-has :
    (s : OrchestratorState) (ys : List Text) (id : Text)
    → has id s.operator_terminal_stops ≡ true
    → contains id ys ≡ false
    → 1 < length (ys ++ id ∷ [])
    → has id (evict_stop s (ys ++ id ∷ [])).operator_terminal_stops ≡ true
unfolding evict_stop contains
evict_stop-has s [] id h new long = absurd (omega arith)
evict_stop-has s (x ∷ ys) id h new long = ground (arith, has-delete id x s.operator_terminal_stops)

module _ (s : OrchestratorState) (l : IsLatched s) (id : Text)
    (entry : OperatorTerminalStopEntry) where
  abbrev order_added : List Text
  order_added = s.operator_terminal_stop_order ++ id ∷ []

  latched : OrchestratorState
  latched = record s {
    operator_terminal_stops = insert id entry s.operator_terminal_stops;
    operator_terminal_stop_order = order_added;
    cumulative_operator_terminal_stops_total =
        add_int64 s.cumulative_operator_terminal_stops_total 1;
  }

  latched-same : (j : Text) → has j latched.operator_terminal_stops ≡ contains j order_added
  unfolding latched
  latched-same j = ground (
    arith,
    l.same j,
    has-insert j id entry s.operator_terminal_stops,
    contains_snoc j id s.operator_terminal_stop_order,
  )

  latched-Distinct : has id s.operator_terminal_stops ≡ false → Distinct order_added
  latched-Distinct new =
      Distinct-snoc id s.operator_terminal_stop_order (sym (l.same id) ∙ new) l.distinct

  add_stop-IsLatched : has id s.operator_terminal_stops ≡ false → IsLatched (add_stop id entry s)
  unfolding add_stop latched
  add_stop-IsLatched new = record {
    same = λ j.
        ground
          (arith, latched-Distinct new, latched-same j, evict_stop-same latched order_added j refl);
    distinct = ground (arith, latched-Distinct new, evict_stop-Distinct latched order_added refl);
    bounded = λ h. ground (
      arith,
      l.bounded,
      length-append s.operator_terminal_stop_order (id ∷ []),
      evict_stop-max latched order_added,
      length-evict_stop latched order_added s.max_recent_operator_terminal_stops refl,
    );
  }

  -- A new latch is never the one that the cap evicts.
  add_stop-has :
      has id s.operator_terminal_stops ≡ false
      → has id (add_stop id entry s).operator_terminal_stops ≡ true
  unfolding add_stop latched
  add_stop-has new = ground (
    arith,
    text_eq_refl id,
    l.same id,
    has-insert id id entry s.operator_terminal_stops,
    length-append s.operator_terminal_stop_order (id ∷ []),
    evict_stop-has latched s.operator_terminal_stop_order id,
  )

-- A repeated observation changes a latch in place.
refreshed-IsLatched :
    (s : OrchestratorState) (id : Text) (entry : OperatorTerminalStopEntry)
    → has id s.operator_terminal_stops ≡ true
    → IsLatched s
    → IsLatched (record s { operator_terminal_stops = insert id entry s.operator_terminal_stops })
refreshed-IsLatched s id entry old l = record {
  same = λ j.
      ground (arith, l.same j, text_eq_iff id j, has-insert j id entry s.operator_terminal_stops);
  distinct = l.distinct;
  bounded = l.bounded;
}

-- An observed operator stop keeps the latch set and its order in step, each id once and within the
-- cap, and the issue is latched afterwards, whether the observation is new or repeated and also
-- where the cap evicts the oldest latch.
pub record_operator_terminal_stop-IsLatched :
    (now at : ℕ) (id : Text) (issue : Issue) (s : OrchestratorState)
    → IsLatched s
    → IsLatched (record_operator_terminal_stop now at id issue s).0
      × (is_operator_terminal_stopped id (record_operator_terminal_stop now at id issue s).0 ≡ true)
unfolding record_operator_terminal_stop is_operator_terminal_stopped
record_operator_terminal_stop-IsLatched now at id issue s l =
    elim (Option-cases (lookup id s.operator_terminal_stops)) [
      | inl new ↦
          rw (new, record_operator_terminal_stop)
            (add_stop-IsLatched s l id _ (ap is_some new), add_stop-has s l id _ (ap is_some new))
      | inr (old, e) ↦
          rw (e, record_operator_terminal_stop)
            (
              refreshed-IsLatched s id _ (ap is_some e) l,
              has-insert id id _ s.operator_terminal_stops
                  ∙ ap (λ b. b || has id s.operator_terminal_stops) (text_eq_refl id),
            )
    ]
