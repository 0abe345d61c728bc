-- ===== src/Orchestrator/Recent/Log.antt =====
-- The event log is a window over the events: the latest two hundred, in their order.
use aiops_platform.Common.{
  ℕ, zero, suc, ◌+◌, ◌-◌, ◌≤◌, ◌≡◌, refl, sym, ap, ◌∙◌, List, [], ◌∷◌, ◌++◌, length, drop,
  take_last, length-append, length-drop, length-take_last, arith,
}
use mathlib.Core.List.{append_assoc, append-nil}
use aiops_platform.Orchestrator.Types.{RuntimeEvent, OrchestratorState}
use aiops_platform.Orchestrator.Recent.{max_runtime_events, stamp, record_event}

module _ {ℓ} {A : Type ℓ} where
  drop-append : (n : ℕ) (xs ys : List A) → n ≤ length xs → drop n (xs ++ ys) ≡ drop n xs ++ ys
  drop-append zero xs ys h = refl
  drop-append (suc n) [] ys h = absurd (omega arith)
  drop-append (suc n) (x ∷ xs) ys h = drop-append n xs ys (omega arith)

  drop_nil : (n : ℕ) → drop {A = A} n [] ≡ []
  drop_nil zero = refl
  drop_nil (suc n) = refl

  drop-drop : (m n : ℕ) (xs : List A) → drop m (drop n xs) ≡ drop (n + m) xs
  drop-drop m zero xs = ap (λ k. drop k xs) (omega arith)
  drop-drop m (suc n) [] = drop_nil m ∙ sym (drop_nil (suc n + m))
  drop-drop m (suc n) (x ∷ xs) = drop-drop m n xs ∙ sym (ap (λ k. drop k (x ∷ xs)) shift)
    where
      shift : suc n + m ≡ suc (n + m)
      shift = omega arith

  -- A window of a window is a window.
  take_last-append :
      (n : ℕ) (xs ys : List A) → take_last n (take_last n xs ++ ys) ≡ take_last n (xs ++ ys)
  take_last-append n xs ys =
      ap (take_last n) (sym (drop-append (length xs - n) xs ys (omega arith)))
      ∙ drop-drop (length (drop (length xs - n) (xs ++ ys)) - n) (length xs - n) (xs ++ ys)
      ∙ ap (λ k. drop k (xs ++ ys))
          (omega (arith, length-drop (length xs - n) (xs ++ ys), length-append xs ys))

  take_last_short : (n : ℕ) (xs : List A) → length xs ≤ n → take_last n xs ≡ xs
  take_last_short n xs h = ap (λ k. drop k xs) zero_left
    where
      zero_left : length xs - n ≡ 0
      zero_left = omega arith

-- The events of a run of the process, each with the clock at its time.
unfoldable pub record_events : List (ℕ × RuntimeEvent) → OrchestratorState → OrchestratorState
record_events [] s = s
record_events ((now, ev) ∷ evs) s = record_events evs (record_event now ev s)

abbrev pub stamped : List (ℕ × RuntimeEvent) → List RuntimeEvent
stamped [] = []
stamped ((now, ev) ∷ evs) = stamp now ev ∷ stamped evs

recent_events-record_event :
    (now : ℕ) (ev : RuntimeEvent) (s : OrchestratorState)
    → (record_event now ev s).recent_events
      ≡ take_last max_runtime_events (s.recent_events ++ stamp now ev ∷ [])
unfolding record_event
recent_events-record_event now ev s =
    ground (arith, take_last_short max_runtime_events (s.recent_events ++ stamp now ev ∷ []))

-- Whatever is recorded, the log holds the latest two hundred of the old log and the new events, in
-- order, each stamped with its own time or the clock; before, the log is within the limit.
pub recent_events-record_events :
    (evs : List (ℕ × RuntimeEvent)) (s : OrchestratorState)
    → length s.recent_events ≤ max_runtime_events
    → (record_events evs s).recent_events
      ≡ take_last max_runtime_events (s.recent_events ++ stamped evs)
unfolding record_events
recent_events-record_events [] s h =
    rw append-nil (sym (take_last_short max_runtime_events s.recent_events h))
recent_events-record_events ((now, ev) ∷ evs) s h =
    recent_events-record_events evs (record_event now ev s) (
      rw (recent_events-record_event now ev s)
        (length-take_last max_runtime_events (s.recent_events ++ stamp now ev ∷ [])))
    ∙ ap (λ xs. take_last max_runtime_events (xs ++ stamped evs))
        (recent_events-record_event now ev s)
    ∙ take_last-append max_runtime_events (s.recent_events ++ stamp now ev ∷ []) (stamped evs)
    ∙ ap (take_last max_runtime_events)
        (append_assoc s.recent_events (stamp now ev ∷ []) (stamped evs))
