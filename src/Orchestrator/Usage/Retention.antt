-- ===== src/Orchestrator/Usage/Retention.antt =====
-- state_usage.go: the usage entries of ended sessions: the latest ones, within the cap.
use aiops_platform.Common.{
  ℕ, ◌-◌, ◌<◌, ◌≤◌, ◌≡◌, ◌⊎◌, inl, inr, refl, ap, zero, suc, Text, ℤ, List, [], ◌∷◌, ◌++◌, length,
  drop, length-drop, arith, ltb, ◌&&◌, Bool-cases,
}
use aiops_platform.Orchestrator.Types.{Outcome, RunningEntry, OrchestratorState, SessionUsageEntry}
use aiops_platform.Orchestrator.Usage.{session_usage, record_ended_session_usage}

-- The entries `after` are those `before` and the new one, less what is dropped at the front: nothing, unless
-- there is a cap and exactly as many as the cap are left.
pub record Retains (cap : ℕ) (before : List SessionUsageEntry) (entry : SessionUsageEntry)
    (after : List SessionUsageEntry) : Type 0 where
  pub dropped : List SessionUsageEntry
  pub latest : before ++ entry ∷ [] ≡ dropped ++ after
  pub bounded : 0 < cap → length after ≤ cap
  pub spared : (dropped ≡ []) ⊎ ((0 < cap) × (length after ≡ cap))

module _ {ℓ} {A : Type ℓ} where
  abbrev first : ℕ → List A → List A
  first zero l = []
  first (suc n) [] = []
  first (suc n) (x ∷ l) = x ∷ first n l

  first-drop : (n : ℕ) (l : List A) → l ≡ first n l ++ drop n l
  first-drop zero l = refl
  first-drop (suc n) [] = refl
  first-drop (suc n) (x ∷ l) = ap (◌∷◌ x) (first-drop n l)

-- An ended session is the latest of the usage entries, behind those that stood before it in their order;
-- the oldest are dropped only where more than a positive cap would stay, and then as many as the cap stay.
pub record_ended_session_usage-Retains :
    (now : ℕ) (id : Text) (run : RunningEntry) (elapsed : ℤ) (outcome : Outcome)
    (s : OrchestratorState)
    → Retains s.max_recent_completed s.ended_session_usage
        (session_usage now id run elapsed outcome)
        (record_ended_session_usage now id run elapsed outcome s).ended_session_usage
unfolding record_ended_session_usage
record_ended_session_usage-Retains now id run elapsed outcome s =
    let cap = s.max_recent_completed in
    let usage = s.ended_session_usage ++ session_usage now id run elapsed outcome ∷ [] in
    elim (Bool-cases (ltb 0 cap && ltb cap (length usage))) [
      | inl over ↦ rw over (record {
        dropped = first (length usage - cap) usage;
        latest = first-drop (length usage - cap) usage;
        bounded = λ positive. ground (arith, over, length-drop (length usage - cap) usage);
        spared =
            inr
              (ground (arith, over), ground (arith, over, length-drop (length usage - cap) usage));
      })
      | inr fits ↦ rw fits (record {
        dropped = [];
        latest = refl;
        bounded = λ positive. ground (arith, fits, positive);
        spared = inl refl;
      })
    ]
