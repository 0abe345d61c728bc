-- ===== src/Orchestrator/System/Owners.antt =====
-- Who holds an issue: its run, its retry entry, its blocked entry, or a followup that is still to
-- spawn a worker or to schedule a retry. A step moves an issue between owners and makes no second.
use aiops_platform.Common.{ℕ, ◌+◌, ◌≤◌, Bool, true, false, Text, text_eq, ◌≡◌, arith}
use aiops_platform.Common.Map.{TextSet, Map, has}
use aiops_platform.Orchestrator.Types.{RetryEntry, BlockedEntry, OrchestratorState}
use aiops_platform.Orchestrator.Actor.{
  Followup, idle, wake, spawn, schedule, clean_up, fetch_candidates, cancel_runs,
}
use aiops_platform.Orchestrator.System.Tables.{Tables, tables}

abbrev pub count_of : Bool → ℕ
count_of true = 1
count_of false = 0

-- The tables without the store of runs and what else owners do not depend on.
pub record Holdings : Type 0 where
  pub running : Map ℕ
  pub blocked : Map BlockedEntry
  pub claimed : TextSet
  pub retry_attempts : Map RetryEntry
  pub cleaning_workspaces : TextSet

abbrev pub holdings_of : Tables → Holdings
holdings_of t = record {
  running = t.running;
  blocked = t.blocked;
  claimed = t.claimed;
  retry_attempts = t.retry_attempts;
  cleaning_workspaces = t.cleaning_workspaces;
}

abbrev pub holdings : OrchestratorState → Holdings
holdings s = holdings_of (tables s)

abbrev pub owners_in : Text → Holdings → ℕ
owners_in j t =
    count_of (has j t.running) + count_of (has j t.retry_attempts) + count_of (has j t.blocked)

abbrev pub owners : Text → OrchestratorState → ℕ
owners j s = owners_in j (holdings s)

-- The issue that a followup holds.
abbrev pub pending : Text → Followup → ℕ
pending j (spawn req) = count_of (text_eq req.id j)
pending j (schedule req) = count_of (text_eq req.issue.id j)
pending j idle = 0
pending j wake = 0
pending j (clean_up w continuation) = 0
pending j (fetch_candidates id attempt kind identifier) = 0
pending j (cancel_runs runs cleanups) = 0

-- What a step relies on at an issue.
pub record Held (j : Text) (t : Holdings) : Type 0 where
  pub single : owners_in j t ≤ 1
  pub backed :
      has j t.claimed ≡ false → count_of (has j t.retry_attempts) + count_of (has j t.blocked) ≡ 0

-- What a step does at an issue: no new owner, no claim dropped while a followup holds the issue, no
-- claim left without an owner.
pub record Moved (j : Text) (s t : Holdings) (p : ℕ) : Type 0 where
  pub no_new : owners_in j t + p ≤ owners_in j s
  pub backed :
      has j t.claimed ≡ false
      → count_of (has j t.retry_attempts) + count_of (has j t.blocked) + p ≡ 0
  pub kept : owners_in j s ≡ 0 → has j t.claimed ≡ has j s.claimed
  pub no_orphan : owners_in j s ≡ 1 → has j t.claimed ≡ true → owners_in j t + p ≡ 1
  pub cleaning : has j t.cleaning_workspaces ≡ has j s.cleaning_workspaces

pub Moved-refl : (j : Text) (s : Holdings) → Held j s → Moved j s s 0
Moved-refl j s h = ground arith

pub Moved-Held : (j : Text) (s t : Holdings) (p : ℕ) → Held j s → Moved j s t p → Held j t
Moved-Held j s t p h m = ground arith

pub Moved-trans :
    (j : Text) (s t u : Holdings) (p : ℕ) → Moved j s t 0 → Moved j t u p → Moved j s u p
Moved-trans j s t u p m n = ground arith

-- What an operation, with its followup, does at an issue.
pub record Moves (j : Text) (s : OrchestratorState) (t : OrchestratorState × Followup)
    : Type 0 where
  pub moved : Moved j (holdings s) (holdings t.0) (pending j t.1)
