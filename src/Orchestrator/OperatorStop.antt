-- ===== src/Orchestrator/OperatorStop.antt =====
-- state_operator_stop.go: the latch of operator terminal stops.
pub mod Latch
use aiops_platform.Common.{
  ℕ, ◌+◌, List, [], ◌∷◌, ◌++◌, Bool, true, false, Option, none, some, ◌&&◌, ◌==◌, ltb, length, Text,
  is_empty, trim_space, if◌then◌else◌,
}
use aiops_platform.Common.Map.{lookup, has, insert, delete}
use aiops_platform.Tracker.{Issue}
use aiops_platform.Orchestrator.Types.{OrchestratorState, OperatorTerminalStopEntry}
use aiops_platform.Orchestrator.Recent.{add_int64}

-- A repeated observation updates the latch in place.
unfoldable pub refresh_stop : Text → Issue → OperatorTerminalStopEntry → OperatorTerminalStopEntry
refresh_stop identifier issue existing =
    let named =
      if is_empty (trim_space existing.identifier)
      then record existing { identifier = identifier }
      else existing in
    if is_empty (trim_space issue.state)
    then named
    else record named { state = issue.state; issue = issue }

unfoldable pub new_stop : ℕ → Text → Issue → OperatorTerminalStopEntry
new_stop at identifier issue = record {
  issue = issue;
  identifier = identifier;
  state = issue.state;
  stopped_at = at;
  suppressed_dispatches = 0;
  first_suppressed_at = 0;
  first_suppressed_state = [];
  first_suppressed_reason = [];
}

-- Drops the oldest latch.
unfoldable pub evict_stop : OrchestratorState → List Text → OrchestratorState
evict_stop s [] = s
evict_stop s (oldest ∷ rest) = record s {
  operator_terminal_stops = delete oldest s.operator_terminal_stops;
  operator_terminal_stop_order = rest;
}

unfoldable pub add_stop : Text → OperatorTerminalStopEntry → OrchestratorState → OrchestratorState
add_stop id entry s =
    let order = s.operator_terminal_stop_order ++ id ∷ [] in
    let added = record s {
      operator_terminal_stops = insert id entry s.operator_terminal_stops;
      operator_terminal_stop_order = order;
      cumulative_operator_terminal_stops_total =
          add_int64 s.cumulative_operator_terminal_stops_total 1;
    } in
    let cap_limit = s.max_recent_operator_terminal_stops in
    if ltb 0 cap_limit && ltb cap_limit (length order) then evict_stop added order else added

-- The flag is true for a new latch. A time of 0 is replaced by the clock.
unfoldable pub record_operator_terminal_stop :
    ℕ → ℕ → Text → Issue → OrchestratorState → OrchestratorState × OperatorTerminalStopEntry × Bool
record_operator_terminal_stop now at id issue s =
    let identifier = if is_empty issue.identifier then id else issue.identifier in
    elim (lookup id s.operator_terminal_stops) [
      | some existing ↦
          let entry = refresh_stop identifier issue existing in
          (
            record s { operator_terminal_stops = insert id entry s.operator_terminal_stops },
            entry,
            false,
          )
      | none ↦
          let entry = new_stop (if at == 0 then now else at) identifier issue in
          (add_stop id entry s, entry, true)
    ]

unfoldable pub is_operator_terminal_stopped : Text → OrchestratorState → Bool
is_operator_terminal_stopped id s = has id s.operator_terminal_stops

-- One more suppressed dispatch; the first one is described.
unfoldable pub suppress_stop :
    ℕ → Issue → Text → OperatorTerminalStopEntry → OperatorTerminalStopEntry
suppress_stop now issue reason entry =
    let counted = record entry { suppressed_dispatches = entry.suppressed_dispatches + 1 } in
    if entry.first_suppressed_at == 0
    then record counted {
      first_suppressed_at = now;
      first_suppressed_state = issue.state;
      first_suppressed_reason = reason;
    }
    else counted

unfoldable pub record_operator_terminal_dispatch_suppressed :
    ℕ
    → Text
    → Issue
    → Text
    → OrchestratorState
    → OrchestratorState × Option OperatorTerminalStopEntry × Bool
record_operator_terminal_dispatch_suppressed now id issue reason s =
    elim (lookup id s.operator_terminal_stops) [
      | none ↦ (s, none, false)
      | some entry ↦
          let suppressed = suppress_stop now issue reason entry in
          (
            record s { operator_terminal_stops = insert id suppressed s.operator_terminal_stops },
            some suppressed,
            entry.first_suppressed_at == 0,
          )
    ]
