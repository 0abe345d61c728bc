-- ===== src/Examples/Histories.antt =====
-- The bounded histories and the latches.
use aiops_platform.Orchestrator.Types.{Outcome}
use aiops_platform.Common.{List, Text, ℤ, negsuc, pos, ◌≡◌}
use aiops_platform.Orchestrator.Recent.Log.{recent_events-record_events}
use aiops_platform.Orchestrator.Recent.Log.{stamped}
use aiops_platform.Common.{◌∷◌, contains, ◌++◌, arith, take_last}
use aiops_platform.Orchestrator.Recent.{max_runtime_events, record_recent}
use aiops_platform.Common.Map.{lookup}
use aiops_platform.Common.{[], codes, true, refl, ◌≡◌}
use aiops_platform.Orchestrator.Initial.{new_orchestrator_state}
use aiops_platform.Common.Map.{lookup}
use aiops_platform.Orchestrator.OperatorStop.{
  record_operator_terminal_stop, is_operator_terminal_stopped,
}
use aiops_platform.Orchestrator.OperatorStop.Latch.{
  record_operator_terminal_stop-IsLatched, IsLatched,
}
use aiops_platform.Orchestrator.Recent.Mirror.{record_recent-IsMirrored, IsMirrored}
use aiops_platform.Orchestrator.Recent.Log.{record_events}
use aiops_platform.Examples.Data.{request_a, issue_a, fresh, one_completed, failure_a}
use aiops_platform.Workflow.Limits.{normalize_state_concurrency_limits-IsUsable, IsUsable}
use aiops_platform.Workflow.{normalize_state_concurrency_limits}
use aiops_platform.Orchestrator.Usage.Retention.{record_ended_session_usage-Retains, Retains}
use aiops_platform.Orchestrator.Usage.{session_usage, record_ended_session_usage}
use aiops_platform.Orchestrator.Spawn.{spawned_run}

fresh-IsLatched : IsLatched fresh
unfolding new_orchestrator_state lookup contains
fresh-IsLatched = record { same = λ j. refl; distinct = tt; bounded = λ positive. omega arith }

record_operator_terminal_stop-IsLatched_example :
    IsLatched (record_operator_terminal_stop 8 8 (codes "A") issue_a fresh).0
    × (is_operator_terminal_stopped
          (codes "A")
          (record_operator_terminal_stop 8 8 (codes "A") issue_a fresh).0
        ≡ true)
record_operator_terminal_stop-IsLatched_example =
    record_operator_terminal_stop-IsLatched 8 8 (codes "A") issue_a fresh fresh-IsLatched

one_completed-IsMirrored : IsMirrored 1 one_completed
unfolding lookup contains
one_completed-IsMirrored = record {
  same = λ j. ground arith;
  distinct = (refl, tt);
  bounded = λ positive. omega arith;
}

record_recent-IsMirrored_example : IsMirrored 1 (record_recent 1 (codes "B") one_completed)
record_recent-IsMirrored_example =
    record_recent-IsMirrored 1 (codes "B") one_completed one_completed-IsMirrored

recent_events-record_events_example :
    (record_events ((8, failure_a) ∷ (9, failure_a) ∷ []) fresh).recent_events
    ≡ take_last max_runtime_events
        (fresh.recent_events ++ stamped ((8, failure_a) ∷ (9, failure_a) ∷ []))
unfolding new_orchestrator_state
recent_events-record_events_example =
    recent_events-record_events ((8, failure_a) ∷ (9, failure_a) ∷ []) fresh (omega arith)

abbrev limits : List (Text × ℤ)
limits = (codes "In Progress", pos 2) ∷ (codes "Todo", negsuc 0) ∷ (codes " ", pos 3) ∷ []

normalize_state_concurrency_limits-IsUsable_example :
    IsUsable (normalize_state_concurrency_limits limits)
normalize_state_concurrency_limits-IsUsable_example =
    normalize_state_concurrency_limits-IsUsable limits

record_ended_session_usage-Retains_example :
    Retains fresh.max_recent_completed fresh.ended_session_usage
      (session_usage 9 (codes "A") (spawned_run 6 request_a) (pos 3) Outcome.completed)
      (record_ended_session_usage 9
        (codes "A")
        (spawned_run 6 request_a)
        (pos 3)
        Outcome.completed
        fresh).ended_session_usage
record_ended_session_usage-Retains_example =
    record_ended_session_usage-Retains 9 (codes "A") (spawned_run 6 request_a) (pos 3)
      Outcome.completed fresh
