-- ===== src/Orchestrator/System/Endings.antt =====
-- state.go: what the endings of a run do to the tables that decide claims. Each one drops the run of
-- the id, or finds another run there and does nothing.
use aiops_platform.Common.{arith, refl, false, true, ◌≡◌, Bool, ℤ, Text, ℕ}
use aiops_platform.Orchestrator.Types.{Outcome, OrchestratorState}
use aiops_platform.Orchestrator.Transitions.{
  drop_run, is_current, finish_run_aborted, finish_run_active_success_no_handoff,
  finish_run_succeeded,
}
use aiops_platform.Orchestrator.Usage.{record_ended_session_usage, count_seconds}
use aiops_platform.Orchestrator.Recent.{record_active_success_no_handoff, record_completed}
use aiops_platform.Orchestrator.System.Owners.{holdings}

pub record Ends (id : Text) (run : ℕ) (s : OrchestratorState) (p : OrchestratorState × Bool)
    : Type 0 where
  pub made : p.1 ≡ is_current id run s
  pub dropped : is_current id run s ≡ true → holdings p.0 ≡ holdings (drop_run id s)
  pub stale : is_current id run s ≡ false → holdings p.0 ≡ holdings s

module _ (now : ℕ) (id : Text) (run : ℕ) (elapsed : ℤ) (s : OrchestratorState) where
  pub finish_run_succeeded-Ends : Ends id run s (finish_run_succeeded now id run elapsed s)
  unfolding finish_run_succeeded count_seconds record_ended_session_usage record_completed drop_run
  finish_run_succeeded-Ends = record {
    made = ground arith;
    dropped = λ h. rw h refl;
    stale = λ h. rw h refl;
  }

  pub finish_run_active_success_no_handoff-Ends :
      Ends id run s (finish_run_active_success_no_handoff now id run elapsed s)
  unfolding finish_run_active_success_no_handoff count_seconds record_ended_session_usage
      record_completed record_active_success_no_handoff drop_run
  finish_run_active_success_no_handoff-Ends = record {
    made = ground arith;
    dropped = λ h. rw h refl;
    stale = λ h. rw h refl;
  }

  pub finish_run_aborted-Ends :
      (outcome : Outcome) → Ends id run s (finish_run_aborted now id run elapsed outcome s)
  unfolding finish_run_aborted count_seconds record_ended_session_usage drop_run
  finish_run_aborted-Ends outcome = record {
    made = ground arith;
    dropped = λ h. rw h refl;
    stale = λ h. rw h refl;
  }
