-- ===== src/Orchestrator/Finalize/Ops.antt =====
-- actor_finalize.go, what its handlers share: the worker's result, the operation, and the shape of a
-- handler that makes one transition, logs it and closes Done.
use aiops_platform.Common.{
  ℕ, ◌-◌, Bool, false, Option, none, some, Text, ℤ, pos, is_zero, if◌then◌else◌,
}
use aiops_platform.Orchestrator.Types.{OrchestratorState, RunningEntry}
use aiops_platform.Orchestrator.Actor.{Followup, idle, close_done}

-- The errors.As views of a worker's error: its text, whether it is an InputRequiredError, and the
-- text and RetryAfter of a QuotaBackoffError.
pub record QuotaBackoff : Type 0 where
  pub message : Text
  pub retry_after : ℤ

pub record WorkerError : Type 0 where
  pub message : Text
  pub is_input_required : Bool
  pub quota : Option QuotaBackoff

-- runner.IssueStateSnapshot.
pub record IssueStateSnapshot : Type 0 where
  pub found : Bool
  pub state : Text
  pub active : Bool
  pub terminal : Bool
  pub operator_terminal_stop : Bool

pub record WorkerResult : Type 0 where
  pub err : Option WorkerError
  pub input_required : Bool
  pub issue_exit_state : Option IssueStateSnapshot
  pub elapsed : ℤ

-- `entry` is the pointer to the run.
pub record FinalizeOp : Type 0 where
  pub id : Text
  pub identifier : Text
  pub attempt : Option ℕ
  pub result : WorkerResult
  pub started : ℕ
  pub entry : ℕ

-- The clock never runs behind the start, so the truncated `-` is exact.
abbrev pub elapsed_of : ℕ → FinalizeOp → ℤ
elapsed_of now f = if is_zero f.result.elapsed then pos (now - f.started) else f.result.elapsed

abbrev pub run_of : FinalizeOp → OrchestratorState → RunningEntry
run_of f s = s.runs f.entry

-- Logs an event if the transition was made, and closes Done in either case.
unfoldable pub close_with :
    FinalizeOp
    → OrchestratorState × Bool
    → (OrchestratorState → OrchestratorState)
    → OrchestratorState
close_with f (t, made) after = close_done f.entry (if made then after t else t)

-- The followup stands only if the transition was made.
unfoldable pub followup_if : OrchestratorState × Bool → Followup → Followup
followup_if (t, made) followup = if made then followup else idle

abbrev pub is_input_required : Option WorkerError → Bool
is_input_required none = false
is_input_required (some e) = e.is_input_required

abbrev pub error_text_or : Text → Option WorkerError → Text
error_text_or fallback none = fallback
error_text_or fallback (some e) = e.message
