-- ===== src/Lib.antt =====
-- The orchestrator of aiops-platform: the actor that claims tracker issues, dispatches one worker for
-- each, retries, finalizes and reconciles them (internal/orchestrator), with the parts of
-- internal/tracker and internal/workflow that it decides by, and the guards of internal/workspace and
-- internal/envpolicy around what it removes and what it passes on.
--
-- How the program works. One goroutine, the actor, owns an OrchestratorState and applies operations to
-- it one at a time. An operation changes the state and may return a followup that runs on a goroutine
-- of its own: it spawns a worker, submits another operation, or cleans a workspace. An operation is
-- here a function from the state to the state and a followup, and a followup is a value of the type
-- `Followup`; the goroutines, channels and contexts around them are not modelled, and any operation may
-- follow any other.
--
-- Which file models which part (paths of the repository on the right):
--   Tracker                      internal/tracker/tracker.go: Issue, BlockedByNonTerminal
--   Workflow                     internal/workflow/normalize.go
--   Workflow.FrontMatter         internal/workflow/frontmatter.go
--   Workspace.Removal            internal/workspace/safe_remove.go, over Workspace.Paths
--   Workspace.Redaction          internal/workspace/redact.go: credentialRedactingWriter
--   EnvPolicy                    internal/envpolicy/env.go, internal/workflow/agent_env_policy.go
--   Orchestrator.Types           the records of internal/orchestrator/state.go, retry.go, status.go
--   Orchestrator.Initial         state.go: NewOrchestratorState
--   Orchestrator.Recent          state.go: recordCompleted and its likes; status.go: RecordEvent
--   Orchestrator.Counts          state.go: IsClaimed, RunningCount and the capacity tests
--   Orchestrator.Usage           state_usage.go and CodexTotals
--   Orchestrator.Transitions     state.go: BeginDispatch, FinishRun..., ScheduleRetry, ReleaseClaim
--   Orchestrator.Block           state.go: BlockRun, BlockRunWithReason, BlockRetryWithReason
--   Orchestrator.OperatorStop    state_operator_stop.go
--   Orchestrator.Backoff         actor_retry.go: NextDelay; retry.go: IsDue
--   Orchestrator.Actor           what the operations share, and their followups
--   Orchestrator.Dispatch        actor_dispatch.go: dispatchOp and its claim gate
--   Orchestrator.Spawn           actor_dispatch.go: spawn and recoverSpawnPanic
--   Orchestrator.Reschedule      actor_retry.go: scheduleRetryOp, capacityDeferRetry
--   Orchestrator.RetryQueue      actor_retry.go: the operations of a fired retry
--   Orchestrator.Finalize        actor_finalize.go, in one file for each kind of exit
--   Orchestrator.Cleanup         actor_cleanup.go
--   Orchestrator.Reconcile       actor_reconcile.go: the two operations that release claims
--   Orchestrator.Refresh         actor_reconcile.go: the refresh of active issues
--   Orchestrator.Watch           actor_reconcile.go: stalled runs and runs over their budget
--   Orchestrator.Payload         runtime_events.go: decoded JSON and how its fields are read
--   Orchestrator.RuntimeEvents   runtime_events.go: token counts, the budget, recordRuntimeEvent
--   Orchestrator.Settings        actor_config.go: the settings of a reloaded workflow
--   Orchestrator.Poller          poller.go and poller_candidates.go: the candidates of a tick
--   Orchestrator.Poller.Tick     poller.go: PollOnce, over what it asks of the actor and the tracker
--   Orchestrator.System          who holds an issue, and how the operations move it between holders
--   Orchestrator.System.Config   actor.go: the loop, as a step relation over the state and its followups
--   Examples                     concrete runs
--
-- How the state corresponds. A Go map is an association list (Common.Map), a set is a map to the unit
-- type, and a string is a list of code points (Common.Strings). The map Running holds pointers, and the
-- code compares them: `running` gives an address and `runs` is the store, so that a write through a
-- pointer is `update_run`. A retry entry has its address as a field. `now` is the clock as an argument,
-- in nanoseconds. Token counters are int64 bit patterns and wrap; numbers of turns and attempts are
-- natural numbers. A loop over a map is a recursion over its entries; the digits of a number are printed
-- with the number itself as fuel, which is enough, since a number has no more digits than its value.
--
-- How the parts interact. A step of the system is an operation of a caller (a dispatch, a worker's exit,
-- a fired timer, a reconciliation, a refresh, an event of the agent, a setting, a cleanup) or of a
-- followup that an earlier one returned, in any order. What a step relies on stands as its premise: the
-- pointer of an exit, the entry of a retry, the fetched issue and a spawn that panics are about their
-- own issue. The schedule of a deferred retry, one that found no slot or no answer, is to take the place
-- of the entry that still stands. It waits in a list of its own and may run after any other operations,
-- but its step has the premise that an entry of the issue is still queued. The program does not check
-- this: when a reconciliation has released the issue in between, the schedule queues it again.
--
-- A tick of the poller asks the tracker and the actor, which stand behind the record `Calls`; the refresh
-- of issue states by an adapter is the argument `fetch`. A conversion of a float64 that fits no int64 is
-- the argument `to_int64`, since Go leaves it to the implementation.
--
-- Beside the actor stand four guards of its own. The file system that SafeRemove asks is the record
-- `FileSystem`, one for each of its two checks; a path is the list of its segments, and the walk up to an
-- ancestor has one unit of fuel for each segment and two more. The environment of a child process is
-- built from a lookup function. A workflow file is split into its settings, whose YAML is not decoded
-- here, and its prompt. The writer that redacts credentials takes the regular expression and the writer
-- behind it as an argument; its loop has one unit of fuel for each character of its buffer.
--
-- What is not modelled: snapshots and views, the tracker clients, the runner, the worker, the rest of
-- the workspaces on disk, and the commands. They are I/O around the actor or are left for an extension
-- of this library. What an operation takes from them (the fetched candidates, the answer of the state
-- resolver, the result of the worker) is an argument of the operation.
pub mod Common
pub mod Tracker
pub mod Workflow
pub mod Workspace
pub mod EnvPolicy
pub mod Orchestrator
pub mod Examples
