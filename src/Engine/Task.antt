-- ===== src/Engine/Task.antt =====
-- src/workflows/cliExecutionEngine.ts: one attempt at a task, from its dispatch to what the queue
-- then holds. The clock and what the strategy's execution gives are arguments; the queue is one that
-- `loadQueue` has accepted.
pub mod Effect
pub mod Bound
use Prim.Native.Char.{code}
use codemachine_pipeline.Prelude.{
  ℕ, ◌+◌, String, Bool, true, false, not, ◌&&◌, ◌||◌, Option, none, some, List, [], ◌∷◌, any, leb,
  ◌==◌, str_eq, if◌then◌else◌,
}
use codemachine_pipeline.Queue.Types.{
  Json, Items, Fields, text, array, object, nil, cons, end, field, ExecutionTask, TaskPatch,
  TaskError, no_changes, running, completed, failed, skipped, pending, merge, can_retry, or_else,
}
use codemachine_pipeline.Queue.Log.{Platform}
use codemachine_pipeline.Queue.Store.{Run, update_task_in_queue}
use codemachine_pipeline.Engine.TaskId.{validate_task_id}

pub record ExecutionStrategyResult : Type 0 where
  pub success : Bool
  pub summary : String
  pub error_message : Option String
  pub recoverable : Bool

-- what `captureArtifacts` gives: the paths it kept, or the message of what it throws
pub data Capture : Type 0 where
  captured : List String → Capture
  refused : String → Capture

-- what `strategy.execute` gives, with the capture of its artifacts, or the message of what it throws
pub data Execution : Type 0 where
  returned : ExecutionStrategyResult → Capture → Execution
  threw : String → Execution

pub data Outcome : Type 0 where
  succeeded : Outcome
  will_retry : Outcome
  permanently_failed : Outcome

-- the patch that the attempt ends with and its outcome, or the message of an exception
pub data Ending : Type 0 where
  ends : TaskPatch → Outcome → Ending
  raises : String → Ending

abbrev pub to_array : List String → Items
to_array [] = nil
to_array (path ∷ paths) = cons (text path) (to_array paths)

-- `{ ...fields, [key]: value }`
unfoldable pub put_field : String → Json → Fields → Fields
put_field key value end = field key value end
put_field key value (field k v rest) =
    let put = put_field key value rest in if str_eq k key then field k value rest else field k v put

unfoldable pub with_field : String → Json → Option Json → Json
unfolding put_field
with_field key value (some (object fields)) = object (put_field key value fields)
with_field key value _ = object (field key value end)

abbrev pub task_error : String → String → Bool → TaskError
task_error message now recoverable = record {
  message = message;
  code = none;
  details = none;
  timestamp = now;
  recoverable = recoverable;
}

abbrev pub reject_patch : ExecutionTask → String → TaskPatch
reject_patch task now = record no_changes {
  status = some failed;
  retry_count = some (task.retry_count + 1);
  last_error = some (task_error "Invalid task ID format" now false);
}

abbrev pub skip_patch : String → TaskPatch
skip_patch now = record no_changes {
  status = some skipped;
  last_error = some (task_error "No execution strategy available" now false);
}

abbrev pub success_patch : String → List String → TaskPatch
success_patch summary artifacts = record no_changes {
  status = some completed;
  metadata = some (
      object (field "summary" (text summary) (field "artifacts" (array (to_array artifacts)) end)));
}

-- The patch after a failure: `pending` again if the failed task can be retried.
unfoldable pub failure_patch :
    ExecutionTask → ExecutionStrategyResult → List String → String → TaskPatch × Bool
unfolding can_retry with_field
failure_patch task result artifacts now =
    let error = task_error (or_else result.error_message "Unknown error") now result.recoverable in
    let updated = record task {
      status = failed;
      retry_count = task.retry_count + 1;
      last_error = some error;
    } in
    let retry = can_retry updated in
    (
      record no_changes {
        status = some (if retry then pending else failed);
        retry_count = some updated.retry_count;
        last_error = some error;
        metadata = some (with_field "failureArtifacts" (array (to_array artifacts)) task.metadata);
      },
      retry,
    )

-- `catch` of `handleFailure`: artifacts that cannot be captured are none.
abbrev pub kept_artifacts : Capture → List String
kept_artifacts (captured paths) = paths
kept_artifacts (refused message) = []

-- `handleSuccess` and `handleFailure`, after the execution
unfoldable pub conclude : ExecutionTask → Execution → String → Ending
unfolding failure_patch
conclude task (threw message) now = raises message
conclude task (returned result capture) now =
    let (patch, retry) = failure_patch task result (kept_artifacts capture) now in
    if result.success
    then elim capture [
      | captured paths ↦ ends (success_patch result.summary paths) succeeded
      | refused message ↦ raises message
    ]
    else ends patch (if retry then will_retry else permanently_failed)

-- `handleTaskError`
abbrev pub error_patch : ExecutionTask → String → String → TaskPatch
error_patch task message now = record no_changes {
  status = some failed;
  retry_count = some (task.retry_count + 1);
  last_error = some (task_error message now true);
}

abbrev pub started_patch : TaskPatch
started_patch = record no_changes { status = some running }

abbrev pub dry_run_patch : TaskPatch
dry_run_patch = record no_changes { status = some completed }

-- The strategies in order, each by its `canHandle`, and the mode of the engine.
pub record EngineConfig : Type 0 where
  pub strategies : List (ExecutionTask → Bool)
  pub dry_run : Bool

unfoldable pub has_strategy : EngineConfig → ExecutionTask → Bool
has_strategy config task = any (λ can_handle. can_handle task) config.strategies

module _ (platform : Platform) where
  open platform use {Text}

  -- `updateTaskInQueue`, whose answer the engine does not look at
  abbrev pub updated : Run Text → String → TaskPatch → String → Run Text
  updated r key patch now = (update_task_in_queue platform r key patch now).0

  -- `executeTask` up to the strategy's execution: where the attempt is over, its outcome
  unfoldable pub begin_task :
      EngineConfig → Run Text → ExecutionTask → String → Run Text × Option Outcome
  unfolding validate_task_id has_strategy
  begin_task config r task now =
      let started = updated r task.task_id started_patch now in
      if not (validate_task_id task.task_id)
      then (updated r task.task_id (reject_patch task now) now, some permanently_failed)
      else if not (has_strategy config task)
      then (updated r task.task_id (skip_patch now) now, some permanently_failed)
      else if config.dry_run
      then (updated started task.task_id dry_run_patch now, some succeeded)
      else (started, none)

  -- `executeTask` after the strategy's execution, and the `catch` of `runTask`
  unfoldable pub finish_task : Run Text → ExecutionTask → Execution → String → Run Text × Outcome
  unfolding conclude
  finish_task r task execution now = elim (conclude task execution now) [
    | ends patch outcome ↦ (updated r task.task_id patch now, outcome)
    | raises message ↦ (updated r task.task_id (error_patch task message now) now, will_retry)
  ]

  -- `runTask`, where its first part is `begin_task` and nothing else happens between the two
  unfoldable pub carry_on :
      ExecutionTask → Execution → String → Run Text × Option Outcome → Run Text × Outcome
  carry_on task execution now (r, some outcome) = (r, outcome)
  carry_on task execution now (r, none) = finish_task r task execution now

  unfoldable pub run_task :
      EngineConfig → Run Text → ExecutionTask → Execution → String → String → Run Text × Outcome
  unfolding begin_task carry_on
  run_task config r task execution start finish =
      carry_on task execution finish (begin_task config r task start)

-- `recordTaskOutcome`
pub record ExecutionResult : Type 0 where
  pub total_tasks : ℕ
  pub completed_tasks : ℕ
  pub failed_tasks : ℕ
  pub permanently_failed_tasks : ℕ
  pub skipped_tasks : ℕ

unfoldable pub record_task_outcome : ExecutionResult → Outcome → ExecutionResult
record_task_outcome result succeeded = record result {
  completed_tasks = result.completed_tasks + 1;
}
record_task_outcome result will_retry = record result { failed_tasks = result.failed_tasks + 1 }
record_task_outcome result permanently_failed = record result {
  permanently_failed_tasks = result.permanently_failed_tasks + 1;
}
