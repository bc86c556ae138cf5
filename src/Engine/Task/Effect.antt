-- ===== src/Engine/Task/Effect.antt =====
-- What an attempt leaves in the queue, whatever the strategy does.
use codemachine_pipeline.Prelude.{
  ◌≡◌, refl, ◌<◌, ◌+◌, ◌↔◌, String, Bool, true, false, ◌||◌, none, some, arith, Bool-cases, inl,
  inr, if◌then◌else◌, List, [],
}
use codemachine_pipeline.Queue.Types.{
  ExecutionTask, TaskPatch, pending, running, completed, status_eq, can_retry, merge,
}
use codemachine_pipeline.Queue.Log.{Platform}
use codemachine_pipeline.Queue.Store.{Run}
use codemachine_pipeline.Queue.Store.Durable.{Holds, update_task_in_queue-Holds}
use codemachine_pipeline.Engine.Task.{
  captured, refused, Execution, returned, threw, Outcome, succeeded, will_retry, permanently_failed,
  EngineConfig, has_strategy, ExecutionStrategyResult, failure_patch, conclude, reject_patch,
  skip_patch, success_patch, error_patch, started_patch, dry_run_patch, updated, begin_task,
  finish_task, carry_on, run_task,
}
use codemachine_pipeline.Engine.TaskId.{validate_task_id}

-- The engine hands the task out again, once what it depends on is completed.
unfoldable pub is_dispatchable : ExecutionTask → Bool
is_dispatchable t = status_eq t.status running || status_eq t.status pending || can_retry t

-- the patch with the time that `updateTaskInQueue` adds
abbrev pub stamped : TaskPatch → String → TaskPatch
stamped patch now = record patch { updated_at = some now }

-- What an attempt at `task` with this outcome makes of it.
pub record Progress (task : ExecutionTask) (outcome : Outcome) (after : ExecutionTask)
    : Type 0 where
  pub same_id : after.task_id ≡ task.task_id
  pub same_limit : after.max_retries ≡ task.max_retries
  pub completes : (outcome ≡ succeeded) ↔ (after.status ≡ completed)
  pub again :
      is_dispatchable after ≡ true
      → (outcome ≡ will_retry)
        × (after.retry_count ≡ task.retry_count + 1)
        × (after.retry_count < after.max_retries)

module _ (task t : ExecutionTask) (id : t.task_id ≡ task.task_id)
    (limit : t.max_retries ≡ task.max_retries) (now : String) where
  reject-Progress : Progress task permanently_failed (merge t (stamped (reject_patch task now) now))
  unfolding merge is_dispatchable can_retry status_eq
  reject-Progress = record {
    same_id = id;
    same_limit = limit;
    completes = (λ e. cc, λ e. cc);
    again = λ e. ground arith;
  }

  skip-Progress : Progress task permanently_failed (merge t (stamped (skip_patch now) now))
  unfolding merge is_dispatchable can_retry status_eq
  skip-Progress = record {
    same_id = id;
    same_limit = limit;
    completes = (λ e. cc, λ e. cc);
    again = λ e. ground arith;
  }

  dry_run-Progress : Progress task succeeded (merge t (stamped dry_run_patch now))
  unfolding merge is_dispatchable can_retry status_eq
  dry_run-Progress = record {
    same_id = id;
    same_limit = limit;
    completes = (λ e. refl, λ e. refl);
    again = λ e. ground arith;
  }

  error-Progress :
      (message : String)
      → Progress task will_retry (merge t (stamped (error_patch task message now) now))
  unfolding merge is_dispatchable can_retry status_eq
  error-Progress message = record {
    same_id = id;
    same_limit = limit;
    completes = (λ e. cc, λ e. cc);
    again = λ e. ground arith;
  }

  success-Progress :
      (summary : String) (paths : List String)
      → Progress task succeeded (merge t (stamped (success_patch summary paths) now))
  unfolding merge is_dispatchable can_retry status_eq
  success-Progress summary paths = record {
    same_id = id;
    same_limit = limit;
    completes = (λ e. refl, λ e. refl);
    again = λ e. ground arith;
  }

  failure-Progress :
      (result : ExecutionStrategyResult) (paths : List String)
      → let (patch, retry) = failure_patch task result paths now in
        Progress task
          (if retry then will_retry else permanently_failed)
          (merge t (stamped patch now))
  unfolding merge is_dispatchable can_retry status_eq failure_patch
  failure-Progress result paths = elim (Bool-cases (failure_patch task result paths now).1) [
    | inl retry ↦ rw retry (record {
      same_id = id;
      same_limit = limit;
      completes = (λ e. cc, λ e. cc);
      again = λ e. ground arith;
    })
    | inr over ↦ rw over (record {
      same_id = id;
      same_limit = limit;
      completes = (λ e. cc, λ e. cc);
      again = λ e. ground arith;
    })
  ]

started_id :
    (t : ExecutionTask) (now : String) → (merge t (stamped started_patch now)).task_id ≡ t.task_id
unfolding merge
started_id t now = refl

started_limit :
    (t : ExecutionTask) (now : String)
    → (merge t (stamped started_patch now)).max_retries ≡ t.max_retries
unfolding merge
started_limit t now = refl

module _ (platform : Platform) where
  open platform use {Text}

  -- The queue holds the task as the attempt has left it, in memory and on disk.
  pub record Settled (task : ExecutionTask) (after : Run Text × Outcome) : Type 0 where
    pub now_held : ExecutionTask
    pub holds : Holds platform after.0 task.task_id now_held
    pub progress : Progress task after.1 now_held

  module _ (task : ExecutionTask) (r : Run Text) (t : ExecutionTask) (now : String)
      (h : Holds platform r task.task_id t) (id : t.task_id ≡ task.task_id)
      (limit : t.max_retries ≡ task.max_retries) where
    updated-Settled :
        (patch : TaskPatch) (outcome : Outcome)
        → Progress task outcome (merge t (stamped patch now))
        → Settled task (updated platform r task.task_id patch now, outcome)
    updated-Settled patch outcome p = record {
      now_held = merge t (stamped patch now);
      holds = update_task_in_queue-Holds platform r task.task_id now patch t h;
      progress = p;
    }

    finish_task-Settled :
        (execution : Execution) → Settled task (finish_task platform r task execution now)
    unfolding finish_task conclude
    finish_task-Settled (threw message) =
        updated-Settled (error_patch task message now) will_retry
          (error-Progress task t id limit now message)
    finish_task-Settled (returned result (captured paths)) = elim (Bool-cases result.success) [
      | inl ok ↦ rw ok (
          updated-Settled (success_patch result.summary paths) succeeded
            (success-Progress task t id limit now result.summary paths))
      | inr bad ↦ rw bad (
          updated-Settled (failure_patch task result paths now).0 _
            (failure-Progress task t id limit now result paths))
    ]
    finish_task-Settled (returned result (refused message)) = elim (Bool-cases result.success) [
      | inl ok ↦ rw ok (
          updated-Settled (error_patch task message now) will_retry
            (error-Progress task t id limit now message))
      | inr bad ↦ rw bad (
          updated-Settled (failure_patch task result [] now).0 _
            (failure-Progress task t id limit now result []))
    ]

  module _ (config : EngineConfig) (r : Run Text) (task : ExecutionTask) (now : String) where
    begin_task_invalid :
        validate_task_id task.task_id ≡ false
        → begin_task platform config r task now
          ≡ (updated platform r task.task_id (reject_patch task now) now, some permanently_failed)
    unfolding begin_task
    begin_task_invalid h = rw h refl

    begin_task_unmatched :
        validate_task_id task.task_id ≡ true
        → has_strategy config task ≡ false
        → begin_task platform config r task now
          ≡ (updated platform r task.task_id (skip_patch now) now, some permanently_failed)
    unfolding begin_task
    begin_task_unmatched h k = rw (h, k) refl

    begin_task_lem :
        validate_task_id task.task_id ≡ true
        → has_strategy config task ≡ true
        → let started = updated platform r task.task_id started_patch now in
          begin_task platform config r task now ≡ (
            if config.dry_run
            then (updated platform started task.task_id dry_run_patch now, some succeeded)
            else (started, none))
    unfolding begin_task
    begin_task_lem h k = rw (h, k) refl

  -- One attempt at a task that the queue holds, on every branch: an id that is not valid, no strategy,
  -- a dry run, a result of the strategy with its artifacts captured or not, an exception. Memory and
  -- files agree after it and hold the task; it is completed exactly if the outcome says so; and the
  -- engine hands it out again only if the outcome is a retry, its retry count has grown by one and is
  -- below its limit.
  pub run_task-Settled :
      (config : EngineConfig) (r : Run Text) (task : ExecutionTask) (execution : Execution)
      (start finish : String)
      → Holds platform r task.task_id task
      → Settled task (run_task platform config r task execution start finish)
  unfolding run_task carry_on
  run_task-Settled config r task execution start finish h =
      let started = merge task (stamped started_patch start) in
      let held = update_task_in_queue-Holds platform r task.task_id start started_patch task h in
      elim (Bool-cases (validate_task_id task.task_id)) [
        | inl valid ↦ elim (Bool-cases (has_strategy config task)) [
          | inl found ↦ elim (Bool-cases config.dry_run) [
            | inl dry ↦
                rw (begin_task_lem config r task start valid found, dry)
                  (updated-Settled task _ started start held (started_id task start)
                    (started_limit task start) dry_run_patch succeeded
                    (dry_run-Progress task started (started_id task start)
                      (started_limit task start) start))
            | inr wet ↦
                rw (begin_task_lem config r task start valid found, wet)
                  (finish_task-Settled task _ started finish held (started_id task start)
                    (started_limit task start) execution)
          ]
          | inr none_found ↦ rw (begin_task_unmatched config r task start valid none_found) (
              updated-Settled task r task start h refl refl (skip_patch start) permanently_failed
                (skip-Progress task task refl refl start))
        ]
        | inr invalid ↦ rw (begin_task_invalid config r task start invalid) (
            updated-Settled task r task start h refl refl (reject_patch task start)
              permanently_failed (reject-Progress task task refl refl start))
      ]
