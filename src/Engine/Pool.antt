-- ===== src/Engine/Pool.antt =====
-- `execute` of src/workflows/cliExecutionEngine.ts: the loop that dispatches ready tasks and waits for one
-- of them, with the promises of `runTask` as workers that take their steps in any order.
pub mod Flight
pub mod Bounded
pub mod Fresh
mod Tests
use codemachine_pipeline.Prelude.{
  ℕ, ◌+◌, ◌-◌, ◌<◌, ◌≡◌, max, String, Bool, true, false, not, Option, none, some, List, [], ◌∷◌,
  ltb, ◌==◌, if◌then◌else◌, length,
}
use codemachine_pipeline.Prelude.OrderedMap
use codemachine_pipeline.Prelude.OrderedMap.{OrderedMap, keys}
use codemachine_pipeline.Queue.Types.{ExecutionTask, or_else}
use codemachine_pipeline.Queue.Log.{Platform}
use codemachine_pipeline.Queue.Store.{Run, get_v2_index_cache}
use codemachine_pipeline.Engine.Ready.{get_ready_tasks}
use codemachine_pipeline.Engine.Task.{
  Execution, Outcome, EngineConfig, ExecutionResult, begin_task, finish_task, record_task_outcome,
}

-- how far `runTask` has come
pub data Worker : Type 0 where
  called : ExecutionTask → Worker
  executing : ExecutionTask → Worker
  settled : Outcome → Worker

-- where `execute` stands: at the top of its loop, at `Promise.race`, or behind the loop
pub data Control : Type 0 where
  at_top awaiting left : Control

pub record Pool (Text : Type 0) : Type 0 where
  pub run : Run Text
  pub in_flight : OrderedMap Worker
  pub result : ExecutionResult
  pub stopped : Bool
  pub control : Control

-- `Math.max(1, executionConfig.max_parallel_tasks ?? 1)`
unfoldable pub max_parallel_tasks : Option ℕ → ℕ
max_parallel_tasks configured = max 1 (or_else configured 1)

-- `inFlight.set(task.task_id, runTask(task))` for each task
unfoldable pub call_tasks : List ExecutionTask → OrderedMap Worker → OrderedMap Worker
call_tasks [] flight = flight
call_tasks (t ∷ ts) flight = call_tasks ts (OrderedMap.set t.task_id (called t) flight)

abbrev pub is_nil {ℓ} : {A : Type ℓ} → List A → Bool
is_nil [] = true
is_nil (x ∷ xs) = false

-- `fillTaskBatch`, for the tasks of the queue: whether nothing is left, and the tasks in flight
unfoldable pub fill_task_batch :
    ℕ → OrderedMap ExecutionTask → OrderedMap Worker → Bool × OrderedMap Worker
unfolding call_tasks
fill_task_batch limit tasks flight =
    if not (ltb (length flight) limit)
    then (false, flight)
    else (let ready = get_ready_tasks tasks (keys flight) (limit - length flight) in
        let filled = call_tasks ready flight in
        (if is_nil ready then is_nil filled else false, filled))

-- a worker after the first part of `executeTask`, which may end the attempt
abbrev pub begun : ExecutionTask → Option Outcome → Worker
begun t none = executing t
begun t (some outcome) = settled outcome

module _ {Text : Type 0} where
  -- the loop from its top to `Promise.race`, or to its `break`
  unfoldable pub begin_round : ℕ → OrderedMap ExecutionTask → Pool Text → Pool Text
  unfolding fill_task_batch
  begin_round limit tasks p =
      if not p.stopped
      then (let (done, filled) = fill_task_batch limit tasks p.in_flight in
          record p { in_flight = filled; control = if done then left else awaiting })
      else record p { control = if is_nil p.in_flight then left else awaiting }

  -- the loop from `Promise.race` to its end, for the worker that settled first
  unfoldable pub end_round : String → Outcome → Pool Text → Pool Text
  end_round id outcome p = record p {
    in_flight = OrderedMap.delete id p.in_flight;
    result = record_task_outcome p.result outcome;
    control = at_top;
  }

  abbrev pub with_worker : String → Worker → Run Text → Pool Text → Pool Text
  with_worker id w run p = record p { run = run; in_flight = OrderedMap.set id w p.in_flight }

module _ (platform : Platform) (config : EngineConfig) (limit : ℕ) where
  open platform use {Text}

  -- `loadQueue`
  abbrev pub loaded_tasks : Run Text → Option (OrderedMap ExecutionTask)
  loaded_tasks r = elim (get_v2_index_cache platform r) [
    | none ↦ none
    | some cache ↦ some cache.state.tasks
  ]

  -- A step of the loop or of a worker. The times and what the strategies return are the environment's;
  -- the queue is loaded where the loop has room for a task.
  pub data Advance (p : Pool Text) : Pool Text → Type 0 where
    starts_round :
        (tasks : OrderedMap ExecutionTask)
        → p.control ≡ at_top
        → (p.stopped ≡ false → length p.in_flight < limit → loaded_tasks p.run ≡ some tasks)
        → Advance p (begin_round limit tasks p)
    ends_round :
        (id : String) (outcome : Outcome)
        → p.control ≡ awaiting
        → OrderedMap.get id p.in_flight ≡ some (settled outcome)
        → Advance p (end_round id outcome p)
    begins :
        (id : String) (t : ExecutionTask) (now : String)
        → OrderedMap.get id p.in_flight ≡ some (called t)
        → Advance p (
            with_worker id
              (begun t (begin_task platform config p.run t now).1)
              (begin_task platform config p.run t now).0
              p)
    finishes :
        (id : String) (t : ExecutionTask) (execution : Execution) (now : String)
        → OrderedMap.get id p.in_flight ≡ some (executing t)
        → Advance p (
            with_worker id
              (settled (finish_task platform p.run t execution now).1)
              (finish_task platform p.run t execution now).0
              p)

  pub data Step (p : Pool Text) : Pool Text → Type 0 where
    advances : {q : Pool Text} → Advance p q → Step p q
    -- `stop()`
    stops : Step p (record p { stopped = true })

  pub data Steps (p : Pool Text) : Pool Text → Type 0 where
    none_yet : Steps p p
    next : {q r : Pool Text} → Steps p q → Step q r → Steps p r
