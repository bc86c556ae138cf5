-- ===== src/Engine/Task/Bound.antt =====
-- A task is attempted a bounded number of times in the life of an engine.
use codemachine_pipeline.Prelude.{
  ◌≡◌, refl, sym, subst, ◌∙◌, ◌<◌, ◌≤◌, ◌+◌, ℕ, suc, String, true, false, Option, none, some, List,
  [], ◌∷◌, arith, Bool-cases, inl, inr, length,
}
use codemachine_pipeline.Prelude.OrderedMap
use codemachine_pipeline.Queue.Types.{ExecutionTask}
use codemachine_pipeline.Queue.Log.{Platform}
use codemachine_pipeline.Queue.Store.{Run}
use codemachine_pipeline.Queue.Store.Durable.{Holds}
use codemachine_pipeline.Engine.Task.{Execution, EngineConfig, run_task}
use codemachine_pipeline.Engine.Task.Effect.{is_dispatchable, run_task-Settled}

enough_left :
    {max max' count' n : ℕ} (count : ℕ)
    → max ≤ count + suc n
    → max' ≡ max
    → count' ≡ count + 1
    → count' < max'
    → (0 < n) × (max' ≤ count' + n)
enough_left count a b c d = (omega arith, omega arith)

zero_lt_zero : 0 < 0 → ⊥
zero_lt_zero h = omega arith

module _ (platform : Platform) (config : EngineConfig) (start finish : String) where
  open platform use {Text}

  unfoldable pub held_task : Run Text → String → Option ExecutionTask
  held_task r id = elim r.cache [ none ↦ none | some cache ↦ OrderedMap.get id cache.state.tasks ]

  -- One attempt after another at the task with this id, for as long as the engine hands it out.
  unfoldable pub attempts : String → Run Text → List Execution → Run Text
  attempts id r [] = r
  attempts id r (e ∷ es) = elim (held_task r id) [
    | none ↦ r
    | some task ↦ elim (is_dispatchable task) [
      | true ↦ attempts id (run_task platform config r task e start finish).0 es
      | false ↦ r
    ]
  ]

  -- The queue holds the task, and the engine does not hand it out again.
  pub record IsOver (id : String) (r : Run Text) : Type 0 where
    pub task : ExecutionTask
    pub holds : Holds platform r id task
    pub over : is_dispatchable task ≡ false

  held_task_of_Holds :
      (id : String) (r : Run Text) (task : ExecutionTask)
      → Holds platform r id task
      → held_task r id ≡ some task
  unfolding held_task
  held_task_of_Holds id r task h = rw (h.synced.cached) h.held

  module _ (id : String) (r : Run Text) (task : ExecutionTask) (h : Holds platform r id task)
      (e : Execution) (es : List Execution) where
    attempts_on :
        is_dispatchable task ≡ true
        → attempts id r (e ∷ es) ≡ attempts id (run_task platform config r task e start finish).0 es
    unfolding attempts
    attempts_on on = ground (arith, held_task_of_Holds id r task h)

    attempts_off : is_dispatchable task ≡ false → attempts id r (e ∷ es) ≡ r
    unfolding attempts
    attempts_off off = ground (arith, held_task_of_Holds id r task h)

  attempts-IsOver_of :
      (id : String) (r : Run Text) (task : ExecutionTask) (es : List Execution)
      → id ≡ task.task_id
      → Holds platform r id task
      → (is_dispatchable task ≡ true
          → (0 < length es) × (task.max_retries ≤ task.retry_count + length es))
      → IsOver id (attempts id r es)
  unfolding attempts
  attempts-IsOver_of id r task [] same h enough = record {
    task = task;
    holds = h;
    over = elim (Bool-cases (is_dispatchable task)) [
      | inl on ↦ elim (zero_lt_zero (enough on).0) [ ]
      | inr off ↦ off
    ];
  }
  attempts-IsOver_of id r task (e ∷ es) same h enough = elim (Bool-cases (is_dispatchable task)) [
    | inl on ↦
        let s =
          run_task-Settled platform config r task e start finish
            (subst (λ k. Holds platform r k task) same h) in
        rw (attempts_on id r task h e es on) (
          attempts-IsOver_of id (run_task platform config r task e start finish).0 s.now_held es
            (same ∙ sym s.progress.same_id)
            (subst
              (λ k. Holds platform (run_task platform config r task e start finish).0 k s.now_held)
              (sym same) s.holds)
            (λ again.
              enough_left task.retry_count (enough on).1 s.progress.same_limit
                (s.progress.again again).1 (s.progress.again again).2))
    | inr off ↦
        rw (attempts_off id r task h e es off) (record { task = task; holds = h; over = off })
  ]

  -- However its executions end, the engine stops handing out a task that the queue holds after as many
  -- attempts as it has retries left, and after one where it has none left.
  pub attempts-IsOver :
      (r : Run Text) (task : ExecutionTask) (es : List Execution)
      → Holds platform r task.task_id task
      → 0 < length es
      → task.max_retries ≤ task.retry_count + length es
      → IsOver task.task_id (attempts task.task_id r es)
  attempts-IsOver r task es h some_left enough =
      attempts-IsOver_of task.task_id r task es refl h (λ e. (some_left, enough))
