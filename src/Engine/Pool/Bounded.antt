-- ===== src/Engine/Pool/Bounded.antt =====
-- The pool of workers: how many there are, and when the loop waits and ends.
use codemachine_pipeline.Prelude.{
  ℕ, ◌-◌, ◌≤◌, ◌≡◌, ap, String, false, some, List, [], ◌∷◌, ltb, ◌==◌, if◌then◌else◌, length, arith,
  Bool-cases, inl, inr,
}
use codemachine_pipeline.Prelude.OrderedMap
use codemachine_pipeline.Prelude.OrderedMap.{OrderedMap, keys, values}
use codemachine_pipeline.Queue.Types.{ExecutionTask}
use codemachine_pipeline.Queue.Log.{Platform}
use codemachine_pipeline.Queue.Store.{Run}
use codemachine_pipeline.Engine.Ready.{get_ready_tasks}
use codemachine_pipeline.Engine.Task.{Outcome, EngineConfig}
use codemachine_pipeline.Engine.Pool.{
  Worker, called, executing, at_top, awaiting, left, Pool, call_tasks, is_nil, fill_task_batch,
  begin_round, end_round, with_worker, Advance, starts_round, ends_round, begins, finishes, Step,
  advances, stops, Steps, none_yet, next,
}
use codemachine_pipeline.Engine.Pool.Flight.{
  is_nil-length, length-call_tasks, length-delete_le, length-dispatch_ge, length-get_ready_tasks,
  length-set_ge, length-set_known,
}

-- At most `limit` tasks are in flight; the loop waits only while there is one, and ends without any.
pub record IsBounded {Text : Type 0} (limit : ℕ) (p : Pool Text) : Type 0 where
  pub bound : length p.in_flight ≤ limit
  pub waits : p.control ≡ awaiting → 1 ≤ length p.in_flight
  pub ends : p.control ≡ left → length p.in_flight ≡ 0

fill_task_batch-bound :
    (limit : ℕ) (tasks : OrderedMap ExecutionTask) (flight : OrderedMap Worker)
    → 1 ≤ limit
    → length flight ≤ limit
    → length (fill_task_batch limit tasks flight).1 ≤ limit
unfolding fill_task_batch
fill_task_batch-bound limit tasks flight one h =
    let ready = get_ready_tasks tasks (keys flight) (limit - length flight) in
    ground (
      arith,
      length-get_ready_tasks tasks (keys flight) (limit - length flight),
      length-call_tasks ready flight,
    )

-- A filled batch says that nothing is left exactly if no task is in flight.
call_tasks-done :
    (ready : List ExecutionTask) (flight : OrderedMap Worker)
    → (if is_nil ready then is_nil (call_tasks ready flight) else false)
      ≡ (length (call_tasks ready flight) == 0)
unfolding call_tasks
call_tasks-done [] flight = is_nil-length flight
call_tasks-done (t ∷ ts) flight = ground (
  arith,
  length-dispatch_ge ts (OrderedMap.set t.task_id (called t) flight),
  (length-set_ge t.task_id (called t) flight).1,
)

fill_task_batch-done :
    (limit : ℕ) (tasks : OrderedMap ExecutionTask) (flight : OrderedMap Worker)
    → 1 ≤ limit
    → (fill_task_batch limit tasks flight).0 ≡ (length (fill_task_batch limit tasks flight).1 == 0)
unfolding fill_task_batch
fill_task_batch-done limit tasks flight one = elim (Bool-cases (ltb (length flight) limit)) [
  | inl room ↦
      rw (fill_task_batch, room)
        (call_tasks-done (get_ready_tasks tasks (keys flight) (limit - length flight)) flight)
  | inr full ↦ rw (fill_task_batch, full) (ground (arith, full, one))
]

module _ {Text : Type 0} (limit : ℕ) (one : 1 ≤ limit) where
  begin_round-IsBounded :
      (tasks : OrderedMap ExecutionTask) (p : Pool Text)
      → IsBounded limit p
      → IsBounded limit (begin_round limit tasks p)
  unfolding begin_round
  begin_round-IsBounded tasks p h =
      let done = fill_task_batch-done limit tasks p.in_flight one in
      let bound = fill_task_batch-bound limit tasks p.in_flight one h.bound in
      let none = is_nil-length p.in_flight in
      record {
        bound = ground (arith, bound, h.bound);
        waits = λ w. ground (arith, done, none, w);
        ends = λ e. ground (arith, done, none, e);
      }

  end_round-IsBounded :
      (id : String) (outcome : Outcome) (p : Pool Text)
      → IsBounded limit p
      → IsBounded limit (end_round id outcome p)
  unfolding end_round
  end_round-IsBounded id outcome p h = record {
    bound = omega (arith, h.bound, length-delete_le id p.in_flight);
    waits = λ w. cc;
    ends = λ e. cc;
  }

  with_worker-IsBounded :
      (id : String) (v w : Worker) (run : Run Text) (p : Pool Text)
      → OrderedMap.get id p.in_flight ≡ some v
      → IsBounded limit p
      → IsBounded limit (with_worker id w run p)
  with_worker-IsBounded id v w run p there h =
      let same = length-set_known id w v p.in_flight there in
      record {
        bound = omega (arith, h.bound, same);
        waits = λ e. omega (arith, h.waits e, same);
        ends = λ e. omega (arith, h.ends e, same);
      }

module _ (platform : Platform) (config : EngineConfig) (limit : ℕ) (one : 1 ≤ limit) where
  open platform use {Text}

  Advance-IsBounded :
      {p q : Pool Text} → Advance platform config limit p q → IsBounded limit p → IsBounded limit q
  Advance-IsBounded {p} (starts_round tasks at loaded) h = begin_round-IsBounded limit one tasks p h
  Advance-IsBounded {p} (ends_round id outcome at there) h =
      end_round-IsBounded limit one id outcome p h
  Advance-IsBounded {p} (begins id t now there) h =
      with_worker-IsBounded limit one id (called t) _ _ p there h
  Advance-IsBounded {p} (finishes id t execution now there) h =
      with_worker-IsBounded limit one id (executing t) _ _ p there h

  Step-IsBounded :
      {p q : Pool Text} → Step platform config limit p q → IsBounded limit p → IsBounded limit q
  Step-IsBounded (advances a) h = Advance-IsBounded a h
  Step-IsBounded stops h = record { bound = h.bound; waits = h.waits; ends = h.ends }

-- However the workers' steps, those of the loop and a stop follow one another, from a pool without a task at
-- the top of the loop: at most as many tasks are in flight as the limit says, the loop waits for a worker
-- only while there is one, and it ends only with none.
pub Steps-IsBounded :
    (platform : Platform) (config : EngineConfig) (limit : ℕ) (p q : Pool (platform.Text))
    → 1 ≤ limit
    → p.in_flight ≡ []
    → p.control ≡ at_top
    → Steps platform config limit p q
    → IsBounded limit q
Steps-IsBounded platform config limit p q one empty top none_yet = record {
  bound = omega (arith, ap length empty);
  waits = λ w. cc;
  ends = λ e. ap length empty;
}
Steps-IsBounded platform config limit p r one empty top (next {q = q} path step) =
    Step-IsBounded platform config limit one step
      (Steps-IsBounded platform config limit p q one empty top path)
