-- ===== src/Engine/Pool/Flight.antt =====
-- How many tasks are in flight after some are taken and dispatched.
use codemachine_pipeline.Prelude.{
  ℕ, ◌+◌, ◌≤◌, ◌≡◌, ap, String, some, List, [], ◌∷◌, ◌++◌, ◌==◌, length, length-take, arith,
}
use codemachine_pipeline.Prelude.OrderedMap
use codemachine_pipeline.Prelude.OrderedMap.{OrderedMap, keys, values}
use codemachine_pipeline.Queue.Types.{ExecutionTask}
use codemachine_pipeline.Engine.Ready.{get_ready_tasks}
use codemachine_pipeline.Engine.Ready.Order.{
  get_ready_tasks-eq-filters, running_ones, pending_ones, retryable_ones,
}
use codemachine_pipeline.Engine.Pool.{Worker, called, call_tasks, is_nil}

pub length-get_ready_tasks :
    (tasks : OrderedMap ExecutionTask) (flight : List String) (limit : ℕ)
    → length (get_ready_tasks tasks flight limit) ≤ limit
length-get_ready_tasks tasks flight limit =
    let all =
      running_ones tasks flight (values tasks)
      ++ (pending_ones tasks flight (values tasks) ++ retryable_ones tasks flight (values tasks)) in
    omega (arith, ap length (get_ready_tasks-eq-filters tasks flight limit), length-take limit all)

module _ {V : Type 0} where
  length-set_le :
      (k : String) (v : V) (m : OrderedMap V) → length (OrderedMap.set k v m) ≤ length m + 1
  unfolding OrderedMap.set
  length-set_le k v [] = omega arith
  length-set_le k v ((j, w) ∷ m) = ground (arith, length-set_le k v m)

  pub length-set_known :
      (k : String) (v w : V) (m : OrderedMap V)
      → OrderedMap.get k m ≡ some w
      → length (OrderedMap.set k v m) ≡ length m
  unfolding OrderedMap.set OrderedMap.get
  length-set_known k v w [] e = cc
  length-set_known k v w ((j, u) ∷ m) e = ground (arith, length-set_known k v w m, e)

  pub length-delete_le : (k : String) (m : OrderedMap V) → length (OrderedMap.delete k m) ≤ length m
  unfolding OrderedMap.delete
  length-delete_le k [] = omega arith
  length-delete_le k ((j, w) ∷ m) = ground (arith, length-delete_le k m)

  pub is_nil-length : (m : List V) → is_nil m ≡ (length m == 0)
  is_nil-length [] = ground arith
  is_nil-length (x ∷ xs) = ground arith

pub length-call_tasks :
    (ts : List ExecutionTask) (flight : OrderedMap Worker)
    → length (call_tasks ts flight) ≤ length flight + length ts
unfolding call_tasks
length-call_tasks [] flight = omega arith
length-call_tasks (t ∷ ts) flight = omega (
  arith,
  length-call_tasks ts (OrderedMap.set t.task_id (called t) flight),
  length-set_le t.task_id (called t) flight,
)

pub length-set_ge :
    {V : Type 0} (k : String) (v : V) (m : OrderedMap V)
    → (length m ≤ length (OrderedMap.set k v m)) × (1 ≤ length (OrderedMap.set k v m))
unfolding OrderedMap.set
length-set_ge k v [] = (omega arith, omega arith)
length-set_ge k v ((j, w) ∷ m) = ground (arith, length-set_ge k v m)

pub length-dispatch_ge :
    (ts : List ExecutionTask) (flight : OrderedMap Worker)
    → length flight ≤ length (call_tasks ts flight)
unfolding call_tasks
length-dispatch_ge [] flight = omega arith
length-dispatch_ge (t ∷ ts) flight = omega (
  arith,
  length-dispatch_ge ts (OrderedMap.set t.task_id (called t) flight),
  (length-set_ge t.task_id (called t) flight).0,
)
