-- ===== src/Queue/Index.antt =====
-- The in-memory index of src/workflows/queue/queueMemoryIndex.ts. A function that changes the
-- state in place returns the new state. Its theorems are in the modules below.
pub mod Counts
pub mod Invariant
pub mod Replay
use codemachine_pipeline.Prelude.{
  ℕ, String, Bool, true, false, ◌&&◌, Option, none, some, List, [], ◌∷◌, leb, if◌then◌else◌, filter,
  all, head?,
}
use codemachine_pipeline.Prelude.OrderedMap
use codemachine_pipeline.Prelude.OrderedMap.{OrderedMap, values}
use codemachine_pipeline.Prelude.Int.{ℤ, inc, dec, int_eq, sub_ℕ}
use codemachine_pipeline.Queue.Types.{
  TaskStatus, pending, running, completed, failed, skipped, cancelled, status_eq, ExecutionTask,
  TaskPatch, merge, OperationType, create, update, QueueOperation, QueueCounts,
  create_empty_queue_counts, QueueIndexState, DependencyGraph,
}

-- `counts[STATUS_TO_COUNT_FIELD[status]]`, changed by `f`
unfoldable pub adjust_field : (ℤ → ℤ) → TaskStatus → QueueCounts → QueueCounts
adjust_field f pending c = record c { pending = f c.pending }
adjust_field f running c = record c { running = f c.running }
adjust_field f completed c = record c { completed = f c.completed }
adjust_field f failed c = record c { failed = f c.failed }
adjust_field f skipped c = record c { skipped = f c.skipped }
adjust_field f cancelled c = record c { cancelled = f c.cancelled }

-- `counts.total += 1; counts[field] += 1`, and the same with `-= 1`
unfoldable pub count_in : TaskStatus → QueueCounts → QueueCounts
unfolding adjust_field
count_in status c = adjust_field inc status (record c { total = inc c.total })

unfoldable pub count_out : TaskStatus → QueueCounts → QueueCounts
unfolding adjust_field
count_out status c = adjust_field dec status (record c { total = dec c.total })

-- The counts move only for a patch that names another status.
unfoldable pub count_move : TaskStatus → Option TaskStatus → QueueCounts → QueueCounts
unfolding adjust_field status_eq
count_move old none c = c
count_move old (some new) c =
    if status_eq new old then c else adjust_field inc new (adjust_field dec old c)

unfoldable pub insert_entry : QueueIndexState → String → ExecutionTask → QueueIndexState
insert_entry s key task = record s {
  tasks = OrderedMap.set key task s.tasks;
  counts = count_in task.status s.counts;
}

unfoldable pub patch_entry : QueueIndexState → String → TaskPatch → QueueIndexState
patch_entry s key patch = elim (OrderedMap.get key s.tasks) [
  | none ↦ s
  | some task ↦ record s {
    tasks = OrderedMap.set key (merge task patch) s.tasks;
    counts = count_move task.status patch.status s.counts;
  }
]

unfoldable pub delete_entry : QueueIndexState → String → QueueIndexState
delete_entry s key = elim (OrderedMap.get key s.tasks) [
  | none ↦ s
  | some task ↦ record s {
    tasks = OrderedMap.delete key s.tasks;
    counts = count_out task.status s.counts;
  }
]

-- the `switch` of `applyOperation`
unfoldable pub dispatch : OperationType → QueueIndexState → QueueOperation → QueueIndexState
dispatch create s op = elim op.task [ none ↦ s | some task ↦ insert_entry s op.task_id task ]
dispatch update s op = elim op.patch [ none ↦ s | some patch ↦ patch_entry s op.task_id patch ]
dispatch OperationType.delete s op = delete_entry s op.task_id

-- An operation that is not newer than the last one applied is skipped.
unfoldable pub apply_operation : QueueIndexState → QueueOperation → QueueIndexState
apply_operation s op =
    if leb op.seq s.last_seq
    then s
    else record (dispatch op.op s op) { last_seq = op.seq; dirty = true }

-- the replay loop of `hydrateIndex`
unfoldable pub replay : QueueIndexState → List QueueOperation → QueueIndexState
replay s [] = s
replay s (op ∷ ops) = replay (apply_operation s op) ops

abbrev pub get_task : QueueIndexState → String → Option ExecutionTask
get_task s key = OrderedMap.get key s.tasks

unfoldable pub get_tasks_by_status : QueueIndexState → TaskStatus → List ExecutionTask
get_tasks_by_status s status = filter (λ t. status_eq t.status status) (values s.tasks)

-- Every id has a task, and that task is completed.
unfoldable pub all_completed : OrderedMap ExecutionTask → List String → Bool
unfolding status_eq
all_completed tasks ids =
    all
      (λ id. elim (OrderedMap.get id tasks) [
        | none ↦ false
        | some t ↦ status_eq t.status completed
      ])
      ids

unfoldable pub are_dependencies_completed : QueueIndexState → String → DependencyGraph → Bool
unfolding all_completed
are_dependencies_completed s key graph = elim (OrderedMap.get key graph) [
  | none ↦ true
  | some ids ↦ all_completed s.tasks ids
]

-- the test in the loops of `getReadyTasks` and `getNextReadyTask`
unfoldable pub is_ready : QueueIndexState → DependencyGraph → ExecutionTask → Bool
unfolding status_eq are_dependencies_completed
is_ready s graph t = status_eq t.status pending && are_dependencies_completed s t.task_id graph

unfoldable pub get_ready_tasks : QueueIndexState → DependencyGraph → List ExecutionTask
unfolding is_ready
get_ready_tasks s graph = filter (is_ready s graph) (values s.tasks)

unfoldable pub get_next_ready_task : QueueIndexState → DependencyGraph → Option ExecutionTask
unfolding is_ready
get_next_ready_task s graph = head? (filter (is_ready s graph) (values s.tasks))

unfoldable pub update_task : QueueIndexState → String → TaskPatch → QueueIndexState
update_task s key updates = elim (OrderedMap.get key s.tasks) [
  | none ↦ s
  | some task ↦ record (patch_entry s key updates) { dirty = true }
]

unfoldable pub recalculate : QueueCounts → List ExecutionTask → QueueCounts
recalculate c [] = c
recalculate c (t ∷ ts) = recalculate (count_in t.status c) ts

unfoldable pub recalculate_counts : QueueIndexState → QueueCounts
unfolding recalculate create_empty_queue_counts
recalculate_counts s = recalculate create_empty_queue_counts (values s.tasks)

unfoldable pub counts_eq : QueueCounts → QueueCounts → Bool
unfolding int_eq
counts_eq a b =
    int_eq a.total b.total
    && int_eq a.pending b.pending
    && int_eq a.running b.running
    && int_eq a.completed b.completed
    && int_eq a.failed b.failed
    && int_eq a.skipped b.skipped
    && int_eq a.cancelled b.cancelled

unfoldable pub validate_counts : QueueIndexState → Bool
unfolding counts_eq recalculate_counts
validate_counts s = counts_eq (recalculate_counts s) s.counts

unfoldable pub repair_counts : QueueIndexState → QueueIndexState
repair_counts s = record s { counts = recalculate_counts s; dirty = true }

unfoldable pub mark_dirty : QueueIndexState → QueueIndexState
mark_dirty s = record s { dirty = true }

unfoldable pub mark_clean : QueueIndexState → ℕ → QueueIndexState
mark_clean s snapshot_seq = record s { dirty = false; snapshot_seq = snapshot_seq }

unfoldable pub add_task : QueueIndexState → ExecutionTask → QueueIndexState
add_task s task =
    if OrderedMap.has task.task_id s.tasks
    then s
    else record (insert_entry s task.task_id task) { dirty = true }

unfoldable pub remove_task : QueueIndexState → String → QueueIndexState
remove_task s key = elim (OrderedMap.get key s.tasks) [
  | none ↦ s
  | some task ↦ record (delete_entry s key) { dirty = true }
]

unfoldable pub clear_index : QueueIndexState → QueueIndexState
clear_index s = record {
  tasks = [];
  counts = create_empty_queue_counts;
  last_seq = 0;
  snapshot_seq = 0;
  dirty = true;
}

unfoldable pub get_operations_since_snapshot : QueueIndexState → ℤ
get_operations_since_snapshot s = sub_ℕ s.last_seq s.snapshot_seq
