-- ===== src/Queue/Index/Invariant.antt =====
-- The stored counts are those of the tasks, after every operation of the index.
use codemachine_pipeline.Prelude.{
  zero, suc, ◌≢◌, String, ◌≡◌, refl, sym, ◌∙◌, ◌<◌, ◌↔◌, true, none, some, List, [], ◌∷◌,
  Option-cases, inl, inr, arith,
}
use codemachine_pipeline.Prelude.OrderedMap
use codemachine_pipeline.Prelude.OrderedMap.{OrderedMap, values}
use codemachine_pipeline.Prelude.Int.{ℤ, pos, negsuc, inc, dec, inc-dec, int_eq→eq, int_eq_refl}
use codemachine_pipeline.Queue.Types.{
  TaskStatus, ExecutionTask, TaskPatch, merge, create, update, OperationType, QueueOperation,
  QueueCounts, QueueIndexState,
}
use codemachine_pipeline.Queue.Index.{
  count_in, count_out, insert_entry, patch_entry, delete_entry, dispatch, apply_operation, replay,
  recalculate_counts, counts_eq, validate_counts,
}
use codemachine_pipeline.Queue.Index.Counts.{
  tally, IsCounted, recalculate-eq-tally, tally-set_new, tally-set_old, tally-delete, count_move-eq,
}

IsCounted-iff : (s : QueueIndexState) → IsCounted s ↔ (s.counts ≡ tally s.tasks)
unfolding recalculate_counts
IsCounted-iff s =
    (λ h. h ∙ recalculate-eq-tally s.tasks, λ h. h ∙ sym (recalculate-eq-tally s.tasks))

module _ (s : QueueIndexState) where
  insert_entry-counts :
      (k : String) (t : ExecutionTask)
      → OrderedMap.get k s.tasks ≡ none
      → s.counts ≡ tally s.tasks
      → (insert_entry s k t).counts ≡ tally (insert_entry s k t).tasks
  unfolding insert_entry
  insert_entry-counts k t fresh h = cc (tally-set_new k t s.tasks fresh)

  patch_entry-counts :
      (k : String) (p : TaskPatch)
      → s.counts ≡ tally s.tasks
      → (patch_entry s k p).counts ≡ tally (patch_entry s k p).tasks
  unfolding patch_entry merge
  patch_entry-counts k p h = elim (Option-cases (OrderedMap.get k s.tasks)) [
    | inl missing ↦ rw (missing, patch_entry) h
    | inr (t, found) ↦
        rw (found, patch_entry)
          (cc
            (count_move-eq t.status p.status s.counts, tally-set_old k t (merge t p) s.tasks found))
  ]

  delete_entry-counts :
      (k : String)
      → s.counts ≡ tally s.tasks
      → (delete_entry s k).counts ≡ tally (delete_entry s k).tasks
  unfolding delete_entry
  delete_entry-counts k h = elim (Option-cases (OrderedMap.get k s.tasks)) [
    | inl missing ↦ rw (missing, delete_entry) h
    | inr (t, found) ↦ rw (found, delete_entry) (cc (tally-delete k t s.tasks found))
  ]

-- A `create` names a key that the index does not hold.
abbrev pub CreatesFresh : QueueIndexState → QueueOperation → Type 0
CreatesFresh s op = op.op ≡ create → OrderedMap.get op.task_id s.tasks ≡ none

dispatch-counts :
    (o : OperationType) (s : QueueIndexState) (op : QueueOperation)
    → (o ≡ create → OrderedMap.get op.task_id s.tasks ≡ none)
    → s.counts ≡ tally s.tasks
    → (dispatch o s op).counts ≡ tally (dispatch o s op).tasks
unfolding dispatch
dispatch-counts create s op fresh h = elim (Option-cases op.task) [
  | inl missing ↦ rw missing h
  | inr (t, given) ↦ rw given (insert_entry-counts s op.task_id t (fresh refl) h)
]
dispatch-counts update s op fresh h = elim (Option-cases op.patch) [
  | inl missing ↦ rw missing h
  | inr (p, given) ↦ rw given (patch_entry-counts s op.task_id p h)
]
dispatch-counts OperationType.delete s op fresh h = delete_entry-counts s op.task_id h

apply_operation-counts :
    (s : QueueIndexState) (op : QueueOperation)
    → CreatesFresh s op
    → s.counts ≡ tally s.tasks
    → (apply_operation s op).counts ≡ tally (apply_operation s op).tasks
unfolding apply_operation
apply_operation-counts s op fresh h = ground (arith, dispatch-counts op.op s op fresh h)

-- Applying an operation keeps the stored counts equal to the recalculated ones, provided that
-- a `create` names a key that the index does not hold.
pub apply_operation-IsCounted :
    (s : QueueIndexState) (op : QueueOperation)
    → CreatesFresh s op
    → IsCounted s
    → IsCounted (apply_operation s op)
apply_operation-IsCounted s op fresh h =
    (IsCounted-iff (apply_operation s op)).1
      (apply_operation-counts s op fresh ((IsCounted-iff s).0 h))

-- Every `create` of a list of operations names a key that the index does not hold by then.
abbrev pub CreatesAllFresh : QueueIndexState → List QueueOperation → Type 0
CreatesAllFresh s [] = Unit
CreatesAllFresh s (op ∷ ops) = CreatesFresh s op × CreatesAllFresh (apply_operation s op) ops

-- Replaying a list of operations keeps the stored counts equal to the recalculated ones, provided
-- that each `create` in it names a key that the index does not hold when it is applied.
pub replay-IsCounted :
    (s : QueueIndexState) (ops : List QueueOperation)
    → CreatesAllFresh s ops
    → IsCounted s
    → IsCounted (replay s ops)
unfolding replay
replay-IsCounted s [] fresh h = h
replay-IsCounted s (op ∷ ops) fresh h =
    replay-IsCounted (apply_operation s op) ops fresh.1 (apply_operation-IsCounted s op fresh.0 h)

inc_ne : (a : ℤ) → inc a ≢ a
unfolding inc
inc_ne (pos n) h = ground arith
inc_ne (negsuc zero) h = cc
inc_ne (negsuc (suc n)) h = ground arith

total-count_out : (a : TaskStatus) (c : QueueCounts) → (count_out a c).total ≡ dec c.total
unfolding count_out
total-count_out a c = ground arith

total-count_in : (a : TaskStatus) (c : QueueCounts) → (count_in a c).total ≡ inc c.total
unfolding count_in
total-count_in a c = ground arith

total-set_old :
    (k : String) (old new : ExecutionTask) (m : OrderedMap ExecutionTask)
    → OrderedMap.get k m ≡ some old
    → (tally (OrderedMap.set k new m)).total ≡ (tally m).total
total-set_old k old new m found = cc (
  tally-set_old k old new m found,
  total-count_in new.status (count_out old.status (tally m)),
  total-count_out old.status (tally m),
  inc-dec (tally m).total,
)

apply_operation-create :
    (s : QueueIndexState) (op : QueueOperation) (new : ExecutionTask)
    → op.op ≡ create
    → op.task ≡ some new
    → s.last_seq < op.seq
    → (apply_operation s op).counts ≡ count_in new.status s.counts
      × ((apply_operation s op).tasks ≡ OrderedMap.set op.task_id new s.tasks)
unfolding apply_operation dispatch insert_entry
apply_operation-create s op new created given newer = (ground arith, ground arith)

-- A newer `create` of a key that the index holds leaves counts that are not those of the tasks:
-- the task is replaced, and is counted once more.
pub apply_operation-drifts :
    (s : QueueIndexState) (op : QueueOperation) (old new : ExecutionTask)
    → op.op ≡ create
    → op.task ≡ some new
    → s.last_seq < op.seq
    → OrderedMap.get op.task_id s.tasks ≡ some old
    → IsCounted s
    → ¬ IsCounted (apply_operation s op)
apply_operation-drifts s op old new created given newer found h drifted =
    let (counts, tasks) = apply_operation-create s op new created given newer in
    inc_ne s.counts.total (
      cc (
        counts,
        tasks,
        (IsCounted-iff s).0 h,
        (IsCounted-iff (apply_operation s op)).0 drifted,
        total-count_in new.status s.counts,
        total-set_old op.task_id old new s.tasks found,
      ))

counts_eq_iff : (a b : QueueCounts) → (counts_eq a b ≡ true) ↔ (a ≡ b)
unfolding counts_eq
counts_eq_iff a b = (
  λ h. ground (
    arith,
    int_eq→eq a.total b.total,
    int_eq→eq a.pending b.pending,
    int_eq→eq a.running b.running,
    int_eq→eq a.completed b.completed,
    int_eq→eq a.failed b.failed,
    int_eq→eq a.skipped b.skipped,
    int_eq→eq a.cancelled b.cancelled,
  ),
  λ h. rw h (simp int_eq_refl),
)

-- `validateCounts` answers true exactly when the stored counts are those of the tasks.
pub validate_counts_iff : (s : QueueIndexState) → (validate_counts s ≡ true) ↔ IsCounted s
unfolding validate_counts
validate_counts_iff s = (
  λ h. sym ((counts_eq_iff (recalculate_counts s) s.counts).0 h),
  λ h. (counts_eq_iff (recalculate_counts s) s.counts).1 (sym h),
)
