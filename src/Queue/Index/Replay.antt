-- ===== src/Queue/Index/Replay.antt =====
-- Replaying operations: what is not newer than the index is skipped.
use codemachine_pipeline.Prelude.{ℕ, ◌≡◌, refl, ◌≤◌, List, [], ◌∷◌, ◌++◌, arith, All, Bool, false}
use codemachine_pipeline.Queue.Types.{QueueOperation, QueueIndexState}
use codemachine_pipeline.Queue.Index.{
  apply_operation, dispatch, insert_entry, patch_entry, delete_entry, replay,
}

module _ (s : QueueIndexState) (op : QueueOperation) where
  pub apply_operation_stale : op.seq ≤ s.last_seq → apply_operation s op ≡ s
  unfolding apply_operation
  apply_operation_stale h = ground arith

  pub last_seq-apply_operation :
      (s.last_seq ≤ (apply_operation s op).last_seq) × (op.seq ≤ (apply_operation s op).last_seq)
  unfolding apply_operation
  last_seq-apply_operation = ground arith

-- The index has applied, or skipped, all of the operations.
abbrev pub Covers : QueueIndexState → List QueueOperation → Type 0
Covers s ops = All (λ op. op.seq ≤ s.last_seq) ops

pub replay_of_Covers :
    (s : QueueIndexState) (ops : List QueueOperation) → Covers s ops → replay s ops ≡ s
unfolding replay
replay_of_Covers s [] h = refl
replay_of_Covers s (op ∷ ops) h = rw (apply_operation_stale s op h.0) (replay_of_Covers s ops h.1)

pub last_seq-replay :
    (s : QueueIndexState) (ops : List QueueOperation) → s.last_seq ≤ (replay s ops).last_seq
unfolding replay
last_seq-replay s [] = omega arith
last_seq-replay s (op ∷ ops) =
    omega (arith, last_seq-apply_operation s op, last_seq-replay (apply_operation s op) ops)

last_seq-apply_operation_le :
    (s : QueueIndexState) (op : QueueOperation) (n : ℕ)
    → s.last_seq ≤ n
    → op.seq ≤ n
    → (apply_operation s op).last_seq ≤ n
unfolding apply_operation
last_seq-apply_operation_le s op n h k = ground arith

pub last_seq-replay_le :
    (s : QueueIndexState) (ops : List QueueOperation) (n : ℕ)
    → s.last_seq ≤ n
    → All (λ (op : QueueOperation). op.seq ≤ n) ops
    → (replay s ops).last_seq ≤ n
unfolding replay
last_seq-replay_le s [] n h k = h
last_seq-replay_le s (op ∷ ops) n h (k, later) =
    last_seq-replay_le (apply_operation s op) ops n (last_seq-apply_operation_le s op n h k) later

pub replay-Covers : (s : QueueIndexState) (ops : List QueueOperation) → Covers (replay s ops) ops
unfolding replay
replay-Covers s [] = tt
replay-Covers s (op ∷ ops) = (
  omega (arith, last_seq-apply_operation s op, last_seq-replay (apply_operation s op) ops),
  replay-Covers (apply_operation s op) ops,
)

pub replay-append :
    (s : QueueIndexState) (xs ys : List QueueOperation)
    → replay s (xs ++ ys) ≡ replay (replay s xs) ys
unfolding replay
replay-append s [] ys = refl
replay-append s (op ∷ xs) ys = replay-append (apply_operation s op) xs ys

-- Replaying a list of operations a second time changes nothing, in whatever order it stands.
pub replay_idem :
    (s : QueueIndexState) (ops : List QueueOperation) → replay (replay s ops) ops ≡ replay s ops
replay_idem s ops = replay_of_Covers (replay s ops) ops (replay-Covers s ops)

-- the index with no uncommitted changes
abbrev pub settle : QueueIndexState → QueueIndexState
settle s = record s { dirty = false }

-- The `dirty` flag has no part in what an operation does.
pub apply_operation_dirty :
    (s : QueueIndexState) (b : Bool) (op : QueueOperation)
    → settle (apply_operation (record s { dirty = b }) op) ≡ settle (apply_operation s op)
unfolding apply_operation dispatch insert_entry patch_entry delete_entry
apply_operation_dirty s b op = ground arith
