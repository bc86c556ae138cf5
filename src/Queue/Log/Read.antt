-- ===== src/Queue/Log/Read.antt =====
-- Reading back what was written, when every line was written whole.
use codemachine_pipeline.Prelude.{
  ℕ, ◌≤◌, ◌≡◌, refl, Bool, Option, some, List, [], ◌∷◌, ◌++◌, map, arith, eq_iff, filter, All,
  All-append, Bool-cases, inl, inr,
}
use codemachine_pipeline.Queue.Types.{OperationType, create, update, QueueOperation}
use codemachine_pipeline.Queue.Log.{
  Platform, QueueDir, operation, sort_by_seq, newer_than, no_operations, compute_operation_checksum,
  verify_operation_checksum, read_line, read_lines, read_operations_with_stats,
}
use codemachine_pipeline.Queue.Values.{
  operation_type, operation_name, is_queue_operation, operation_value,
}

operation_type-operation_name : (o : OperationType) → operation_type (operation_name o) ≡ some o
unfolding operation_type
operation_type-operation_name create = refl
operation_type-operation_name update = refl
operation_type-operation_name OperationType.delete = refl

-- The guard accepts what an operation is parsed back to.
pub is_queue_operation-operation_value :
    (op : QueueOperation) → is_queue_operation (operation_value op) ≡ some op
unfolding is_queue_operation
is_queue_operation-operation_value op = rw operation_type-operation_name

-- In the order of their sequence numbers.
abbrev pub IsSorted : List QueueOperation → Type 0
IsSorted [] = Unit
IsSorted (x ∷ xs) = All (λ y. x.seq ≤ y.seq) xs × IsSorted xs

pub sort_by_seq_of_IsSorted : (ops : List QueueOperation) → IsSorted ops → sort_by_seq ops ≡ ops
unfolding sort_by_seq
sort_by_seq_of_IsSorted [] h = refl
sort_by_seq_of_IsSorted (x ∷ []) h = refl
sort_by_seq_of_IsSorted (x ∷ y ∷ ops) h = rw (sort_by_seq_of_IsSorted (y ∷ ops) h.1) (ground arith)

pub filter-All {ℓ} :
    (P : QueueOperation → Type ℓ) (p : QueueOperation → Bool) (ops : List QueueOperation)
    → All P ops
    → All P (filter p ops)
filter-All P p [] h = tt
filter-All P p (x ∷ ops) h = elim (Bool-cases (p x)) [
  | inl kept ↦ rw kept (h.0, filter-All P p ops h.1)
  | inr left_out ↦ rw left_out (filter-All P p ops h.1)
]

pub filter-IsSorted :
    (p : QueueOperation → Bool) (ops : List QueueOperation) → IsSorted ops → IsSorted (filter p ops)
filter-IsSorted p [] h = tt
filter-IsSorted p (x ∷ ops) h = elim (Bool-cases (p x)) [
  | inl kept ↦ rw kept (filter-All (λ y. x.seq ≤ y.seq) p ops h.0, filter-IsSorted p ops h.1)
  | inr left_out ↦ rw left_out (filter-IsSorted p ops h.1)
]

-- One more operation at the end, not older than the others.
pub IsSorted-snoc :
    (ops : List QueueOperation) (last : QueueOperation)
    → All (λ op. op.seq ≤ last.seq) ops
    → IsSorted ops
    → IsSorted (ops ++ last ∷ [])
IsSorted-snoc [] last below h = (tt, tt)
IsSorted-snoc (x ∷ ops) last below h = (
  All-append (λ y. x.seq ≤ y.seq) ops (last ∷ []) h.0 (below.0, tt),
  IsSorted-snoc ops last below.1 h.1,
)

pub filter-append {ℓ} :
    {A : Type ℓ} (p : A → Bool) (xs ys : List A) → filter p (xs ++ ys) ≡ filter p xs ++ filter p ys
filter-append p [] ys = refl
filter-append p (x ∷ xs) ys = ground (arith, filter-append p xs ys)

module _ (platform : Platform) where
  open platform use {Text, write_operation, parse_operation, parse-write_operation}

  -- The operation carries the checksum of its own content.
  abbrev pub IsSealed : QueueOperation → Type 0
  IsSealed op = compute_operation_checksum platform op ≡ op.checksum

  pub read_line-write_operation :
      (op : QueueOperation) → IsSealed op → read_line platform (write_operation op) ≡ operation op
  unfolding read_line verify_operation_checksum
  read_line-write_operation op h = ground (
    arith,
    parse-write_operation op,
    is_queue_operation-operation_value op,
    eq_iff (compute_operation_checksum platform op) op.checksum,
  )

  pub read_lines-write_operation :
      (after : Option ℕ) (ops : List QueueOperation)
      → All IsSealed ops
      → read_lines platform after (map write_operation ops)
        ≡ record no_operations { operations = filter (newer_than after) ops }
  unfolding read_lines
  read_lines-write_operation after [] h = refl
  read_lines-write_operation after (op ∷ ops) h =
      rw (read_line-write_operation op h.0, read_lines-write_operation after ops h.1) (ground arith)

  -- A log of sealed operations in order is read back whole, with no failure.
  pub read_operations_with_stats-write_operation :
      (dir : QueueDir Text) (after : Option ℕ) (ops : List QueueOperation)
      → dir.log ≡ some (map write_operation ops)
      → All IsSealed ops
      → IsSorted ops
      → read_operations_with_stats platform dir after
        ≡ record no_operations { operations = filter (newer_than after) ops }
  unfolding read_operations_with_stats
  read_operations_with_stats-write_operation dir after ops log good sorted =
      rw (log, read_lines-write_operation after ops good)
        (rw (sort_by_seq_of_IsSorted _ (filter-IsSorted (newer_than after) ops sorted)))
