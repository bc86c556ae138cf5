-- ===== src/Queue/Log.antt =====
-- The write-ahead log of src/workflows/queue/queueOperationsLog.ts.
-- A file is the list of its lines.
pub mod Read
pub mod Batch
use mathlib.Core.List.{reverse}
use codemachine_pipeline.Prelude.{
  ℕ, suc, ◌+◌, String, ◌≡◌, Bool, true, false, ◌&&◌, Option, none, some, List, [], ◌∷◌, ◌++◌, ltb,
  leb, str_eq, if◌then◌else◌, length, map, ◌>>=◌,
}
use codemachine_pipeline.Prelude.Int.{ℤ, pos, negsuc}
use codemachine_pipeline.Prelude.OrderedMap.{OrderedMap}
use codemachine_pipeline.Queue.Types.{
  ExecutionTask, TaskPatch, or_else, OperationType, create, update, QueueOperation, QueueCounts,
  DependencyGraph, QueueSnapshotV2,
}
use codemachine_pipeline.Queue.Values.{
  OperationValue, SnapshotValue, is_queue_operation, operation_value, snapshot_value,
}

-- An operation before `seq` and `checksum` are assigned.
pub record NewOperation : Type 0 where
  pub op : OperationType
  pub ts : String
  pub task_id : String
  pub patch : Option TaskPatch
  pub task : Option ExecutionTask

-- What the program takes from Node: JSON, SHA-256 and the size of a line in bytes. `none` stands
-- for a `JSON.parse` that throws. Only JSON's round trip is assumed, and nothing of the hashes.
pub record Platform : Type 1 where
  pub Text : Type 0
  pub write_operation : QueueOperation → Text
  pub parse_operation : Text → Option OperationValue
  pub hash_operation : ℕ → NewOperation → String
  pub write_snapshot : QueueSnapshotV2 → Text
  pub parse_snapshot : Text → Option SnapshotValue
  pub hash_snapshot : OrderedMap ExecutionTask → QueueCounts → DependencyGraph → String
  pub size_bytes : Text → ℕ
  pub parse-write_operation :
      (op : QueueOperation) → parse_operation (write_operation op) ≡ some (operation_value op)
  pub parse-write_snapshot :
      (s : QueueSnapshotV2) → parse_snapshot (write_snapshot s) ≡ some (snapshot_value s)

pub data CounterFile : Type 0 where
  missing unreadable : CounterFile
  holds : ℕ → CounterFile

-- The files of a queue directory: `none` is a file that is not there.
pub record QueueDir (Text : Type 0) : Type 0 where
  pub log : Option (List Text)
  pub counter : CounterFile
  pub snapshot : Option Text

pub data LineResult : Type 0 where
  parse_error checksum_failure : LineResult
  operation : QueueOperation → LineResult

pub record ReadOperationsResult : Type 0 where
  pub operations : List QueueOperation
  pub checksum_failures : ℕ
  pub parse_errors : ℕ

-- `operations.sort((a, b) => a.seq - b.seq)`, which is stable
unfoldable pub insert_by_seq : QueueOperation → List QueueOperation → List QueueOperation
insert_by_seq op [] = op ∷ []
insert_by_seq op (x ∷ xs) = if leb op.seq x.seq then op ∷ x ∷ xs else x ∷ insert_by_seq op xs

unfoldable pub sort_by_seq : List QueueOperation → List QueueOperation
unfolding insert_by_seq
sort_by_seq [] = []
sort_by_seq (x ∷ xs) = insert_by_seq x (sort_by_seq xs)

-- `parsed.seq > seqFilter`, where no filter is -1
abbrev pub newer_than : Option ℕ → QueueOperation → Bool
newer_than none op = true
newer_than (some n) op = ltb n op.seq

-- One more line's result, in front of those of the lines after it.
abbrev pub add_line : Option ℕ → LineResult → ReadOperationsResult → ReadOperationsResult
add_line after parse_error r = record r { parse_errors = suc r.parse_errors }
add_line after checksum_failure r = record r { checksum_failures = suc r.checksum_failures }
add_line after (operation op) r =
    if newer_than after op then record r { operations = op ∷ r.operations } else r

abbrev pub no_operations : ReadOperationsResult
no_operations = record { operations = []; checksum_failures = 0; parse_errors = 0 }

-- `appendedOps[appendedOps.length - 1].seq`, where there is an operation
abbrev pub last_number : ℕ → List QueueOperation → ℕ
last_number seq [] = seq
last_number seq (op ∷ ops) = last_number op.seq ops

module _ (platform : Platform) where
  open platform use {Text, write_operation, parse_operation, hash_operation, size_bytes}

  unfoldable pub compute_operation_checksum : QueueOperation → String
  compute_operation_checksum op =
      hash_operation op.seq
        (record { op = op.op; ts = op.ts; task_id = op.task_id; patch = op.patch; task = op.task })

  unfoldable pub verify_operation_checksum : QueueOperation → Bool
  unfolding compute_operation_checksum
  verify_operation_checksum op = str_eq (compute_operation_checksum op) op.checksum

  -- The sequence number of the first line that holds an operation. Checksums are not verified here.
  unfoldable pub first_sequence : List Text → ℕ
  first_sequence [] = 0
  first_sequence (line ∷ lines) =
      let rest = first_sequence lines in
      elim (parse_operation line >>= is_queue_operation) [ none ↦ rest | some op ↦ op.seq ]

  -- from the end of the log
  unfoldable pub scan_last_sequence : QueueDir Text → ℕ
  unfolding first_sequence
  scan_last_sequence dir = first_sequence (reverse (or_else dir.log []))

  unfoldable pub read_sequence_counter : QueueDir Text → ℕ
  unfolding scan_last_sequence
  read_sequence_counter dir = elim dir.counter [
    | holds seq ↦ seq
    | missing ↦ scan_last_sequence dir
    | unreadable ↦ scan_last_sequence dir
  ]

  unfoldable pub complete : ℕ → NewOperation → QueueOperation
  complete seq op = record {
    op = op.op;
    seq = seq;
    ts = op.ts;
    task_id = op.task_id;
    patch = op.patch;
    task = op.task;
    checksum = hash_operation seq op;
  }

  -- `appendFile` of one line; the file is made if it is not there.
  unfoldable pub append_line : QueueDir Text → QueueOperation → QueueDir Text
  append_line dir op = record dir { log = some (or_else dir.log [] ++ write_operation op ∷ []) }

  abbrev pub write_sequence_counter : QueueDir Text → ℕ → QueueDir Text
  write_sequence_counter dir seq = record dir { counter = holds seq }

  unfoldable pub append_operation : QueueDir Text → NewOperation → QueueDir Text × QueueOperation
  unfolding read_sequence_counter complete append_line
  append_operation dir op =
      let seq = read_sequence_counter dir + 1 in
      let complete_op = complete seq op in
      (write_sequence_counter (append_line dir complete_op) seq, complete_op)

  -- the loop of `appendOperationsBatch`: the complete operations, from the sequence number after `seq`
  unfoldable pub complete_batch : ℕ → List NewOperation → List QueueOperation
  unfolding complete
  complete_batch seq [] = []
  complete_batch seq (op ∷ ops) = complete (seq + 1) op ∷ complete_batch (seq + 1) ops

  unfoldable pub append_operations_batch :
      QueueDir Text → List NewOperation → QueueDir Text × List QueueOperation
  unfolding read_sequence_counter complete_batch append_line
  append_operations_batch dir [] = (dir, [])
  append_operations_batch dir (op ∷ ops) =
      let seq = read_sequence_counter dir in
      let complete_ops = complete_batch seq (op ∷ ops) in
      (
        record dir {
          log = some (or_else dir.log [] ++ map write_operation complete_ops);
          counter = holds (seq + length (op ∷ ops));
        },
        complete_ops,
      )

  unfoldable pub read_line : Text → LineResult
  unfolding verify_operation_checksum
  read_line line = elim (parse_operation line >>= is_queue_operation) [
    | none ↦ parse_error
    | some op ↦ if verify_operation_checksum op then operation op else checksum_failure
  ]

  unfoldable pub read_lines : Option ℕ → List Text → ReadOperationsResult
  unfolding read_line
  read_lines after [] = no_operations
  read_lines after (line ∷ lines) = add_line after (read_line line) (read_lines after lines)

  unfoldable pub read_operations_with_stats : QueueDir Text → Option ℕ → ReadOperationsResult
  unfolding read_lines sort_by_seq
  read_operations_with_stats dir after =
      let r = read_lines after (or_else dir.log []) in
      record r { operations = sort_by_seq r.operations }

  unfoldable pub read_operations : QueueDir Text → Option ℕ → List QueueOperation
  unfolding read_operations_with_stats
  read_operations dir after = (read_operations_with_stats dir after).operations

  unfoldable pub truncate_operations_log : QueueDir Text → QueueDir Text
  truncate_operations_log dir = record dir { log = some []; counter = holds 0 }

  unfoldable pub truncate_operations_log_to_seq : QueueDir Text → ℕ → QueueDir Text
  truncate_operations_log_to_seq dir seq = record dir { log = some []; counter = holds seq }

  abbrev sum_bytes : List Text → ℕ
  sum_bytes [] = 0
  sum_bytes (line ∷ lines) = size_bytes line + sum_bytes lines

  -- exists, sizeBytes and operationCount
  unfoldable pub get_operations_log_stats : QueueDir Text → Bool × ℕ × ℕ
  get_operations_log_stats dir = elim dir.log [
    | none ↦ (false, 0, 0)
    | some lines ↦ (true, sum_bytes lines, length lines)
  ]

  unfoldable pub initialize_operations_log : QueueDir Text → QueueDir Text
  initialize_operations_log dir = record dir {
    log = some (or_else dir.log []);
    counter = elim dir.counter [ missing ↦ holds 0 | other ↦ other ];
  }
