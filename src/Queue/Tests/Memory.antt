-- ===== src/Queue/Tests/Memory.antt =====
-- A platform without texts, and runs on it.
use codemachine_pipeline.Prelude.{◌≡◌, refl, false, Option, none, some, [], ◌∷◌, arith}
use codemachine_pipeline.Prelude.Int.{pos}
use codemachine_pipeline.Queue.Types.{
  QueueSnapshotV2, ExecutionTask, QueueOperation, QueueIndexState,
}
use codemachine_pipeline.Queue.Index.{replay}
use codemachine_pipeline.Queue.Log.{Platform, QueueDir, holds, read_operations}
use codemachine_pipeline.Queue.Values.{
  OperationValue, SnapshotValue, operation_value, snapshot_value,
}
use codemachine_pipeline.Queue.Snapshot.{is_queue_snapshot_v2, load_snapshot, hydrate_index}
use codemachine_pipeline.Queue.Store.{V2IndexCache, Run}
use codemachine_pipeline.Queue.Store.Sync.{Agrees, IsSynced}
use codemachine_pipeline.Queue.Types.{QueueCounts}
use codemachine_pipeline.Queue.Tests.{empty}

-- A platform whose files hold the values themselves.
pub data Line : Type 0 where
  operation_line : QueueOperation → Line
  snapshot_text : QueueSnapshotV2 → Line
  garbled : Line

unfoldable pub parse_operation_line : Line → Option OperationValue
parse_operation_line (operation_line op) = some (operation_value op)
parse_operation_line _ = none

unfoldable pub parse_snapshot_text : Line → Option SnapshotValue
parse_snapshot_text (snapshot_text s) = some (snapshot_value s)
parse_snapshot_text _ = none

pub parse_line_lem :
    (op : QueueOperation) → parse_operation_line (operation_line op) ≡ some (operation_value op)
unfolding parse_operation_line
parse_line_lem op = refl

pub parse_text_lem :
    (s : QueueSnapshotV2) → parse_snapshot_text (snapshot_text s) ≡ some (snapshot_value s)
unfolding parse_snapshot_text
parse_text_lem s = refl

abbrev pub node : Platform
node = record {
  Text = Line;
  write_operation = operation_line;
  parse_operation = parse_operation_line;
  hash_operation = λ seq op. op.task_id;
  write_snapshot = snapshot_text;
  parse_snapshot = parse_snapshot_text;
  hash_snapshot = λ tasks counts graph. "snapshot";
  size_bytes = λ line. 100;
  parse-write_operation = parse_line_lem;
  parse-write_snapshot = parse_text_lem;
}

abbrev pub new_dir : QueueDir Line
new_dir = record { log = some []; counter = holds 0; snapshot = none }

-- A run that has just been made.
abbrev pub new_run : Run Line
new_run = record {
  dir = new_dir;
  cache = some (record { state = empty; feature_id = "f" });
  feature_id = "f";
  manifest = record { pending_count = pos 0; completed_count = pos 0; failed_count = pos 0 };
  v1_queue_exists = false;
  v1_updates_exists = false;
}

-- A run whose queue holds one task, restored from a snapshot.
abbrev pub one_index : ExecutionTask → QueueCounts → QueueIndexState
one_index t counts = record {
  tasks = (t.task_id, t) ∷ [];
  counts = counts;
  last_seq = 1;
  snapshot_seq = 1;
  dirty = false;
}

abbrev pub one_snapshot : ExecutionTask → QueueCounts → QueueSnapshotV2
one_snapshot t counts = record {
  schema_version = "2.0.0";
  feature_id = "f";
  snapshot_seq = 1;
  tasks = (t.task_id, t) ∷ [];
  counts = counts;
  dependency_graph = [];
  timestamp = "t";
  checksum = "snapshot";
}

abbrev pub one_dir : ExecutionTask → QueueCounts → QueueDir Line
one_dir t counts = record {
  log = some [];
  counter = holds 1;
  snapshot = some (snapshot_text (one_snapshot t counts));
}

pub one_dir-Agrees :
    (t : ExecutionTask) (counts : QueueCounts) → Agrees node (one_dir t counts) (one_index t counts)
unfolding hydrate_index load_snapshot is_queue_snapshot_v2 read_operations replay
    parse_snapshot_text
one_dir-Agrees t counts = record {
  ops = [];
  logged = record { log = refl; counter = refl; all_sealed = tt; sorted = tt; bounded = tt };
  known = omega arith;
  restart = refl;
}

abbrev pub one_cache : ExecutionTask → QueueCounts → V2IndexCache
one_cache t counts = record { state = one_index t counts; feature_id = "f" }

abbrev pub one_run : ExecutionTask → QueueCounts → Run Line
one_run t counts = record new_run { dir = one_dir t counts; cache = some (one_cache t counts) }

abbrev pub one_run-IsSynced :
    (t : ExecutionTask) (counts : QueueCounts) → IsSynced node (one_run t counts)
one_run-IsSynced t counts = record {
  cache = one_cache t counts;
  cached = refl;
  agrees = one_dir-Agrees t counts;
}
