-- ===== src/Queue/Snapshot.antt =====
-- src/workflows/queue/queueSnapshotManager.ts, and `hydrateIndex` of queueMemoryIndex.ts.
use codemachine_pipeline.Prelude.{
  ℕ, String, Bool, true, false, Option, none, some, length, str_eq, if◌then◌else◌, ◌>>=◌,
}
use codemachine_pipeline.Prelude.OrderedMap.{OrderedMap}
use codemachine_pipeline.Queue.Types.{
  ExecutionTask, QueueCounts, QueueIndexState, create_empty_index_state, DependencyGraph,
  QueueSnapshotV2,
}
use codemachine_pipeline.Queue.Index.{replay}
use codemachine_pipeline.Queue.Log.{Platform, QueueDir, read_operations}
use codemachine_pipeline.Queue.Values.{SnapshotValue, natural}

-- the guard, with the value at the type to which it narrows
unfoldable pub is_queue_snapshot_v2 : SnapshotValue → Option QueueSnapshotV2
unfolding natural
is_queue_snapshot_v2 v = do
  schema_version ← v.schema_version
  feature_id ← v.feature_id
  number ← v.snapshot_seq
  snapshot_seq ← natural number
  tasks ← v.tasks
  counts ← v.counts
  dependency_graph ← v.dependency_graph
  timestamp ← v.timestamp
  checksum ← v.checksum
  if str_eq schema_version "2.0.0"
      then some (record {
        schema_version = schema_version;
        feature_id = feature_id;
        snapshot_seq = snapshot_seq;
        tasks = tasks;
        counts = counts;
        dependency_graph = dependency_graph;
        timestamp = timestamp;
        checksum = checksum;
      })
      else none

-- the index that the snapshot describes, before the log is replayed
unfoldable pub restore : Option QueueSnapshotV2 → QueueIndexState
restore none = create_empty_index_state
restore (some s) = record {
  tasks = s.tasks;
  counts = s.counts;
  last_seq = s.snapshot_seq;
  snapshot_seq = s.snapshot_seq;
  dirty = false;
}

module _ (platform : Platform) where
  open platform use {Text, write_snapshot, parse_snapshot, hash_snapshot}

  unfoldable pub verify_snapshot_checksum : QueueSnapshotV2 → Bool
  verify_snapshot_checksum s = str_eq s.checksum (hash_snapshot s.tasks s.counts s.dependency_graph)

  -- Missing, malformed and corrupted snapshots are all `none`.
  unfoldable pub load_snapshot : QueueDir Text → Option QueueSnapshotV2
  unfolding verify_snapshot_checksum
  load_snapshot dir = do
    text ← dir.snapshot
    value ← parse_snapshot text
    s ← is_queue_snapshot_v2 value
    if verify_snapshot_checksum s then some s else none

  -- Written to a temporary file and renamed, so the file changes in one step.
  unfoldable pub save_snapshot :
      QueueDir Text
      → String
      → OrderedMap ExecutionTask
      → QueueCounts
      → ℕ
      → DependencyGraph
      → String
      → QueueDir Text × QueueSnapshotV2
  save_snapshot dir feature_id tasks counts snapshot_seq graph now =
      let s : QueueSnapshotV2 = record {
        schema_version = "2.0.0";
        feature_id = feature_id;
        snapshot_seq = snapshot_seq;
        tasks = tasks;
        counts = counts;
        dependency_graph = graph;
        timestamp = now;
        checksum = hash_snapshot tasks counts graph;
      } in
      (record dir { snapshot = some (write_snapshot s) }, s)

  unfoldable pub delete_snapshot : QueueDir Text → QueueDir Text
  delete_snapshot dir = record dir { snapshot = none }

  unfoldable pub snapshot_exists : QueueDir Text → Bool
  snapshot_exists dir = elim dir.snapshot [ none ↦ false | some text ↦ true ]

  -- snapshotSeq, taskCount and timestamp; the checksum is not verified
  unfoldable pub get_snapshot_metadata : QueueDir Text → Option (ℕ × ℕ × String)
  get_snapshot_metadata dir = do
    text ← dir.snapshot
    value ← parse_snapshot text
    s ← is_queue_snapshot_v2 value
    some (s.snapshot_seq, length s.tasks, s.timestamp)

  -- the snapshot, and then the operations of the log that are newer
  unfoldable pub hydrate_index : QueueDir Text → QueueIndexState
  unfolding restore
  hydrate_index dir =
      let state = restore (load_snapshot dir) in
      record (replay state (read_operations platform dir (some state.snapshot_seq))) {
        dirty = false;
      }
