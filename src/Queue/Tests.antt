-- ===== src/Queue/Tests.antt =====
-- Sample data of the queue; the theorems at such inputs are in the modules below.
pub mod Memory
mod Index
mod Files
mod Integrity
mod Pruning
use codemachine_pipeline.Prelude.{
  ℕ, ◌≡◌, ◌↔◌, ◌≤◌, ◌+◌, refl, String, Bool, true, false, Option, none, some, List, [], ◌∷◌, arith,
  ltb, ◌<◌,
}
use codemachine_pipeline.Prelude.OrderedMap
use codemachine_pipeline.Prelude.Int.{ℤ, pos, inc, dec}
use codemachine_pipeline.Queue.Types.{
  merge, QueueSnapshotV2, TaskType, testing, pending, running, completed, failed, TaskStatus,
  ExecutionTask, TaskPatch, no_changes, OperationType, create, update, QueueOperation,
  QueueIndexState, create_empty_index_state, create_empty_queue_counts,
}
use codemachine_pipeline.Queue.Index.{
  count_in, count_move, add_task, apply_operation, dispatch, insert_entry, patch_entry, replay,
  recalculate, recalculate_counts, validate_counts,
}
use codemachine_pipeline.Queue.Index.Counts.{IsCounted}
use codemachine_pipeline.Queue.Index.Invariant.{
  apply_operation-IsCounted, CreatesAllFresh, replay-IsCounted, apply_operation-drifts,
  validate_counts_iff,
}
use codemachine_pipeline.Queue.Index.Replay.{settle, replay_idem}
use codemachine_pipeline.Queue.Log.{
  Platform, QueueDir, holds, NewOperation, complete, append_line, append_operation,
  append_operations_batch, read_operations, read_operations_with_stats, no_operations,
}
use codemachine_pipeline.Queue.Values.{
  OperationValue, SnapshotValue, operation_value, snapshot_value,
}
use codemachine_pipeline.Queue.Log.Read.{read_operations_with_stats-write_operation}
use codemachine_pipeline.Queue.Log.Batch.{append_all, append_operations_batch-eq-append_all}
use codemachine_pipeline.Queue.Snapshot.{restore, load_snapshot, hydrate_index}
use codemachine_pipeline.Queue.Compaction.{ConfigPatch, merge_config, compact_with_state}
use codemachine_pipeline.Queue.Recovery.{IsLogged}
use codemachine_pipeline.Queue.Recovery.Compacted.{hydrate_index-compact_with_state}
use codemachine_pipeline.Queue.Recovery.Interrupted.{append_after_interrupted}
use codemachine_pipeline.Queue.Store.{Run, append_to_queue, update_task_in_queue}
use codemachine_pipeline.Queue.Store.Sync.{Agrees, IsSynced, update_task_in_queue-IsSynced}
use codemachine_pipeline.Queue.Store.Enqueue.{
  AreNew, append_to_queue-IsSynced, append_to_queue_known,
}

abbrev pub task : String → TaskStatus → List String → ExecutionTask
task id status deps = record {
  schema_version = "1.0.0";
  task_id = id;
  feature_id = "f";
  title = id;
  task_type = testing;
  status = status;
  config = none;
  assigned_agent = none;
  dependency_ids = deps;
  retry_count = 0;
  max_retries = 3;
  last_error = none;
  logs_path = none;
  cost = none;
  rate_limit_budget = none;
  trace_id = none;
  created_at = "";
  updated_at = "";
  started_at = none;
  completed_at = none;
  metadata = none;
}

abbrev pub create_op : ℕ → ExecutionTask → QueueOperation
create_op seq t = record {
  op = create;
  seq = seq;
  ts = "";
  task_id = t.task_id;
  patch = none;
  task = some t;
  checksum = "";
}

abbrev pub finish_op : ℕ → String → QueueOperation
finish_op seq key = record {
  op = update;
  seq = seq;
  ts = "";
  task_id = key;
  patch = some (record no_changes { status = some completed });
  task = none;
  checksum = "";
}

abbrev pub two_ops : List QueueOperation
two_ops = create_op 1 (task "a" pending []) ∷ finish_op 2 "a" ∷ []

abbrev pub empty : QueueIndexState
empty = create_empty_index_state

pub empty-IsCounted : IsCounted empty
unfolding recalculate_counts create_empty_index_state
empty-IsCounted = refl
