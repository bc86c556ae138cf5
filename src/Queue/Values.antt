-- ===== src/Queue/Values.antt =====
-- Values parsed from JSON, and the guards of src/workflows/queue/queueOperationsLog.ts for an operation. What
-- reads a value sees of each field whether it has the type that the guard asks for; a value that is no object
-- has no field.
use codemachine_pipeline.Prelude.{ℕ, String, Option, none, some, str_eq, if◌then◌else◌, ◌>>=◌}
use codemachine_pipeline.Prelude.Int.{ℤ, pos}
use codemachine_pipeline.Prelude.OrderedMap.{OrderedMap}
use codemachine_pipeline.Queue.Types.{
  ExecutionTask, TaskPatch, OperationType, create, update, QueueOperation, QueueCounts,
  DependencyGraph, QueueSnapshotV2,
}

pub data JsNumber : Type 0 where
  whole : ℤ → JsNumber
  fractional : String → JsNumber

pub record OperationValue : Type 0 where
  pub op : Option String
  pub seq : Option JsNumber
  pub ts : Option String
  pub task_id : Option String
  pub patch : Option TaskPatch
  pub task : Option ExecutionTask
  pub checksum : Option String

pub record SnapshotValue : Type 0 where
  pub schema_version : Option String
  pub feature_id : Option String
  pub snapshot_seq : Option JsNumber
  pub tasks : Option (OrderedMap ExecutionTask)
  pub counts : Option QueueCounts
  pub dependency_graph : Option DependencyGraph
  pub timestamp : Option String
  pub checksum : Option String

-- `Number.isInteger(n) && n >= 0`
unfoldable pub natural : JsNumber → Option ℕ
natural (whole (pos n)) = some n
natural _ = none

-- membership in `['create', 'update', 'delete']`
unfoldable pub operation_type : String → Option OperationType
operation_type s =
    if str_eq s "create"
    then some create
    else if str_eq s "update"
    then some update
    else if str_eq s "delete"
    then some OperationType.delete
    else none

abbrev pub operation_name : OperationType → String
operation_name create = "create"
operation_name update = "update"
operation_name OperationType.delete = "delete"

-- the guard, with the value at the type to which it narrows
unfoldable pub is_queue_operation : OperationValue → Option QueueOperation
unfolding natural operation_type
is_queue_operation v = do
  name ← v.op
  op ← operation_type name
  number ← v.seq
  seq ← natural number
  ts ← v.ts
  task_id ← v.task_id
  checksum ← v.checksum
  some (record {
    op = op;
    seq = seq;
    ts = ts;
    task_id = task_id;
    patch = v.patch;
    task = v.task;
    checksum = checksum;
  })

abbrev pub operation_value : QueueOperation → OperationValue
operation_value op = record {
  op = some (operation_name op.op);
  seq = some (whole (pos op.seq));
  ts = some op.ts;
  task_id = some op.task_id;
  patch = op.patch;
  task = op.task;
  checksum = some op.checksum;
}

abbrev pub snapshot_value : QueueSnapshotV2 → SnapshotValue
snapshot_value s = record {
  schema_version = some s.schema_version;
  feature_id = some s.feature_id;
  snapshot_seq = some (whole (pos s.snapshot_seq));
  tasks = some s.tasks;
  counts = some s.counts;
  dependency_graph = some s.dependency_graph;
  timestamp = some s.timestamp;
  checksum = some s.checksum;
}
