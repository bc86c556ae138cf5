-- ===== src/Queue/Types.antt =====
-- The data of the queue: src/core/models/ExecutionTask.ts and src/workflows/queue/queueTypes.ts.
-- A `Partial` of a task is a record of options. Times are the texts that the program stores.
use codemachine_pipeline.Prelude.{
  ℕ, ◌*◌, String, Bool, true, false, ◌&&◌, Option, none, some, List, [], ltb,
}
use codemachine_pipeline.Prelude.OrderedMap.{OrderedMap}
use codemachine_pipeline.Prelude.Int.{ℤ, pos}

-- JSON values, which the program keeps and does not look into. A number is its text.
mutual
  pub data Json : Type 0 where
    null : Json
    bool : Bool → Json
    number : String → Json
    text : String → Json
    array : Items → Json
    object : Fields → Json

  pub data Items : Type 0 where
    nil : Items
    cons : Json → Items → Items

  pub data Fields : Type 0 where
    end : Fields
    field : String → Json → Fields → Fields

pub data TaskType : Type 0 where
  code_generation testing pr_creation deployment review refactoring documentation : TaskType
  other validation patch_application git_operation custom : TaskType

pub data TaskStatus : Type 0 where
  pending running completed failed skipped cancelled : TaskStatus

-- `a === b` on statuses
unfoldable pub status_eq : TaskStatus → TaskStatus → Bool
status_eq pending pending = true
status_eq running running = true
status_eq completed completed = true
status_eq failed failed = true
status_eq skipped skipped = true
status_eq cancelled cancelled = true
status_eq _ _ = false

pub record TaskError : Type 0 where
  pub message : String
  pub code : Option String
  pub details : Option String
  pub timestamp : String
  pub recoverable : Bool

pub record ExecutionTask : Type 0 where
  pub schema_version : String
  pub task_id : String
  pub feature_id : String
  pub title : String
  pub task_type : TaskType
  pub status : TaskStatus
  pub config : Option Json
  pub assigned_agent : Option String
  pub dependency_ids : List String
  pub retry_count : ℕ
  pub max_retries : ℕ
  pub last_error : Option TaskError
  pub logs_path : Option String
  pub cost : Option Json
  pub rate_limit_budget : Option Json
  pub trace_id : Option String
  pub created_at : String
  pub updated_at : String
  pub started_at : Option String
  pub completed_at : Option String
  pub metadata : Option Json

-- `Partial<ExecutionTaskData>`: `none` is a key that is absent.
pub record TaskPatch : Type 0 where
  pub schema_version : Option String
  pub task_id : Option String
  pub feature_id : Option String
  pub title : Option String
  pub task_type : Option TaskType
  pub status : Option TaskStatus
  pub config : Option Json
  pub assigned_agent : Option String
  pub dependency_ids : Option (List String)
  pub retry_count : Option ℕ
  pub max_retries : Option ℕ
  pub last_error : Option TaskError
  pub logs_path : Option String
  pub cost : Option Json
  pub rate_limit_budget : Option Json
  pub trace_id : Option String
  pub created_at : Option String
  pub updated_at : Option String
  pub started_at : Option String
  pub completed_at : Option String
  pub metadata : Option Json

abbrev pub or_else {ℓ} : {A : Type ℓ} → Option A → A → A
or_else (some a) b = a
or_else none b = b

abbrev pub or_keep {ℓ} : {A : Type ℓ} → Option A → Option A → Option A
or_keep (some a) b = some a
or_keep none b = b

-- `{ ...task, ...patch }`
unfoldable pub merge : ExecutionTask → TaskPatch → ExecutionTask
merge t p = record {
  schema_version = or_else p.schema_version t.schema_version;
  task_id = or_else p.task_id t.task_id;
  feature_id = or_else p.feature_id t.feature_id;
  title = or_else p.title t.title;
  task_type = or_else p.task_type t.task_type;
  status = or_else p.status t.status;
  config = or_keep p.config t.config;
  assigned_agent = or_keep p.assigned_agent t.assigned_agent;
  dependency_ids = or_else p.dependency_ids t.dependency_ids;
  retry_count = or_else p.retry_count t.retry_count;
  max_retries = or_else p.max_retries t.max_retries;
  last_error = or_keep p.last_error t.last_error;
  logs_path = or_keep p.logs_path t.logs_path;
  cost = or_keep p.cost t.cost;
  rate_limit_budget = or_keep p.rate_limit_budget t.rate_limit_budget;
  trace_id = or_keep p.trace_id t.trace_id;
  created_at = or_else p.created_at t.created_at;
  updated_at = or_else p.updated_at t.updated_at;
  started_at = or_keep p.started_at t.started_at;
  completed_at = or_keep p.completed_at t.completed_at;
  metadata = or_keep p.metadata t.metadata;
}

-- the patch that sets nothing
abbrev pub no_changes : TaskPatch
no_changes = record {
  schema_version = none;
  task_id = none;
  feature_id = none;
  title = none;
  task_type = none;
  status = none;
  config = none;
  assigned_agent = none;
  dependency_ids = none;
  retry_count = none;
  max_retries = none;
  last_error = none;
  logs_path = none;
  cost = none;
  rate_limit_budget = none;
  trace_id = none;
  created_at = none;
  updated_at = none;
  started_at = none;
  completed_at = none;
  metadata = none;
}

-- `task.last_error?.recoverable ?? true`
unfoldable pub is_recoverable : Option TaskError → Bool
is_recoverable none = true
is_recoverable (some e) = e.recoverable

unfoldable pub can_retry : ExecutionTask → Bool
unfolding is_recoverable status_eq
can_retry t =
    status_eq t.status failed && ltb t.retry_count t.max_retries && is_recoverable t.last_error

pub data OperationType : Type 0 where
  create update delete : OperationType

pub record QueueOperation : Type 0 where
  pub op : OperationType
  pub seq : ℕ
  pub ts : String
  pub task_id : String
  pub patch : Option TaskPatch
  pub task : Option ExecutionTask
  pub checksum : String

-- Decrements are not guarded in the program, so a count is an integer.
pub record QueueCounts : Type 0 where
  pub total : ℤ
  pub pending : ℤ
  pub running : ℤ
  pub completed : ℤ
  pub failed : ℤ
  pub skipped : ℤ
  pub cancelled : ℤ

unfoldable pub create_empty_queue_counts : QueueCounts
create_empty_queue_counts = record {
  total = pos 0;
  pending = pos 0;
  running = pos 0;
  completed = pos 0;
  failed = pos 0;
  skipped = pos 0;
  cancelled = pos 0;
}

pub record QueueIndexState : Type 0 where
  pub tasks : OrderedMap ExecutionTask
  pub counts : QueueCounts
  pub last_seq : ℕ
  pub snapshot_seq : ℕ
  pub dirty : Bool

unfoldable pub create_empty_index_state : QueueIndexState
unfolding create_empty_queue_counts
create_empty_index_state = record {
  tasks = [];
  counts = create_empty_queue_counts;
  last_seq = 0;
  snapshot_seq = 0;
  dirty = false;
}

abbrev pub DependencyGraph : Type 0
DependencyGraph = OrderedMap (List String)

pub record QueueSnapshotV2 : Type 0 where
  pub schema_version : String
  pub feature_id : String
  pub snapshot_seq : ℕ
  pub tasks : OrderedMap ExecutionTask
  pub counts : QueueCounts
  pub dependency_graph : DependencyGraph
  pub timestamp : String
  pub checksum : String

pub record CompactionConfig : Type 0 where
  pub max_updates : ℕ
  pub max_bytes : ℕ
  pub prune_completed : Bool

unfoldable pub create_default_compaction_config : CompactionConfig
create_default_compaction_config = record {
  max_updates = 1000;
  max_bytes = 5 * 1024 * 1024;
  prune_completed = false;
}
