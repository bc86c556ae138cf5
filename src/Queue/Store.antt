-- ===== src/Queue/Store.antt =====
-- src/workflows/queue/queueCache.ts, queueTaskManager.ts and queueStore.ts: one process and the files
-- of one run directory. What runs under the directory's lock is one step. The manifest's queue
-- directory does not change, so a cached index is always the one that is returned.
pub mod Sync
pub mod Enqueue
pub mod Durable
use codemachine_pipeline.Prelude.{
  ℕ, String, Bool, true, false, ◌&&◌, ◌||◌, Option, none, some, List, [], ◌∷◌, map, length, filter,
  head?, if◌then◌else◌, ltb,
}
use codemachine_pipeline.Prelude.OrderedMap.{OrderedMap, values}
use codemachine_pipeline.Prelude.Int.{ℤ}
use codemachine_pipeline.Queue.Types.{
  TaskStatus, running, status_eq, ExecutionTask, TaskPatch, can_retry, create, update, QueueCounts,
  QueueOperation, QueueIndexState, DependencyGraph,
}
use codemachine_pipeline.Queue.Index.{
  get_task, update_task, add_task, get_ready_tasks, are_dependencies_completed,
}
use codemachine_pipeline.Queue.Log.{
  Platform, QueueDir, NewOperation, append_operation, append_operations_batch, last_number,
}
use codemachine_pipeline.Queue.Snapshot.{hydrate_index}
use codemachine_pipeline.Queue.Compaction.{ConfigPatch, should_compact, compact_with_state, compact}
use codemachine_pipeline.Queue.Choice.{build_dependency_graph, next_task}

pub record V2IndexCache : Type 0 where
  pub state : QueueIndexState
  pub feature_id : String

-- the part of the run manifest that the queue keeps
pub record QueueSection : Type 0 where
  pub pending_count : ℤ
  pub completed_count : ℤ
  pub failed_count : ℤ

pub record Run (Text : Type 0) : Type 0 where
  pub dir : QueueDir Text
  pub cache : Option V2IndexCache
  pub feature_id : String
  pub manifest : QueueSection
  pub v1_queue_exists : Bool
  pub v1_updates_exists : Bool

-- `success`, and the number of tasks where the source gives one
pub data QueueOperationResult : Type 0 where
  succeeded : ℕ → QueueOperationResult
  not_found : String → QueueOperationResult
  legacy_queue : QueueOperationResult

abbrev pub no_config : ConfigPatch
no_config = record { max_updates = none; max_bytes = none; prune_completed = none }

-- `readManifest`, the counts of the index, `writeManifest`
abbrev pub section_of : QueueCounts → QueueSection
section_of counts = record {
  pending_count = counts.pending;
  completed_count = counts.completed;
  failed_count = counts.failed;
}

-- the manifest is written only for a patch of the status
abbrev pub updated_section : Option TaskStatus → QueueCounts → QueueSection → QueueSection
updated_section none counts section = section
updated_section (some status) counts section = section_of counts

abbrev pub create_operation : String → ExecutionTask → NewOperation
create_operation now task = record {
  op = create;
  ts = now;
  task_id = task.task_id;
  patch = none;
  task = some task;
}

unfoldable pub add_tasks : QueueIndexState → List ExecutionTask → QueueIndexState
unfolding add_task
add_tasks s [] = s
add_tasks s (task ∷ tasks) = add_tasks (add_task s task) tasks

module _ (platform : Platform) where
  open platform use {Text}

  unfoldable pub detect_legacy_v1_queue : Run Text → Bool
  detect_legacy_v1_queue r =
      (r.v1_queue_exists || r.v1_updates_exists)
      && elim r.dir.log [ none ↦ true | some lines ↦ false ]
      && elim r.dir.snapshot [ none ↦ true | some text ↦ false ]

  -- `none` is the error for a legacy queue.
  unfoldable pub get_v2_index_cache : Run Text → Option V2IndexCache
  unfolding detect_legacy_v1_queue hydrate_index
  get_v2_index_cache r = elim r.cache [
    | some cache ↦ some cache
    | none ↦
        if detect_legacy_v1_queue r
        then none
        else some (record { state = hydrate_index platform r.dir; feature_id = r.feature_id })
  ]

  unfoldable pub invalidate_v2_cache : Run Text → Run Text
  invalidate_v2_cache r = record r { cache = none }

  unfoldable pub get_next_task : Run Text → Option (Option ExecutionTask)
  unfolding get_v2_index_cache next_task
  get_next_task r = elim (get_v2_index_cache r) [
    | none ↦ none
    | some cache ↦ some (next_task cache.state)
  ]

  unfoldable pub compact_if_needed :
      QueueDir Text → V2IndexCache → String → QueueDir Text × V2IndexCache
  unfolding build_dependency_graph
  compact_if_needed dir cache now =
      if (should_compact platform dir no_config).0
      then (let (after, state, result) =
            compact_with_state platform dir cache.feature_id cache.state
              (build_dependency_graph cache.state) no_config now in
          (after, record cache { state = state }))
      else (dir, cache)

  -- the update of a task that the index holds
  unfoldable pub update_found :
      Run Text → V2IndexCache → String → TaskPatch → String → Run Text × QueueOperationResult
  update_found r cache key updates now =
      let patch : TaskPatch = record updates { updated_at = some now } in
      let (dir, op) =
        append_operation platform r.dir
          (record { op = update; ts = now; task_id = key; patch = some patch; task = none }) in
      let state = update_task (record cache.state { last_seq = op.seq }) key patch in
      let (after, compacted) = compact_if_needed dir (record cache { state = state }) now in
      (
        record r {
          dir = after;
          cache = some compacted;
          manifest = updated_section updates.status compacted.state.counts r.manifest;
        },
        succeeded 1,
      )

  unfoldable pub update_task_in_queue :
      Run Text → String → TaskPatch → String → Run Text × QueueOperationResult
  unfolding get_v2_index_cache
  update_task_in_queue r key updates now = elim (get_v2_index_cache r) [
    | none ↦ (r, legacy_queue)
    | some cache ↦ elim (get_task cache.state key) [
      | none ↦ (record r { cache = some cache }, not_found key)
      | some task ↦ update_found r cache key updates now
    ]
  ]

  -- `updateTaskInQueueV2` neither takes over the number of the operation nor compacts.
  unfoldable pub update_task_in_queue_v2 :
      Run Text → String → TaskPatch → String → Run Text × QueueOperationResult
  unfolding get_v2_index_cache append_operation update_task
  update_task_in_queue_v2 r key updates now = elim (get_v2_index_cache r) [
    | none ↦ (r, legacy_queue)
    | some cache ↦ elim (get_task cache.state key) [
      | none ↦ (record r { cache = some cache }, not_found key)
      | some task ↦
          let patch : TaskPatch = record updates { updated_at = some now } in
          let (dir, op) =
            append_operation platform r.dir
              (record { op = update; ts = now; task_id = key; patch = some patch; task = none }) in
          let state = update_task cache.state key patch in
          (
            record r {
              dir = dir;
              cache = some (record cache { state = state });
              manifest = updated_section updates.status state.counts r.manifest;
            },
            succeeded 1,
          )
    ]
  ]

  -- The mirror in queue.jsonl is left out.
  unfoldable pub append_to_queue :
      Run Text → List ExecutionTask → String → Run Text × QueueOperationResult
  unfolding get_v2_index_cache
  append_to_queue r tasks now = elim (get_v2_index_cache r) [
    | none ↦ (r, legacy_queue)
    | some cache ↦ elim tasks [
      | [] ↦ (record r { cache = some cache }, succeeded 0)
      | task ∷ rest ↦
          let (dir, ops) =
            append_operations_batch platform r.dir (map (create_operation now) (task ∷ rest)) in
          let numbered = record cache.state { last_seq = last_number cache.state.last_seq ops } in
          let state = add_tasks numbered (task ∷ rest) in
          (
            record r {
              dir = dir;
              cache = some (record cache { state = state });
              manifest = record (r.manifest) { pending_count = state.counts.pending };
            },
            succeeded (length (task ∷ rest)),
          )
    ]
  ]

  unfoldable pub create_queue_snapshot : Run Text → String → Run Text × QueueOperationResult
  unfolding get_v2_index_cache compact build_dependency_graph
  create_queue_snapshot r now = elim (get_v2_index_cache r) [
    | none ↦ (r, legacy_queue)
    | some cache ↦
        let (after, result) =
          compact platform r.dir cache.feature_id (build_dependency_graph cache.state)
            (record { max_updates = none; max_bytes = none; prune_completed = some false }) now in
        (record r { dir = after; cache = some cache }, succeeded (length cache.state.tasks))
  ]

  -- `forceCompactV2`: the cached index takes over the number of the snapshot.
  unfoldable pub force_compact_v2 : Run Text → String → Option (Run Text × Bool × ℕ)
  unfolding get_v2_index_cache compact build_dependency_graph
  force_compact_v2 r now = elim (get_v2_index_cache r) [
    | none ↦ none
    | some cache ↦
        let (after, result) =
          compact platform r.dir cache.feature_id (build_dependency_graph cache.state) no_config
            now in
        let state =
          if result.compacted
          then record (cache.state) { snapshot_seq = result.snapshot_seq; dirty = false }
          else cache.state in
        some (
          record r { dir = after; cache = some (record cache { state = state }) },
          result.compacted,
          result.snapshot_seq,
        )
  ]
