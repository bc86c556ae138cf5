-- ===== src/Queue/Compaction.antt =====
-- src/workflows/queue/queueCompactionEngine.ts. What runs under the run directory's lock is one step.
pub mod Readiness
use codemachine_pipeline.Prelude.{
  ℕ, String, Bool, true, false, not, ◌&&◌, ◌||◌, Option, none, some, List, [], ◌∷◌, ◌++◌, ltb, leb,
  ◌==◌, if◌then◌else◌, length, any, contains,
}
use codemachine_pipeline.Prelude.OrderedMap
use codemachine_pipeline.Prelude.OrderedMap.{OrderedMap}
use codemachine_pipeline.Queue.Types.{
  TaskStatus, pending, running, ExecutionTask, or_else, QueueIndexState, DependencyGraph,
  CompactionConfig, create_default_compaction_config,
}
use codemachine_pipeline.Queue.Index.{delete_entry, mark_clean}
use codemachine_pipeline.Queue.Log.{
  Platform, QueueDir, get_operations_log_stats, truncate_operations_log_to_seq,
}
use codemachine_pipeline.Queue.Snapshot.{save_snapshot, get_snapshot_metadata, hydrate_index}

-- `Partial<CompactionConfig>`
pub record ConfigPatch : Type 0 where
  pub max_updates : Option ℕ
  pub max_bytes : Option ℕ
  pub prune_completed : Option Bool

-- `{ ...createDefaultCompactionConfig(), ...config }`
unfoldable pub merge_config : ConfigPatch → CompactionConfig
unfolding create_default_compaction_config
merge_config config =
    let defaults = create_default_compaction_config in
    record {
      max_updates = or_else config.max_updates defaults.max_updates;
      max_bytes = or_else config.max_bytes defaults.max_bytes;
      prune_completed = or_else config.prune_completed defaults.prune_completed;
    }

unfoldable pub is_terminal : TaskStatus → Bool
is_terminal pending = false
is_terminal running = false
is_terminal _ = true

-- `dependents.get(depId)?.add(taskId)` for every `depId`, with the set made where there is none
unfoldable pub add_dependent : String → List String → DependencyGraph → DependencyGraph
add_dependent key [] dependents = dependents
add_dependent key (id ∷ ids) dependents =
    let known = or_else (OrderedMap.get id dependents) [] in
    add_dependent key ids
      (OrderedMap.set id (if contains known key then known else known ++ key ∷ []) dependents)

-- taskId -> the tasks that depend on it
unfoldable pub build_dependents : DependencyGraph → DependencyGraph → DependencyGraph
unfolding add_dependent
build_dependents [] dependents = dependents
build_dependents ((key, ids) ∷ graph) dependents =
    build_dependents graph (add_dependent key ids dependents)

-- the task is in the index and is not in a terminal state
unfoldable pub is_active : QueueIndexState → String → Bool
unfolding is_terminal
is_active s key = elim (OrderedMap.get key s.tasks) [
  | none ↦ false
  | some task ↦ not (is_terminal task.status)
]

-- Terminal, and none of its dependents is active.
unfoldable pub is_prunable : QueueIndexState → DependencyGraph → String → ExecutionTask → Bool
unfolding is_terminal is_active
is_prunable s dependents key task =
    is_terminal task.status && not (any (is_active s) (or_else (OrderedMap.get key dependents) []))

unfoldable pub find_prunable :
    QueueIndexState → DependencyGraph → OrderedMap ExecutionTask → List String
unfolding is_prunable
find_prunable s dependents [] = []
find_prunable s dependents ((key, task) ∷ tasks) =
    let rest = find_prunable s dependents tasks in
    if is_prunable s dependents key task then key ∷ rest else rest

unfoldable pub delete_entries : QueueIndexState → List String → QueueIndexState
delete_entries s [] = s
delete_entries s (key ∷ keys) = delete_entries (delete_entry s key) keys

-- the new state, and how many tasks were found
unfoldable pub prune_completed_tasks : QueueIndexState → DependencyGraph → QueueIndexState × ℕ
unfolding build_dependents find_prunable delete_entries
prune_completed_tasks s graph =
    let to_prune = find_prunable s (build_dependents graph []) s.tasks in
    let pruned = delete_entries s to_prune in
    (if ltb 0 (length to_prune) then record pruned { dirty = true } else pruned, length to_prune)

pub record CompactionResult : Type 0 where
  pub compacted : Bool
  pub snapshot_seq : ℕ
  pub pruned_tasks : ℕ

module _ (platform : Platform) where
  open platform use {Text}

  -- needed, operations and bytes
  unfoldable pub should_compact : QueueDir Text → ConfigPatch → Bool × ℕ × ℕ
  unfolding merge_config get_operations_log_stats
  should_compact dir config =
      let limits = merge_config config in
      let (exists, bytes, operations) = get_operations_log_stats platform dir in
      (leb limits.max_updates operations || leb limits.max_bytes bytes, operations, bytes)

  -- The snapshot is written before the log is truncated.
  unfoldable pub compact_with_state :
      QueueDir Text
      → String
      → QueueIndexState
      → DependencyGraph
      → ConfigPatch
      → String
      → QueueDir Text × QueueIndexState × CompactionResult
  unfolding save_snapshot truncate_operations_log_to_seq mark_clean
  compact_with_state dir feature_id state graph config now =
      let (pruned, count) =
        if (merge_config config).prune_completed
        then prune_completed_tasks state graph
        else (state, 0) in
      let (saved, s) =
        save_snapshot platform dir feature_id pruned.tasks pruned.counts pruned.last_seq graph
          now in
      (
        truncate_operations_log_to_seq platform saved s.snapshot_seq,
        mark_clean pruned s.snapshot_seq,
        record { compacted = true; snapshot_seq = s.snapshot_seq; pruned_tasks = count },
      )

  unfoldable pub compact :
      QueueDir Text
      → String
      → DependencyGraph
      → ConfigPatch
      → String
      → QueueDir Text × CompactionResult
  unfolding compact_with_state merge_config get_operations_log_stats
  compact dir feature_id graph config now =
      let state = hydrate_index platform dir in
      if state.last_seq == state.snapshot_seq
      then (let (exists, bytes, operations) = get_operations_log_stats platform dir in
          if ltb 0 operations || ltb 0 bytes
          then (
            truncate_operations_log_to_seq platform dir state.snapshot_seq,
            record { compacted = true; snapshot_seq = state.snapshot_seq; pruned_tasks = 0 },
          )
          else (
            dir,
            record { compacted = false; snapshot_seq = state.snapshot_seq; pruned_tasks = 0 },
          ))
      else let (after, _, result) = compact_with_state dir feature_id state graph config now in
        (after, result)

  -- Without pruning's count: compacted and snapshotSeq.
  unfoldable pub maybe_compact :
      QueueDir Text → String → DependencyGraph → ConfigPatch → String → QueueDir Text × Bool × ℕ
  unfolding should_compact compact get_snapshot_metadata
  maybe_compact dir feature_id graph config now =
      let (needed, operations, bytes) = should_compact dir config in
      if needed
      then (let (after, result) = compact dir feature_id graph config now in
          (after, result.compacted, result.snapshot_seq))
      else (
        dir,
        false,
        elim (get_snapshot_metadata platform dir) [ none ↦ 0 | some (seq, count, timestamp) ↦ seq ],
      )
