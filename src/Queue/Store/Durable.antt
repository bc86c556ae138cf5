-- ===== src/Queue/Store/Durable.antt =====
-- What an acknowledged update leaves in memory and on disk.
use codemachine_pipeline.Prelude.{◌≡◌, refl, ap, String, some, Bool-cases, inl, inr, eq_iff, arith}
use codemachine_pipeline.Prelude.OrderedMap
use codemachine_pipeline.Prelude.OrderedMap.{get-set}
use codemachine_pipeline.Queue.Types.{ExecutionTask, TaskPatch, merge, QueueIndexState}
use codemachine_pipeline.Queue.Index.{update_task, patch_entry}
use codemachine_pipeline.Queue.Log.{Platform, QueueDir, append_operation}
use codemachine_pipeline.Queue.Snapshot.{hydrate_index}
use codemachine_pipeline.Queue.Compaction.{should_compact}
use codemachine_pipeline.Queue.Recovery.Compacted.{hydrate_index-compact_with_state}
use codemachine_pipeline.Queue.Choice.{build_dependency_graph}
use codemachine_pipeline.Queue.Store.{
  V2IndexCache, Run, no_config, compact_if_needed, update_found, update_task_in_queue,
}
use codemachine_pipeline.Queue.Store.Sync.{
  Agrees, IsSynced, Agrees-compact_if_needed, Agrees-update, no_pruning, update_operation,
  update_task_in_queue_found,
}

module _ (platform : Platform) where
  open platform use {Text}

  -- Memory and files agree, and both hold the task at the key.
  pub record Holds (r : Run Text) (key : String) (task : ExecutionTask) : Type 0 where
    pub synced : IsSynced platform r
    pub held : OrderedMap.get key synced.cache.state.tasks ≡ some task

  tasks-compact_if_needed :
      (dir : QueueDir Text) (cache : V2IndexCache) (now : String)
      → Agrees platform dir cache.state
      → (compact_if_needed platform dir cache now).1.state.tasks ≡ cache.state.tasks
  unfolding compact_if_needed
  tasks-compact_if_needed dir cache now h =
      elim (Bool-cases (should_compact platform dir no_config).0) [
        | inl needed ↦ rw needed (
            ap (λ (x : QueueIndexState). x.tasks)
              (hydrate_index-compact_with_state platform dir cache.feature_id now cache.state
                (build_dependency_graph cache.state) no_config h.ops cache.state.last_seq
                (no_pruning platform) h.logged (omega arith)).1)
        | inr enough ↦ rw enough refl
      ]

  get-update_task :
      (s : QueueIndexState) (key : String) (patch : TaskPatch) (task : ExecutionTask)
      → OrderedMap.get key s.tasks ≡ some task
      → OrderedMap.get key (update_task s key patch).tasks ≡ some (merge task patch)
  unfolding update_task patch_entry
  get-update_task s key patch task found =
      ground (arith, get-set key key (merge task patch) s.tasks, eq_iff key key)

  update_found-Holds :
      (r : Run Text) (cache : V2IndexCache) (key now : String) (updates : TaskPatch)
      (task : ExecutionTask)
      → OrderedMap.get key cache.state.tasks ≡ some task
      → Agrees platform r.dir cache.state
      → Holds
          (update_found platform r cache key updates now).0
          key
          (merge task (record updates { updated_at = some now }))
  unfolding update_found update_operation
  update_found-Holds r cache key now updates task found h =
      let patch : TaskPatch = record updates { updated_at = some now } in
      let appended = append_operation platform r.dir (update_operation platform key patch now) in
      let numbered = record (cache.state) { last_seq = appended.1.seq } in
      let changed : V2IndexCache = record cache { state = update_task numbered key patch } in
      let agrees = Agrees-update platform r.dir cache.state key now patch task found h in
      record {
        synced = record {
          cache = (compact_if_needed platform appended.0 changed now).1;
          cached = refl;
          agrees = Agrees-compact_if_needed platform appended.0 changed now agrees;
        };
        held =
            rw (tasks-compact_if_needed appended.0 changed now agrees)
              (get-update_task numbered key patch task found);
      }

  -- An update of a task that the queue holds is merged into it, in memory and in the files.
  pub update_task_in_queue-Holds :
      (r : Run Text) (key now : String) (updates : TaskPatch) (task : ExecutionTask)
      → Holds r key task
      → Holds
          (update_task_in_queue platform r key updates now).0
          key
          (merge task (record updates { updated_at = some now }))
  update_task_in_queue-Holds r key now updates task h =
      let cache = h.synced.cache in
      rw (update_task_in_queue_found platform r cache key now updates h.synced.cached task h.held)
        (update_found-Holds r cache key now updates task h.held h.synced.agrees)

  -- What a run holds, a restart finds.
  pub get-hydrate_index :
      (r : Run Text) (key : String) (task : ExecutionTask)
      → Holds r key task
      → OrderedMap.get key (hydrate_index platform r.dir).tasks ≡ some task
  get-hydrate_index r key task h = rw h.synced.agrees.restart h.held
