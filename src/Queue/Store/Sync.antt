-- ===== src/Queue/Store/Sync.antt =====
-- The index in memory against the files: what a restart would find.
use codemachine_pipeline.Prelude.{
  ◌+◌, ◌≤◌, ◌≡◌, refl, sym, ap, subst, ◌++◌, ◌∙◌, String, false, none, some, List, [], ◌∷◌, arith,
  Bool-cases, Option-cases, inl, inr,
}
use codemachine_pipeline.Prelude.OrderedMap
use codemachine_pipeline.Queue.Types.{
  ExecutionTask, TaskPatch, update, QueueOperation, QueueIndexState,
}
use codemachine_pipeline.Queue.Index.{update_task, apply_operation, dispatch, patch_entry}
use codemachine_pipeline.Queue.Index.Replay.{settle, apply_operation_dirty}
use codemachine_pipeline.Queue.Log.{Platform, QueueDir, NewOperation, append_operation, complete}
use codemachine_pipeline.Queue.Snapshot.{restore, load_snapshot, hydrate_index}
use codemachine_pipeline.Queue.Compaction.{merge_config, should_compact, compact_with_state}
use codemachine_pipeline.Queue.Recovery.{
  IsLogged, append_operation-complete, append_operation-seq, append_operation-IsLogged,
  load_snapshot-append_operation, hydrate_index-appended,
}
use codemachine_pipeline.Queue.Recovery.Compacted.{
  hydrate_index-compact_with_state, snapshot_seq-compact_with_state,
}
use codemachine_pipeline.Queue.Choice.{build_dependency_graph}
use codemachine_pipeline.Queue.Store.{
  V2IndexCache, Run, no_config, compact_if_needed, not_found, update_found, update_task_in_queue,
}

module _ (platform : Platform) where
  open platform use {Text}

  -- The log is whole, the index has seen all of it, and a restart would find the index.
  pub record Agrees (dir : QueueDir Text) (state : QueueIndexState) : Type 0 where
    pub ops : List QueueOperation
    pub logged : IsLogged platform dir ops state.last_seq
    pub known : (restore (load_snapshot platform dir)).snapshot_seq ≤ state.last_seq
    pub restart : hydrate_index platform dir ≡ settle state

  unfoldable pub update_operation : String → TaskPatch → String → NewOperation
  update_operation key patch now = record {
    op = update;
    ts = now;
    task_id = key;
    patch = some patch;
    task = none;
  }

  -- The update in memory is what applying the logged operation does.
  update_task-apply_operation :
      (s : QueueIndexState) (key now : String) (patch : TaskPatch) (task : ExecutionTask)
      → OrderedMap.get key s.tasks ≡ some task
      → settle (update_task (record s { last_seq = s.last_seq + 1 }) key patch)
        ≡ settle (
            apply_operation s (complete platform (s.last_seq + 1) (update_operation key patch now)))
  unfolding update_task apply_operation dispatch patch_entry complete update_operation
  update_task-apply_operation s key now patch task found = ground arith

  last_seq-update_task :
      (s : QueueIndexState) (key : String) (patch : TaskPatch)
      → (update_task s key patch).last_seq ≡ s.last_seq
  unfolding update_task patch_entry
  last_seq-update_task s key patch = ground arith

  -- Appending an operation, and changing the index as it says.
  pub Agrees-append :
      (dir : QueueDir Text) (s s' : QueueIndexState) (op : NewOperation)
      → settle s' ≡ settle (apply_operation s (complete platform (s.last_seq + 1) op))
      → s'.last_seq ≡ s.last_seq + 1
      → Agrees dir s
      → Agrees (append_operation platform dir op).0 s'
  Agrees-append dir s s' op same number h = record {
    ops = h.ops ++ complete platform (s.last_seq + 1) op ∷ [];
    logged = rw number (append_operation-IsLogged platform op h.logged);
    known = rw (load_snapshot-append_operation platform dir op, number) (omega (arith, h.known));
    restart =
        hydrate_index-appended platform dir h.ops s.last_seq op h.logged h.known
        ∙ (rw (h.restart, append_operation-complete platform op h.logged)
            (apply_operation_dirty s false (complete platform (s.last_seq + 1) op) ∙ sym same));
  }

  pub Agrees-update :
      (dir : QueueDir Text) (s : QueueIndexState) (key now : String) (patch : TaskPatch)
      (task : ExecutionTask)
      → OrderedMap.get key s.tasks ≡ some task
      → Agrees dir s
      → let (after, op) = append_operation platform dir (update_operation key patch now) in
        Agrees after (update_task (record s { last_seq = op.seq }) key patch)
  Agrees-update dir s key now patch task found h =
      let op = update_operation key patch now in
      let numbered = record s { last_seq = s.last_seq + 1 } in
      subst
        (λ n.
          Agrees (append_operation platform dir op).0
            (update_task (record s { last_seq = n }) key patch))
        (sym (append_operation-seq platform op h.logged))
        (Agrees-append dir s (update_task numbered key patch) op
          (update_task-apply_operation s key now patch task found)
          (last_seq-update_task numbered key patch) h)

  pub no_pruning : (merge_config no_config).prune_completed ≡ false
  unfolding merge_config
  no_pruning = refl

  Agrees-compact_with_state :
      (dir : QueueDir Text) (cache : V2IndexCache) (now : String)
      → Agrees dir cache.state
      → let (after, index, result) =
          compact_with_state platform dir cache.feature_id cache.state
            (build_dependency_graph cache.state)
            no_config
            now in
        Agrees after index
  Agrees-compact_with_state dir cache now h =
      let s = cache.state in
      let graph = build_dependency_graph s in
      let (restart, index, logged) =
        hydrate_index-compact_with_state platform dir cache.feature_id now s graph no_config h.ops
          s.last_seq no_pruning h.logged (omega arith) in
      let number = ap (λ (x : QueueIndexState). x.last_seq) index in
      record {
        ops = [];
        logged = rw number logged;
        known =
            rw
              (
                number,
                snapshot_seq-compact_with_state platform dir cache.feature_id now s graph no_config
                    no_pruning,
              )
              (omega arith);
        restart = restart ∙ (index ∙ sym (ap settle index));
      }

  pub Agrees-compact_if_needed :
      (dir : QueueDir Text) (cache : V2IndexCache) (now : String)
      → Agrees dir cache.state
      → let (after, compacted) = compact_if_needed platform dir cache now in
        Agrees after compacted.state
  unfolding compact_if_needed
  Agrees-compact_if_needed dir cache now h =
      elim (Bool-cases (should_compact platform dir no_config).0) [
        | inl needed ↦ rw needed (Agrees-compact_with_state dir cache now h)
        | inr enough ↦ rw enough h
      ]

  -- The index that is in memory agrees with the files.
  pub record IsSynced (r : Run Text) : Type 0 where
    pub cache : V2IndexCache
    pub cached : r.cache ≡ some cache
    pub agrees : Agrees r.dir cache.state

  update_found-IsSynced :
      (r : Run Text) (cache : V2IndexCache) (key now : String) (updates : TaskPatch)
      (task : ExecutionTask)
      → OrderedMap.get key cache.state.tasks ≡ some task
      → Agrees r.dir cache.state
      → IsSynced (update_found platform r cache key updates now).0
  unfolding update_found update_operation
  update_found-IsSynced r cache key now updates task found h =
      let patch : TaskPatch = record updates { updated_at = some now } in
      let appended = append_operation platform r.dir (update_operation key patch now) in
      let numbered = record (cache.state) { last_seq = appended.1.seq } in
      let updated : V2IndexCache = record cache { state = update_task numbered key patch } in
      record {
        cache = (compact_if_needed platform appended.0 updated now).1;
        cached = refl;
        agrees =
            Agrees-compact_if_needed appended.0 updated now
              (Agrees-update r.dir cache.state key now patch task found h);
      }

  module _ (r : Run Text) (cache : V2IndexCache) (key now : String) (updates : TaskPatch)
      (cached : r.cache ≡ some cache) where
    pub update_task_in_queue_missing :
        OrderedMap.get key cache.state.tasks ≡ none
        → update_task_in_queue platform r key updates now
          ≡ (record r { cache = some cache }, not_found key)
    unfolding update_task_in_queue
    update_task_in_queue_missing missing = ground arith

    pub update_task_in_queue_found :
        (task : ExecutionTask)
        → OrderedMap.get key cache.state.tasks ≡ some task
        → update_task_in_queue platform r key updates now
          ≡ update_found platform r cache key updates now
    unfolding update_task_in_queue
    update_task_in_queue_found task found = ground arith

  -- `updateTaskInQueue` keeps the index and the files in agreement, whether the task is found or not
  -- and whether the log is compacted or not.
  pub update_task_in_queue-IsSynced :
      (r : Run Text) (key now : String) (updates : TaskPatch)
      → IsSynced r
      → IsSynced (update_task_in_queue platform r key updates now).0
  update_task_in_queue-IsSynced r key now updates h =
      elim (Option-cases (OrderedMap.get key h.cache.state.tasks)) [
        | inl missing ↦
            rw (update_task_in_queue_missing r h.cache key now updates h.cached missing)
              (record { cache = h.cache; cached = refl; agrees = h.agrees })
        | inr (task, found) ↦
            rw (update_task_in_queue_found r h.cache key now updates h.cached task found)
              (update_found-IsSynced r h.cache key now updates task found h.agrees)
      ]
