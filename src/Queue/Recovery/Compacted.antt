-- ===== src/Queue/Recovery/Compacted.antt =====
-- A compaction loses nothing, also when the process stops between its two writes.
use codemachine_pipeline.Prelude.{
  ℕ, ◌≤◌, ◌≡◌, refl, ap, ◌∙◌, String, true, false, some, List, [], ◌∷◌, arith, eq_iff, filter, All,
  All-map,
}
use codemachine_pipeline.Queue.Types.{
  QueueOperation, QueueIndexState, DependencyGraph, QueueSnapshotV2,
}
use codemachine_pipeline.Queue.Index.{replay}
use codemachine_pipeline.Queue.Index.Replay.{settle}
use codemachine_pipeline.Queue.Log.{Platform, QueueDir, newer_than, truncate_operations_log_to_seq}
use codemachine_pipeline.Queue.Values.{snapshot_value}
use codemachine_pipeline.Queue.Snapshot.{
  is_queue_snapshot_v2, restore, load_snapshot, save_snapshot, hydrate_index,
}
use codemachine_pipeline.Queue.Compaction.{ConfigPatch, merge_config, compact_with_state}
use codemachine_pipeline.Queue.Recovery.{IsLogged, hydrate_index-IsLogged}

is_queue_snapshot_v2-snapshot_value :
    (s : QueueSnapshotV2)
    → s.schema_version ≡ "2.0.0"
    → is_queue_snapshot_v2 (snapshot_value s) ≡ some s
unfolding is_queue_snapshot_v2
is_queue_snapshot_v2-snapshot_value s h = ground (arith, eq_iff s.schema_version "2.0.0")

filter-older :
    (n : ℕ) (ops : List QueueOperation)
    → All (λ op. op.seq ≤ n) ops
    → filter (newer_than (some n)) ops ≡ []
filter-older n [] h = refl
filter-older n (op ∷ ops) h = ground (arith, filter-older n ops)

module _ (platform : Platform) where
  open platform use {Text, write_snapshot, parse_snapshot, parse-write_snapshot, hash_snapshot}

  load_snapshot-write_snapshot :
      (dir : QueueDir Text) (s : QueueSnapshotV2)
      → dir.snapshot ≡ some (write_snapshot s)
      → s.schema_version ≡ "2.0.0"
      → s.checksum ≡ hash_snapshot s.tasks s.counts s.dependency_graph
      → load_snapshot platform dir ≡ some s
  unfolding load_snapshot
  load_snapshot-write_snapshot dir s written version hashed = ground (
    arith,
    parse-write_snapshot s,
    is_queue_snapshot_v2-snapshot_value s version,
    eq_iff s.checksum (hash_snapshot s.tasks s.counts s.dependency_graph),
  )

  module _ (dir : QueueDir Text) (feature_id now : String) (state : QueueIndexState)
      (graph : DependencyGraph) where
    abbrev saved : QueueDir Text
    saved =
        (save_snapshot platform dir feature_id state.tasks state.counts state.last_seq graph now).0

    abbrev snapshot : QueueSnapshotV2
    snapshot = record {
      schema_version = "2.0.0";
      feature_id = feature_id;
      snapshot_seq = state.last_seq;
      tasks = state.tasks;
      counts = state.counts;
      dependency_graph = graph;
      timestamp = now;
      checksum = hash_snapshot state.tasks state.counts graph;
    }

    -- what a restart after a compaction finds
    abbrev pub compacted : QueueIndexState
    compacted = settle (record state { snapshot_seq = state.last_seq })

    load_saved : load_snapshot platform saved ≡ some snapshot
    unfolding save_snapshot
    load_saved = load_snapshot-write_snapshot saved snapshot refl refl refl

    saved-IsLogged :
        {ops : List QueueOperation} {last : ℕ}
        → IsLogged platform dir ops last
        → IsLogged platform saved ops last
    unfolding save_snapshot
    saved-IsLogged h = record {
      log = h.log;
      counter = h.counter;
      all_sealed = h.all_sealed;
      sorted = h.sorted;
      bounded = h.bounded;
    }

    abbrev truncated : QueueDir Text
    truncated = truncate_operations_log_to_seq platform saved state.last_seq

    pub truncated-IsLogged : IsLogged platform truncated [] state.last_seq
    unfolding truncate_operations_log_to_seq
    truncated-IsLogged = record {
      log = refl;
      counter = refl;
      all_sealed = tt;
      sorted = tt;
      bounded = tt;
    }

    load_truncated : load_snapshot platform truncated ≡ some snapshot
    unfolding load_snapshot truncate_operations_log_to_seq
    load_truncated = load_saved

    -- Saving a snapshot of an index that has seen the whole log makes a restart find that index,
    -- if the log is not truncated yet, and also if it is.
    pub hydrate_index-save_snapshot :
        (ops : List QueueOperation) (last : ℕ)
        → IsLogged platform dir ops last
        → last ≤ state.last_seq
        → (hydrate_index platform saved ≡ compacted)
          × (hydrate_index platform (truncate_operations_log_to_seq platform saved state.last_seq)
              ≡ compacted)
    unfolding replay restore
    hydrate_index-save_snapshot ops last h seen = (
      hydrate_index-IsLogged platform (restore (some snapshot)) (ap restore load_saved)
            (saved-IsLogged h)
          ∙ ap (λ l. settle (replay (restore (some snapshot)) l))
              (filter-older state.last_seq ops (
                All-map (λ op. op.seq ≤ last) (λ op. op.seq ≤ state.last_seq) (λ op le. omega arith)
                  ops h.bounded)),
      hydrate_index-IsLogged platform (restore (some snapshot)) (ap restore load_truncated)
          truncated-IsLogged,
    )

  compact_with_state_kept :
      (dir : QueueDir Text) (feature_id now : String) (state : QueueIndexState)
      (graph : DependencyGraph) (config : ConfigPatch)
      → (merge_config config).prune_completed ≡ false
      → compact_with_state platform dir feature_id state graph config now ≡ (
        truncated dir feature_id now state graph,
        compacted dir feature_id now state graph,
        record { compacted = true; snapshot_seq = state.last_seq; pruned_tasks = 0 },
      )
  unfolding compact_with_state
  compact_with_state_kept dir feature_id now state graph config keep = rw keep

  -- `compactWithState` leaves a directory from which a restart finds the index that it returns, and
  -- a log that is whole and empty, provided that the index had seen the whole log. No task, count or
  -- sequence number of the index changes, unless the configuration asks for pruning.
  pub hydrate_index-compact_with_state :
      (dir : QueueDir Text) (feature_id now : String) (state : QueueIndexState)
      (graph : DependencyGraph) (config : ConfigPatch) (ops : List QueueOperation) (last : ℕ)
      → (merge_config config).prune_completed ≡ false
      → IsLogged platform dir ops last
      → last ≤ state.last_seq
      → let (after, index, result) =
          compact_with_state platform dir feature_id state graph config now in
        (hydrate_index platform after ≡ index)
        × (index ≡ settle (record state { snapshot_seq = state.last_seq }))
        × IsLogged platform after [] state.last_seq
  hydrate_index-compact_with_state dir feature_id now state graph config ops last keep h seen =
      rw (compact_with_state_kept dir feature_id now state graph config keep) (
        (hydrate_index-save_snapshot dir feature_id now state graph ops last h seen).1,
        refl,
        truncated-IsLogged dir feature_id now state graph,
      )

  pub snapshot_seq-compact_with_state :
      (dir : QueueDir Text) (feature_id now : String) (state : QueueIndexState)
      (graph : DependencyGraph) (config : ConfigPatch)
      → (merge_config config).prune_completed ≡ false
      → (restore (
          load_snapshot platform
            (compact_with_state platform dir feature_id state graph config now).0)).snapshot_seq
        ≡ state.last_seq
  unfolding restore
  snapshot_seq-compact_with_state dir feature_id now state graph config keep =
      rw (compact_with_state_kept dir feature_id now state graph config keep)
        (rw (load_truncated dir feature_id now state graph))
