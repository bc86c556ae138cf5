-- ===== src/Queue/Recovery.antt =====
-- What a process finds after a restart: the log and the snapshot against the index in memory.
pub mod Compacted
pub mod Interrupted
use codemachine_pipeline.Prelude.{
  ℕ, ◌+◌, ◌≤◌, ◌<◌, ◌≡◌, refl, sym, ap, ◌∙◌, false, Option, some, List, [], ◌∷◌, ◌++◌, map, arith,
  lt→ltb, eq_iff, filter, All, All-append, All-map, All-filter, none,
}
use codemachine_pipeline.Queue.Types.{
  create_empty_index_state, QueueOperation, QueueIndexState, QueueSnapshotV2,
}
use codemachine_pipeline.Queue.Index.{apply_operation, replay}
use codemachine_pipeline.Queue.Index.Replay.{
  settle, apply_operation_dirty, replay-append, last_seq-replay_le,
}
use codemachine_pipeline.Queue.Log.{
  Platform, QueueDir, holds, NewOperation, newer_than, compute_operation_checksum, complete,
  append_operation, read_sequence_counter, read_operations,
}
use codemachine_pipeline.Queue.Values.{snapshot_value}
use codemachine_pipeline.Queue.Log.Read.{
  IsSorted, IsSorted-snoc, IsSealed, filter-append, read_operations_with_stats-write_operation,
}
use codemachine_pipeline.Queue.Snapshot.{
  is_queue_snapshot_v2, restore, load_snapshot, hydrate_index,
}

is_queue_snapshot_v2-snapshot_value :
    (s : QueueSnapshotV2)
    → s.schema_version ≡ "2.0.0"
    → is_queue_snapshot_v2 (snapshot_value s) ≡ some s
unfolding is_queue_snapshot_v2
is_queue_snapshot_v2-snapshot_value s h = ground (arith, eq_iff s.schema_version "2.0.0")

pub filter-newest :
    (n : ℕ) (op : QueueOperation) → n < op.seq → filter (newer_than (some n)) (op ∷ []) ≡ op ∷ []
filter-newest n op h = rw (lt→ltb n op.seq h)

last_seq-restore :
    (snapshot : Option QueueSnapshotV2)
    → (restore snapshot).last_seq ≡ (restore snapshot).snapshot_seq
unfolding restore create_empty_index_state
last_seq-restore none = refl
last_seq-restore (some s) = refl

last_seq_applied :
    (s : QueueIndexState) (op : QueueOperation)
    → s.last_seq < op.seq
    → (settle (apply_operation s op)).last_seq ≡ op.seq
unfolding apply_operation
last_seq_applied s op newer = ground arith

module _ (platform : Platform) where
  open platform use {Text, write_operation, write_snapshot, parse-write_snapshot, hash_snapshot}

  -- The log holds these operations, whole and in order.
  pub record IsWritten (dir : QueueDir Text) (ops : List QueueOperation) : Type 0 where
    pub log : dir.log ≡ some (map write_operation ops)
    pub all_sealed : All (IsSealed platform) ops
    pub sorted : IsSorted ops

  -- And the counter is `last`, which no operation passes.
  pub record IsLogged (dir : QueueDir Text) (ops : List QueueOperation) (last : ℕ) : Type 0 where
    pub log : dir.log ≡ some (map write_operation ops)
    pub counter : dir.counter ≡ holds last
    pub all_sealed : All (IsSealed platform) ops
    pub sorted : IsSorted ops
    pub bounded : All (λ op. op.seq ≤ last) ops

  pub written :
      {dir : QueueDir Text} {ops : List QueueOperation} {last : ℕ}
      → IsLogged dir ops last
      → IsWritten dir ops
  written h = record { log = h.log; all_sealed = h.all_sealed; sorted = h.sorted }

  read_operations-IsWritten :
      {dir : QueueDir Text} {ops : List QueueOperation} (after : Option ℕ)
      → IsWritten dir ops
      → read_operations platform dir after ≡ filter (newer_than after) ops
  unfolding read_operations
  read_operations-IsWritten {dir} {ops} after h =
      ap (λ r. r.operations)
        (read_operations_with_stats-write_operation platform dir after ops h.log h.all_sealed
          h.sorted)

  pub read_sequence_counter-IsLogged :
      {dir : QueueDir Text} {ops : List QueueOperation} {last : ℕ}
      → IsLogged dir ops last
      → read_sequence_counter platform dir ≡ last
  unfolding read_sequence_counter
  read_sequence_counter-IsLogged h = rw h.counter

  -- The operation that is appended has the number after the last one.
  pub append_operation-complete :
      {dir : QueueDir Text} {ops : List QueueOperation} {last : ℕ} (op : NewOperation)
      → IsLogged dir ops last
      → (append_operation platform dir op).1 ≡ complete platform (last + 1) op
  unfolding append_operation
  append_operation-complete op h = rw (read_sequence_counter-IsLogged h)

  pub append_operation-seq :
      {dir : QueueDir Text} {ops : List QueueOperation} {last : ℕ} (op : NewOperation)
      → IsLogged dir ops last
      → (append_operation platform dir op).1.seq ≡ last + 1
  unfolding complete
  append_operation-seq op h = ap (λ (o : QueueOperation). o.seq) (append_operation-complete op h)

  pub map-append_one :
      (ops : List QueueOperation) (op : QueueOperation)
      → map write_operation (ops ++ op ∷ []) ≡ map write_operation ops ++ write_operation op ∷ []
  map-append_one [] op = refl
  map-append_one (x ∷ ops) op = ap (λ r. write_operation x ∷ r) (map-append_one ops op)

  -- Appending keeps the log whole and in order, and gives the operation the next number.
  pub append_operation-IsLogged :
      {dir : QueueDir Text} {ops : List QueueOperation} {last : ℕ} (op : NewOperation)
      → IsLogged dir ops last
      → IsLogged
          (append_operation platform dir op).0
          (ops ++ complete platform (last + 1) op ∷ [])
          (last + 1)
  unfolding append_operation complete compute_operation_checksum
  append_operation-IsLogged {dir} {ops} {last} op h = record {
    log = rw (read_sequence_counter-IsLogged h, map-append_one, h.log);
    counter = rw (read_sequence_counter-IsLogged h);
    all_sealed = All-append (IsSealed platform) ops _ h.all_sealed (refl, tt);
    sorted =
        IsSorted-snoc ops _
          (All-map (λ x. x.seq ≤ last) (λ x. x.seq ≤ last + 1) (λ x le. omega arith) ops h.bounded)
          h.sorted;
    bounded =
        All-append (λ x. x.seq ≤ last + 1) ops _
          (All-map (λ x. x.seq ≤ last) (λ x. x.seq ≤ last + 1) (λ x le. omega arith) ops h.bounded)
          (omega arith, tt);
  }

  pub load_snapshot-append_operation :
      (dir : QueueDir Text) (op : NewOperation)
      → load_snapshot platform (append_operation platform dir op).0 ≡ load_snapshot platform dir
  unfolding load_snapshot append_operation
  load_snapshot-append_operation dir op = refl

  pub hydrate_index-IsWritten :
      {dir : QueueDir Text} {ops : List QueueOperation} (st : QueueIndexState)
      → restore (load_snapshot platform dir) ≡ st
      → IsWritten dir ops
      → hydrate_index platform dir
        ≡ settle (replay st (filter (newer_than (some st.snapshot_seq)) ops))
  unfolding hydrate_index
  hydrate_index-IsWritten st restored h = rw (restored, read_operations-IsWritten _ h)

  pub hydrate_index-IsLogged :
      {dir : QueueDir Text} {ops : List QueueOperation} {last : ℕ} (st : QueueIndexState)
      → restore (load_snapshot platform dir) ≡ st
      → IsLogged dir ops last
      → hydrate_index platform dir
        ≡ settle (replay st (filter (newer_than (some st.snapshot_seq)) ops))
  hydrate_index-IsLogged st restored h = hydrate_index-IsWritten st restored (written h)

  -- A restart finds no number above the last one of the log and the snapshot.
  hydrate_index_last_seq :
      (dir : QueueDir Text) (ops : List QueueOperation) (last : ℕ)
      → IsLogged dir ops last
      → (restore (load_snapshot platform dir)).snapshot_seq ≤ last
      → (hydrate_index platform dir).last_seq ≤ last
  hydrate_index_last_seq dir ops last h below =
      let st = restore (load_snapshot platform dir) in
      rw (hydrate_index-IsLogged st refl h) (
        last_seq-replay_le st (filter (newer_than (some st.snapshot_seq)) ops) last
          (rw (last_seq-restore (load_snapshot platform dir)) below)
          (All-map _ (λ o. o.seq ≤ last) (λ o both. both.0) _
            (All-filter (λ o. o.seq ≤ last) (newer_than (some st.snapshot_seq)) ops h.bounded)))

  pub hydrate_index-appended :
      (dir : QueueDir Text) (ops : List QueueOperation) (last : ℕ) (op : NewOperation)
      → IsLogged dir ops last
      → (restore (load_snapshot platform dir)).snapshot_seq ≤ last
      → hydrate_index platform (append_operation platform dir op).0
        ≡ settle (apply_operation (hydrate_index platform dir) (append_operation platform dir op).1)
  hydrate_index-appended dir ops last op h below =
      let st = restore (load_snapshot platform dir) in
      let new = complete platform (last + 1) op in
      let before = hydrate_index-IsLogged st refl h in
      let after =
        hydrate_index-IsLogged st (ap restore (load_snapshot-append_operation dir op))
          (append_operation-IsLogged op h) in
      rw (after, before, append_operation-complete op h)
        (rw
          (
            filter-append (newer_than (some st.snapshot_seq)) ops (new ∷ []),
            filter-newest st.snapshot_seq new (unfold complete in omega arith),
            replay-append,
          )
          (unfold replay in
            sym (
              apply_operation_dirty (replay st (filter (newer_than (some st.snapshot_seq)) ops))
                false new)))

  -- Where the log is whole and its last number is `last`, an append gives the operation the number `last + 1`,
  -- and a restart after it finds the index of a restart before it with the operation applied: as that index
  -- has no number above `last`, the operation is not skipped, and the index then has its number.
  pub hydrate_index-append_operation :
      (dir : QueueDir Text) (ops : List QueueOperation) (last : ℕ) (op : NewOperation)
      → IsLogged dir ops last
      → (restore (load_snapshot platform dir)).snapshot_seq ≤ last
      → ((append_operation platform dir op).1 ≡ complete platform (last + 1) op)
        × (hydrate_index platform (append_operation platform dir op).0
            ≡ settle
                (apply_operation (hydrate_index platform dir) (complete platform (last + 1) op)))
        × ((hydrate_index platform dir).last_seq ≤ last)
        × ((hydrate_index platform (append_operation platform dir op).0).last_seq ≡ last + 1)
  unfolding complete
  hydrate_index-append_operation dir ops last op h below =
      let new = append_operation-complete op h in
      let before = hydrate_index_last_seq dir ops last h below in
      let after =
        hydrate_index-appended dir ops last op h below
        ∙ ap (λ o. settle (apply_operation (hydrate_index platform dir) o)) new in
      (
        new,
        after,
        before,
        ap (λ (s : QueueIndexState). s.last_seq) after
            ∙ last_seq_applied (hydrate_index platform dir) (complete platform (last + 1) op)
                (omega (arith, before)),
      )
