-- ===== src/Queue/Recovery/Interrupted.antt =====
-- A process that stops between the two writes of an append: the line is in the log, and the counter
-- file still holds the number before it.
use codemachine_pipeline.Prelude.{
  ℕ, ◌+◌, ◌≤◌, ◌≡◌, refl, sym, ap, ◌∙◌, Bool, some, List, [], ◌∷◌, ◌++◌, arith, filter, All,
  All-append, All-map,
}
use codemachine_pipeline.Queue.Types.{QueueOperation, QueueIndexState}
use codemachine_pipeline.Queue.Index.{apply_operation, replay}
use codemachine_pipeline.Queue.Index.Replay.{
  settle, apply_operation_stale, last_seq-apply_operation, replay-append,
}
use codemachine_pipeline.Queue.Log.{
  Platform, QueueDir, holds, NewOperation, newer_than, compute_operation_checksum, complete,
  append_line, append_operation, read_sequence_counter,
}
use codemachine_pipeline.Queue.Log.Read.{IsSorted-snoc, IsSealed, filter-append}
use codemachine_pipeline.Queue.Snapshot.{restore, load_snapshot, hydrate_index}
use codemachine_pipeline.Queue.Recovery.{
  IsWritten, IsLogged, written, filter-newest, map-append_one, hydrate_index-IsWritten,
}

module _ (platform : Platform) (dir : QueueDir platform.Text) (ops : List QueueOperation) (last : ℕ)
    (first second : NewOperation) (h : IsLogged platform dir ops last)
    (below : (restore (load_snapshot platform dir)).snapshot_seq ≤ last) where
  abbrev st : QueueIndexState
  st = restore (load_snapshot platform dir)

  abbrev a : QueueOperation
  a = complete platform (last + 1) first

  abbrev b : QueueOperation
  b = complete platform (last + 1) second

  -- the directory that the interrupted append leaves
  abbrev interrupted : QueueDir platform.Text
  interrupted = append_line platform dir a

  one_more :
      {d : QueueDir platform.Text} {xs : List QueueOperation} (op : NewOperation)
      → IsWritten platform d xs
      → All (λ x. x.seq ≤ last + 1) xs
      → IsWritten platform
          (append_line platform d (complete platform (last + 1) op))
          (xs ++ complete platform (last + 1) op ∷ [])
  unfolding append_line complete compute_operation_checksum
  one_more {d} {xs} op w bounded = record {
    log = rw (map-append_one platform, w.log);
    all_sealed = All-append (IsSealed platform) xs _ w.all_sealed (refl, tt);
    sorted = IsSorted-snoc xs _ bounded w.sorted;
  }

  interrupted-IsWritten : IsWritten platform interrupted (ops ++ a ∷ [])
  interrupted-IsWritten =
      one_more first (written platform h)
        (All-map (λ x. x.seq ≤ last) (λ x. x.seq ≤ last + 1) (λ x le. omega arith) ops h.bounded)

  append_interrupted :
      append_operation platform interrupted second
      ≡ (record (append_line platform interrupted b) { counter = holds (last + 1) }, b)
  unfolding append_operation read_sequence_counter append_line
  append_interrupted = rw h.counter

  appended-IsWritten :
      IsWritten platform
        (append_operation platform interrupted second).0
        ((ops ++ a ∷ []) ++ b ∷ [])
  appended-IsWritten =
      let w = one_more second interrupted-IsWritten (
        All-append (λ x. x.seq ≤ last + 1) ops (a ∷ [])
          (All-map (λ x. x.seq ≤ last) (λ x. x.seq ≤ last + 1) (λ x le. omega arith) ops h.bounded)
          (unfold complete in omega arith, tt)) in
      rw append_interrupted (record { log = w.log; all_sealed = w.all_sealed; sorted = w.sorted })

  same_snapshot :
      (restore (load_snapshot platform interrupted) ≡ st)
      × (restore (load_snapshot platform (append_operation platform interrupted second).0) ≡ st)
  unfolding load_snapshot append_line append_operation
  same_snapshot = (refl, refl)

  abbrev newer : QueueOperation → Bool
  newer = newer_than (some st.snapshot_seq)

  replay-twice :
      replay st (filter newer ((ops ++ a ∷ []) ++ b ∷ []))
      ≡ replay st (filter newer (ops ++ a ∷ []))
  unfolding replay complete
  replay-twice =
      let s = replay st (filter newer ops) in
      rw
        (
          filter-append newer (ops ++ a ∷ []) (b ∷ []),
          filter-append newer ops (a ∷ []),
          filter-newest st.snapshot_seq a (omega arith),
          filter-newest st.snapshot_seq b (omega arith),
          replay-append st (filter newer ops ++ a ∷ []) (b ∷ []),
          replay-append st (filter newer ops) (a ∷ []),
        )
        (apply_operation_stale (apply_operation s a) b (last_seq-apply_operation s a).1)

  -- After an append that stopped between its two writes, the next append reuses its number, so that
  -- a restart does not find the operation that was then appended and acknowledged.
  pub append_after_interrupted :
      let (after, appended) = append_operation platform interrupted second in
      (appended.seq ≡ last + 1)
      × (hydrate_index platform after ≡ hydrate_index platform interrupted)
  append_after_interrupted = (
    ap (λ r. r.1.seq) append_interrupted ∙ (unfold complete in refl),
    hydrate_index-IsWritten platform st same_snapshot.1 appended-IsWritten
        ∙ ap settle replay-twice
        ∙ sym (hydrate_index-IsWritten platform st same_snapshot.0 interrupted-IsWritten),
  )
