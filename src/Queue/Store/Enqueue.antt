-- ===== src/Queue/Store/Enqueue.antt =====
-- Appending tasks to the queue: when the index and the files agree afterwards, and when not.
use native.Mathlib.Nat.{add-zero}
use codemachine_pipeline.Prelude.{
  ℕ, suc, ◌+◌, ◌≡◌, refl, sym, ap, ◌∙◌, String, none, some, List, [], ◌∷◌, map, length, length-map,
  arith,
}
use codemachine_pipeline.Prelude.OrderedMap
use codemachine_pipeline.Prelude.OrderedMap.{get-set}
use text.Mathlib.TextPositions.{eq_refl}
use codemachine_pipeline.Queue.Types.{ExecutionTask, QueueOperation, QueueIndexState}
use codemachine_pipeline.Queue.Index.{add_task, apply_operation, dispatch, insert_entry}
use codemachine_pipeline.Queue.Index.Replay.{settle}
use codemachine_pipeline.Queue.Log.{
  Platform, QueueDir, NewOperation, append_operation, append_operations_batch, complete,
  complete_batch, last_number,
}
use codemachine_pipeline.Queue.Log.Batch.{
  append_all, append_operations_batch-eq-append_all, last_number-complete_batch,
}
use codemachine_pipeline.Queue.Snapshot.{hydrate_index}
use codemachine_pipeline.Queue.Recovery.{
  read_sequence_counter-IsLogged, append_operation-complete, hydrate_index-appended,
}
use codemachine_pipeline.Queue.Store.{
  V2IndexCache, Run, get_v2_index_cache, succeeded, create_operation, add_tasks, append_to_queue,
}
use codemachine_pipeline.Queue.Store.Sync.{Agrees, Agrees-append, IsSynced}

-- The tasks have ids that the index does not hold, and no two the same.
abbrev pub AreNew : QueueIndexState → List ExecutionTask → Type 0
AreNew s [] = Unit
AreNew s (t ∷ ts) = (OrderedMap.get t.task_id s.tasks ≡ none) × AreNew (add_task s t) ts

-- the index after each operation in turn, with its number
steps : QueueIndexState → List ExecutionTask → QueueIndexState
steps s [] = s
steps s (t ∷ ts) = steps (add_task (record s { last_seq = s.last_seq + 1 }) t) ts

add_task_numbered :
    (s : QueueIndexState) (n : ℕ) (t : ExecutionTask)
    → add_task (record s { last_seq = n }) t ≡ record (add_task s t) { last_seq = n }
unfolding add_task insert_entry
add_task_numbered s n t = ground arith

last_seq-add_task : (s : QueueIndexState) (t : ExecutionTask) → (add_task s t).last_seq ≡ s.last_seq
unfolding add_task insert_entry
last_seq-add_task s t = ground arith

add_tasks_numbered :
    (s : QueueIndexState) (n : ℕ) (ts : List ExecutionTask)
    → add_tasks (record s { last_seq = n }) ts ≡ record (add_tasks s ts) { last_seq = n }
unfolding add_tasks
add_tasks_numbered s n [] = refl
add_tasks_numbered s n (t ∷ ts) =
    ap (λ x. add_tasks x ts) (add_task_numbered s n t) ∙ add_tasks_numbered (add_task s t) n ts

plus_one : (a b : ℕ) → a + 1 + b ≡ a + suc b
plus_one a b = omega arith

steps-eq-add_tasks :
    (s : QueueIndexState) (ts : List ExecutionTask)
    → steps s ts ≡ record (add_tasks s ts) { last_seq = s.last_seq + length ts }
unfolding steps add_tasks
steps-eq-add_tasks s [] = ap (λ n. record s { last_seq = n }) (sym (add-zero s.last_seq))
steps-eq-add_tasks s (t ∷ ts) =
    let n = s.last_seq + 1 in
    ap (λ x. steps x ts) (add_task_numbered s n t)
    ∙ steps-eq-add_tasks (record (add_task s t) { last_seq = n }) ts
    ∙ cc (add_tasks_numbered (add_task s t) n ts, plus_one s.last_seq (length ts))

AreNew-numbered :
    (s : QueueIndexState) (n : ℕ) (ts : List ExecutionTask)
    → AreNew s ts
    → AreNew (record s { last_seq = n }) ts
AreNew-numbered s n [] h = tt
AreNew-numbered s n (t ∷ ts) h =
    (h.0, rw (add_task_numbered s n t) (AreNew-numbered (add_task s t) n ts h.1))

module _ (platform : Platform) where
  open platform use {Text}

  add_task-apply_operation :
      (s : QueueIndexState) (now : String) (t : ExecutionTask)
      → OrderedMap.get t.task_id s.tasks ≡ none
      → settle (add_task (record s { last_seq = s.last_seq + 1 }) t)
        ≡ settle (apply_operation s (complete platform (s.last_seq + 1) (create_operation now t)))
  unfolding add_task OrderedMap.has insert_entry apply_operation dispatch complete
  add_task-apply_operation s now t fresh = ground arith

  Agrees-append_all :
      (dir : QueueDir Text) (s : QueueIndexState) (now : String) (ts : List ExecutionTask)
      → AreNew s ts
      → Agrees platform dir s
      → Agrees platform (append_all platform dir (map (create_operation now) ts)) (steps s ts)
  unfolding append_all steps
  Agrees-append_all dir s now [] fresh h = h
  Agrees-append_all dir s now (t ∷ ts) fresh h =
      let numbered = record s { last_seq = s.last_seq + 1 } in
      Agrees-append_all (append_operation platform dir (create_operation now t)).0
        (add_task numbered t) now ts
        (rw (add_task_numbered s (s.last_seq + 1) t)
          (AreNew-numbered (add_task s t) (s.last_seq + 1) ts fresh.1))
        (Agrees-append platform dir s (add_task numbered t) (create_operation now t)
          (add_task-apply_operation s now t fresh.0) (last_seq-add_task numbered t) h)

  module _ (r : Run Text) (cache : V2IndexCache) (now : String) (t : ExecutionTask)
      (ts : List ExecutionTask) (cached : r.cache ≡ some cache)
      (h : Agrees platform r.dir cache.state) where
    abbrev enqueued : Run Text
    enqueued = (append_to_queue platform r (t ∷ ts) now).0

    abbrev batch : List NewOperation
    batch = map (create_operation now) (t ∷ ts)

    abbrev appended : QueueDir Text × List QueueOperation
    appended = append_operations_batch platform r.dir batch

    abbrev number : ℕ
    number = last_number cache.state.last_seq appended.1

    enqueued-fields :
        (enqueued.dir ≡ appended.0)
        × (enqueued.cache
            ≡ some (record cache {
              state = add_tasks (record (cache.state) { last_seq = number }) (t ∷ ts);
            }))
    unfolding append_to_queue
    enqueued-fields = (rw (cached, get_v2_index_cache), rw (cached, get_v2_index_cache))

    appended-ops : appended.1 ≡ complete_batch platform cache.state.last_seq batch
    unfolding append_operations_batch
    appended-ops = rw (read_sequence_counter-IsLogged platform h.logged)

    steps-number :
        add_tasks (record (cache.state) { last_seq = number }) (t ∷ ts) ≡ steps cache.state (t ∷ ts)
    steps-number =
        add_tasks_numbered cache.state number (t ∷ ts)
        ∙ (rw
            (
              appended-ops,
              last_number-complete_batch platform cache.state.last_seq batch,
              length-map (t ∷ ts) (create_operation now),
            )
            (sym (steps-eq-add_tasks cache.state (t ∷ ts))))

    Agrees-enqueued : AreNew cache.state (t ∷ ts) → IsSynced platform enqueued
    Agrees-enqueued fresh = record {
      cache = record cache { state = steps cache.state (t ∷ ts) };
      cached = rw (← steps-number) enqueued-fields.1;
      agrees =
          rw
            (
              enqueued-fields.0,
              append_operations_batch-eq-append_all platform r.dir _ cache.state.last_seq batch
                  h.logged.log h.logged.counter,
            )
            (Agrees-append_all r.dir cache.state now (t ∷ ts) fresh h);
    }

  append_to_queue-nil :
      (r : Run Text) (cache : V2IndexCache) (now : String)
      → r.cache ≡ some cache
      → append_to_queue platform r [] now ≡ (record r { cache = some cache }, succeeded 0)
  unfolding append_to_queue
  append_to_queue-nil r cache now cached = rw (cached, get_v2_index_cache)

  -- `appendToQueue` keeps the index and the files in agreement, for tasks whose ids are new to the
  -- index and differ from one another.
  pub append_to_queue-IsSynced :
      (r : Run Text) (tasks : List ExecutionTask) (now : String) (h : IsSynced platform r)
      → AreNew h.cache.state tasks
      → IsSynced platform (append_to_queue platform r tasks now).0
  append_to_queue-IsSynced r [] now h fresh =
      rw (append_to_queue-nil r h.cache now h.cached)
        (record { cache = h.cache; cached = refl; agrees = h.agrees })
  append_to_queue-IsSynced r (t ∷ ts) now h fresh =
      Agrees-enqueued r h.cache now t ts h.cached h.agrees fresh

  add_task_known :
      (s : QueueIndexState) (t old : ExecutionTask)
      → OrderedMap.get t.task_id s.tasks ≡ some old
      → add_task s t ≡ s
  unfolding add_task OrderedMap.has
  add_task_known s t old known = rw (known, OrderedMap.has)

  tasks-create :
      (s : QueueIndexState) (t : ExecutionTask) (now : String)
      → (apply_operation s (complete platform (s.last_seq + 1) (create_operation now t))).tasks
        ≡ OrderedMap.set t.task_id t s.tasks
  unfolding apply_operation dispatch insert_entry complete
  tasks-create s t now = ground arith

  -- Appending a task whose id the queue holds: the index in memory keeps the old task, and a restart
  -- finds the new one in its place.
  pub append_to_queue_known :
      (r : Run Text) (t old : ExecutionTask) (now : String) (h : IsSynced platform r)
      → OrderedMap.get t.task_id h.cache.state.tasks ≡ some old
      → let after = (append_to_queue platform r (t ∷ []) now).0 in
        ((cache : V2IndexCache) × (after.cache ≡ some cache)
          × (OrderedMap.get t.task_id cache.state.tasks ≡ some old))
        × (OrderedMap.get t.task_id (hydrate_index platform after.dir).tasks ≡ some t)
  append_to_queue_known r t old now h known =
      let s = h.cache.state in
      let fields = enqueued-fields r h.cache now t [] h.cached h.agrees in
      let numbered = record s { last_seq = number r h.cache now t [] h.cached h.agrees } in
      let op = create_operation now t in
      (
        (
          record (h.cache) { state = add_tasks numbered (t ∷ []) },
          fields.1,
          unfold add_tasks in rw (add_task_known numbered t old known) known,
        ),
        rw
            (
              fields.0,
              append_operations_batch-eq-append_all platform r.dir _ s.last_seq (op ∷ [])
                  h.agrees.logged.log h.agrees.logged.counter,
            )
            (unfold append_all in
              rw
                (
                  hydrate_index-appended platform r.dir h.agrees.ops s.last_seq op h.agrees.logged
                      h.agrees.known,
                  h.agrees.restart,
                  append_operation-complete platform op h.agrees.logged,
                )
                (rw (tasks-create (settle s) t now, get-set, eq_refl))),
      )
