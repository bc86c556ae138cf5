-- ===== src/Queue/Tests/Files.antt =====
-- The log, the snapshot and the store on sample files.
use codemachine_pipeline.Prelude.{
  ◌≡◌, ◌≤◌, ◌+◌, refl, String, false, none, some, List, [], ◌∷◌, arith, filter,
}
use codemachine_pipeline.Prelude.OrderedMap
use codemachine_pipeline.Prelude.Int.{pos}
use codemachine_pipeline.Queue.Types.{
  pending, running, completed, ExecutionTask, no_changes, update, QueueOperation, QueueIndexState,
  create_empty_index_state, create_empty_queue_counts,
}
use codemachine_pipeline.Queue.Index.{add_task, insert_entry, replay}
use codemachine_pipeline.Queue.Index.Replay.{settle}
use codemachine_pipeline.Queue.Log.{
  NewOperation, complete, append_line, append_operation, read_operations,
  read_operations_with_stats, no_operations, newer_than, compute_operation_checksum,
}
use codemachine_pipeline.Queue.Log.Read.{IsSealed, read_operations_with_stats-write_operation}
use codemachine_pipeline.Queue.Snapshot.{restore, load_snapshot, hydrate_index}
use codemachine_pipeline.Queue.Compaction.{ConfigPatch, merge_config, compact_with_state}
use codemachine_pipeline.Queue.Index.{apply_operation}
use codemachine_pipeline.Queue.Recovery.{IsLogged, hydrate_index-append_operation}
use codemachine_pipeline.Queue.Recovery.Compacted.{hydrate_index-compact_with_state}
use codemachine_pipeline.Queue.Recovery.Interrupted.{append_after_interrupted}
use codemachine_pipeline.Queue.Store.{append_to_queue, update_task_in_queue}
use codemachine_pipeline.Queue.Store.Sync.{Agrees, IsSynced, update_task_in_queue-IsSynced}
use codemachine_pipeline.Queue.Store.Enqueue.{AreNew, append_to_queue-IsSynced}
use codemachine_pipeline.Queue.Types.{QueueCounts}
use codemachine_pipeline.Queue.Tests.{task, empty}
use codemachine_pipeline.Queue.Tests.Memory.{operation_line, node, new_dir, new_run, one_index}

new_dir-IsLogged : IsLogged node new_dir [] 0
new_dir-IsLogged = record { log = refl; counter = refl; all_sealed = tt; sorted = tt; bounded = tt }

new_dir-known : (restore (load_snapshot node new_dir)).snapshot_seq ≤ 0
unfolding restore load_snapshot create_empty_index_state
new_dir-known = omega arith

abbrev start_op : String → NewOperation
start_op key = record {
  op = update;
  ts = "t";
  task_id = key;
  patch = some (record no_changes { status = some running });
  task = none;
}

append_after_interrupted_example :
    let a = complete node (0 + 1) (start_op "a") in
    let (after, appended) = append_operation node (append_line node new_dir a) (start_op "b") in
    (appended.seq ≡ 0 + 1)
    × (hydrate_index node after ≡ hydrate_index node (append_line node new_dir a))
append_after_interrupted_example =
    append_after_interrupted node new_dir [] 0 (start_op "a") (start_op "b") new_dir-IsLogged
      new_dir-known

hydrate_index-append_operation_example :
    let (after, appended) = append_operation node new_dir (start_op "a") in
    (appended ≡ complete node 1 (start_op "a"))
    × (hydrate_index node after
        ≡ settle (apply_operation (hydrate_index node new_dir) (complete node 1 (start_op "a"))))
    × ((hydrate_index node new_dir).last_seq ≤ 0)
    × ((hydrate_index node after).last_seq ≡ 1)
hydrate_index-append_operation_example =
    hydrate_index-append_operation node new_dir [] 0 (start_op "a") new_dir-IsLogged new_dir-known

abbrev default_config : ConfigPatch
default_config = record { max_updates = none; max_bytes = none; prune_completed = none }

default_keeps : (merge_config default_config).prune_completed ≡ false
unfolding merge_config
default_keeps = refl

new_run-Agrees : Agrees node new_dir empty
unfolding hydrate_index load_snapshot read_operations create_empty_index_state replay
new_run-Agrees = record {
  ops = [];
  logged = new_dir-IsLogged;
  known = new_dir-known;
  restart = refl;
}

abbrev new_run-IsSynced : IsSynced node new_run
new_run-IsSynced = record {
  cache = record { state = empty; feature_id = "f" };
  cached = refl;
  agrees = new_run-Agrees;
}

abbrev two_tasks : List ExecutionTask
two_tasks = task "a" pending [] ∷ task "b" pending ("a" ∷ []) ∷ []

two_tasks-AreNew : AreNew empty two_tasks
unfolding add_task insert_entry OrderedMap.get OrderedMap.has OrderedMap.set
    create_empty_index_state
two_tasks-AreNew = (refl, (refl, tt))

append_to_queue-IsSynced_example : IsSynced node (append_to_queue node new_run two_tasks "now").0
append_to_queue-IsSynced_example =
    append_to_queue-IsSynced node new_run two_tasks "now" new_run-IsSynced two_tasks-AreNew

update_task_in_queue-IsSynced_example :
    IsSynced node
      (update_task_in_queue node
        (append_to_queue node new_run two_tasks "now").0
        "a"
        (record no_changes { status = some running })
        "later").0
update_task_in_queue-IsSynced_example =
    update_task_in_queue-IsSynced node (append_to_queue node new_run two_tasks "now").0 "a" "later"
      (record no_changes { status = some running })
      (append_to_queue-IsSynced node new_run two_tasks "now" new_run-IsSynced two_tasks-AreNew)

abbrev written_op : QueueOperation
written_op = complete node 1 (start_op "a")

written_op-IsSealed : IsSealed node written_op
unfolding complete compute_operation_checksum
written_op-IsSealed = refl

read_operations_with_stats-write_operation_example :
    read_operations_with_stats node
      (record new_dir { log = some (operation_line written_op ∷ []) })
      (some 0)
    ≡ record no_operations { operations = filter (newer_than (some 0)) (written_op ∷ []) }
read_operations_with_stats-write_operation_example =
    read_operations_with_stats-write_operation node
      (record new_dir { log = some (operation_line written_op ∷ []) }) (some 0) (written_op ∷ [])
      refl (written_op-IsSealed, tt) (tt, tt)

-- A queue that holds a completed task.
abbrev old_task : ExecutionTask
old_task = task "a" completed []

abbrev old_counts : QueueCounts
old_counts = record create_empty_queue_counts { total = pos 1; completed = pos 1 }

abbrev old_index : QueueIndexState
old_index = one_index old_task old_counts

old_task-known : OrderedMap.get "a" old_index.tasks ≡ some old_task
unfolding OrderedMap.get
old_task-known = refl

hydrate_index-compact_with_state_example :
    let (after, index, result) =
      compact_with_state node new_dir "f" old_index [] default_config "now" in
    (hydrate_index node after ≡ index)
    × (index ≡ settle (record old_index { snapshot_seq = old_index.last_seq }))
    × IsLogged node after [] old_index.last_seq
hydrate_index-compact_with_state_example =
    hydrate_index-compact_with_state node new_dir "f" "now" old_index [] default_config [] 0
      default_keeps new_dir-IsLogged (omega arith)
