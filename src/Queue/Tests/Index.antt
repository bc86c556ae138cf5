-- ===== src/Queue/Tests/Index.antt =====
-- The index on sample operations.
use codemachine_pipeline.Prelude.{◌≡◌, refl, some, [], arith, ◌<◌}
use codemachine_pipeline.Prelude.OrderedMap
use codemachine_pipeline.Prelude.Int.{pos, inc, dec}
use codemachine_pipeline.Queue.Types.{
  merge, pending, completed, QueueIndexState, create_empty_index_state,
}
use codemachine_pipeline.Queue.Index.{
  count_in, count_move, apply_operation, dispatch, insert_entry, patch_entry, replay,
}
use codemachine_pipeline.Queue.Index.Invariant.{CreatesAllFresh}
use codemachine_pipeline.Queue.Tests.{task, two_ops, empty}

replay_two : (replay empty two_ops).counts.completed ≡ pos 1
unfolding replay apply_operation dispatch insert_entry patch_entry count_in count_move merge inc dec
    OrderedMap.get OrderedMap.set create_empty_index_state
replay_two = refl

two-fresh : CreatesAllFresh empty two_ops
unfolding create_empty_index_state OrderedMap.get
two-fresh = (λ e. refl, (λ e. cc, tt))

-- The index after both operations holds the task.
abbrev one_done : QueueIndexState
one_done = replay empty two_ops

one_done-task :
    OrderedMap.get "a" one_done.tasks ≡ some (record (task "a" pending []) { status = completed })
unfolding replay apply_operation dispatch insert_entry patch_entry merge OrderedMap.get
    OrderedMap.set create_empty_index_state
one_done-task = refl

one_done-newer : one_done.last_seq < 3
unfolding replay apply_operation create_empty_index_state
one_done-newer = omega arith
