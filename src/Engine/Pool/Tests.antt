-- ===== src/Engine/Pool/Tests.antt =====
-- A pool of at most two workers over a queue of one task.
use codemachine_pipeline.Prelude.{refl, arith, true, false, [], ◌∷◌}
use codemachine_pipeline.Prelude.Int.{pos}
use codemachine_pipeline.Prelude.OrderedMap.{OrderedMap}
use codemachine_pipeline.Queue.Types.{
  ExecutionTask, pending, QueueCounts, create_empty_queue_counts,
}
use codemachine_pipeline.Queue.Store.{get_v2_index_cache}
use codemachine_pipeline.Queue.Tests.{task}
use codemachine_pipeline.Queue.Tests.Memory.{node, one_run}
use codemachine_pipeline.Engine.Task.{EngineConfig}
use codemachine_pipeline.Engine.Pool.{
  Pool, Steps, none_yet, next, advances, starts_round, begin_round, at_top,
}
use codemachine_pipeline.Engine.Pool.Bounded.{IsBounded, Steps-IsBounded}

abbrev waiting : ExecutionTask
waiting = task "a" pending []

abbrev waiting_counts : QueueCounts
waiting_counts = record create_empty_queue_counts { total = pos 1; pending = pos 1 }

abbrev tasks : OrderedMap ExecutionTask
tasks = ("a", waiting) ∷ []

abbrev any_task : EngineConfig
any_task = record { strategies = (λ t. true) ∷ []; dry_run = false }

abbrev fresh : Pool (node.Text)
fresh = record {
  run = one_run waiting waiting_counts;
  in_flight = [];
  result = record {
    total_tasks = 1;
    completed_tasks = 0;
    failed_tasks = 0;
    permanently_failed_tasks = 0;
    skipped_tasks = 0;
  };
  stopped = false;
  control = at_top;
}

first_round : Steps node any_task 2 fresh (begin_round 2 tasks fresh)
unfolding get_v2_index_cache
first_round = next none_yet (advances (starts_round tasks refl (λ running room. refl)))

Steps-IsBounded_example : IsBounded 2 (begin_round 2 tasks fresh)
Steps-IsBounded_example =
    Steps-IsBounded node any_task 2 fresh (begin_round 2 tasks fresh) (omega arith) refl refl
      first_round
