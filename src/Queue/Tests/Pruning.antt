-- ===== src/Queue/Tests/Pruning.antt =====
-- Pruning a queue with a completed task, a task that waits for it, and one that nothing needs.
use codemachine_pipeline.Prelude.{◌≡◌, refl, true, [], ◌∷◌}
use codemachine_pipeline.Prelude.OrderedMap
use codemachine_pipeline.Prelude.Int.{pos}
use codemachine_pipeline.Queue.Types.{
  completed, pending, QueueIndexState, create_empty_queue_counts, DependencyGraph,
}
use codemachine_pipeline.Queue.Index.{are_dependencies_completed}
use codemachine_pipeline.Queue.Compaction.{is_active, is_terminal, prune_completed_tasks}
use codemachine_pipeline.Queue.Compaction.Readiness.{are_dependencies_completed-prune}
use codemachine_pipeline.Queue.Tests.{task}

abbrev chain : QueueIndexState
chain = record {
  tasks =
      ("a", task "a" completed [])
      ∷ ("b", task "b" pending ("a" ∷ []))
      ∷ ("c", task "c" completed [])
      ∷ [];
  counts = record create_empty_queue_counts { total = pos 3; pending = pos 1; completed = pos 2 };
  last_seq = 5;
  snapshot_seq = 0;
  dirty = true;
}

abbrev chain_graph : DependencyGraph
chain_graph = ("b", "a" ∷ []) ∷ []

b_active : is_active chain "b" ≡ true
unfolding is_active is_terminal OrderedMap.get
b_active = refl

are_dependencies_completed-prune_example :
    are_dependencies_completed (prune_completed_tasks chain chain_graph).0 "b" chain_graph
    ≡ are_dependencies_completed chain "b" chain_graph
are_dependencies_completed-prune_example =
    are_dependencies_completed-prune chain chain_graph "b" b_active
