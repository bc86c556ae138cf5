-- ===== src/Queue/Choice.antt =====
-- Which task comes next: getNextTask of src/workflows/queue/queueTaskManager.ts, and buildDependencyGraph of
-- queueCache.ts.
use codemachine_pipeline.Prelude.{
  Bool, ◌&&◌, Option, none, some, [], ◌∷◌, length, filter, head?, if◌then◌else◌, ltb,
}
use codemachine_pipeline.Prelude.OrderedMap.{OrderedMap, values}
use codemachine_pipeline.Queue.Types.{
  running, status_eq, ExecutionTask, can_retry, QueueIndexState, DependencyGraph,
}
use codemachine_pipeline.Queue.Index.{get_ready_tasks, are_dependencies_completed}

-- an entry for each task that has dependencies
unfoldable pub graph_of : OrderedMap ExecutionTask → DependencyGraph
graph_of [] = []
graph_of ((key, task) ∷ tasks) =
    let rest = graph_of tasks in
    if ltb 0 (length task.dependency_ids) then (key, task.dependency_ids) ∷ rest else rest

unfoldable pub build_dependency_graph : QueueIndexState → DependencyGraph
unfolding graph_of
build_dependency_graph s = graph_of s.tasks

-- the test of the loops over running tasks and over failed ones
unfoldable pub is_resumable : QueueIndexState → DependencyGraph → ExecutionTask → Bool
unfolding are_dependencies_completed status_eq
is_resumable s graph t = status_eq t.status running && are_dependencies_completed s t.task_id graph

unfoldable pub is_retryable : QueueIndexState → DependencyGraph → ExecutionTask → Bool
unfolding are_dependencies_completed can_retry
is_retryable s graph t = can_retry t && are_dependencies_completed s t.task_id graph

-- `getNextTask`: each loop returns at its first fit. The set `seen` stays empty.
unfoldable pub next_task : QueueIndexState → Option ExecutionTask
unfolding build_dependency_graph is_resumable get_ready_tasks is_retryable
next_task s =
    let graph = build_dependency_graph s in
    elim (head? (filter (is_resumable s graph) (values s.tasks))) [
      | some task ↦ some task
      | none ↦ elim (head? (get_ready_tasks s graph)) [
        | some task ↦ some task
        | none ↦ head? (filter (is_retryable s graph) (values s.tasks))
      ]
    ]
