-- ===== src/Engine/Tests.antt =====
-- Queues of four tasks and of one, and the theorems of the execution engine at it.
use codemachine_pipeline.Prelude.{◌≡◌, [], ◌∷◌, ◌++◌, take}
use codemachine_pipeline.Prelude.OrderedMap
use codemachine_pipeline.Prelude.OrderedMap.{OrderedMap, values}
use codemachine_pipeline.Queue.Types.{ExecutionTask, pending, running, completed}
use codemachine_pipeline.Prelude.{true, false, arith, refl, List, none}
use codemachine_pipeline.Prelude.Int.{pos}
use codemachine_pipeline.Queue.Types.{QueueCounts, create_empty_queue_counts}
use codemachine_pipeline.Queue.Store.Durable.{Holds}
use codemachine_pipeline.Engine.Task.{Execution, returned, threw, captured, EngineConfig, run_task}
use codemachine_pipeline.Engine.Task.Effect.{Settled, run_task-Settled}
use codemachine_pipeline.Engine.Task.Bound.{IsOver, attempts, attempts-IsOver}
use codemachine_pipeline.Queue.Tests.Memory.{node, one_run, one_run-IsSynced}
use codemachine_pipeline.Prelude.{head?}
use codemachine_pipeline.Queue.Types.{QueueIndexState}
use codemachine_pipeline.Queue.Choice.{next_task}
use codemachine_pipeline.Engine.Agree.{IsKeyed, next_task-get_ready_tasks}
use codemachine_pipeline.Queue.Tests.{task}
use codemachine_pipeline.Engine.Ready.{get_ready_tasks}
use codemachine_pipeline.Engine.Ready.Order.{
  running_ones, pending_ones, retryable_ones, get_ready_tasks-eq-filters,
}

abbrev tasks : OrderedMap ExecutionTask
tasks =
    ("a", task "a" completed [])
    ∷ ("b", task "b" pending ("a" ∷ []))
    ∷ ("c", task "c" pending ("b" ∷ []))
    ∷ ("d", task "d" running [])
    ∷ []

get_ready_tasks-eq-filters_example :
    get_ready_tasks tasks [] 2
    ≡ take 2 (
        running_ones tasks [] (values tasks)
        ++ (pending_ones tasks [] (values tasks) ++ retryable_ones tasks [] (values tasks)))
get_ready_tasks-eq-filters_example = get_ready_tasks-eq-filters tasks [] 2

abbrev waiting : ExecutionTask
waiting = task "a" pending []

abbrev waiting_counts : QueueCounts
waiting_counts = record create_empty_queue_counts { total = pos 1; pending = pos 1 }

waiting-Holds : Holds node (one_run waiting waiting_counts) "a" waiting
unfolding OrderedMap.get
waiting-Holds = record { synced = one_run-IsSynced waiting waiting_counts; held = refl }

abbrev any_task : EngineConfig
any_task = record { strategies = (λ t. true) ∷ []; dry_run = false }

abbrev failing : Execution
failing =
    returned (record { success = false; summary = ""; error_message = none; recoverable = true })
      (captured [])

run_task-Settled_example :
    Settled node waiting
      (run_task node any_task (one_run waiting waiting_counts) waiting failing "start" "finish")
run_task-Settled_example =
    run_task-Settled node any_task (one_run waiting waiting_counts) waiting failing "start" "finish"
      waiting-Holds

abbrev four : List Execution
four = failing ∷ threw "lost" ∷ failing ∷ failing ∷ []

attempts-IsOver_example :
    IsOver node any_task "start" "finish" "a"
      (attempts node any_task "start" "finish" "a" (one_run waiting waiting_counts) four)
attempts-IsOver_example =
    attempts-IsOver node any_task "start" "finish" (one_run waiting waiting_counts) waiting four
      waiting-Holds (omega arith) (omega arith)

abbrev at_rest : QueueIndexState
at_rest = record {
  tasks = tasks;
  counts = create_empty_queue_counts;
  last_seq = 9;
  snapshot_seq = 0;
  dirty = true;
}

tasks-IsKeyed : IsKeyed tasks
unfolding OrderedMap.get
tasks-IsKeyed = (refl, refl, (refl, refl, (refl, refl, (refl, refl, tt))))

next_task-get_ready_tasks_example : next_task at_rest ≡ head? (get_ready_tasks tasks [] 1)
next_task-get_ready_tasks_example = next_task-get_ready_tasks at_rest tasks-IsKeyed
