-- ===== src/Planner/Tests.antt =====
-- A plan of four tasks, and two that wait for each other.
use codemachine_pipeline.Prelude.{◌≡◌, refl, String, none, some, List, [], ◌∷◌}
use codemachine_pipeline.Prelude.Int.{dec, int_eq}
use codemachine_pipeline.Prelude.OrderedMap
use codemachine_pipeline.Planner.{
  TaskNode, compute_topological_order, reverse_adjacency, add_reverse, first_degrees, first_depths,
  entry_tasks, first_traversal, unlock, unlock_all, take_first, traverse, max_depth,
}

abbrev code_task : String → List String → TaskNode
code_task id dependencies = record {
  task_id = id;
  task_type = "code_generation";
  test_type = none;
  dependencies = dependencies;
}

abbrev plan : List TaskNode
plan =
    code_task "d" ("b" ∷ "c" ∷ [])
    ∷ code_task "b" ("a" ∷ [])
    ∷ code_task "c" ("a" ∷ [])
    ∷ code_task "a" []
    ∷ code_task "x" ("y" ∷ [])
    ∷ code_task "y" ("x" ∷ [])
    ∷ []

-- The two tasks that wait for each other are left out.
plan-order :
    compute_topological_order 12 plan
    ≡ some (record {
      order = "a" ∷ "b" ∷ "c" ∷ "d" ∷ [];
      depths = ("d", 2) ∷ ("b", 1) ∷ ("c", 1) ∷ ("a", 0) ∷ ("x", 0) ∷ ("y", 0) ∷ [];
      max_depth = 2;
    })
unfolding compute_topological_order reverse_adjacency add_reverse first_degrees first_depths
    entry_tasks first_traversal unlock unlock_all take_first traverse max_depth dec int_eq
    OrderedMap.get OrderedMap.set
plan-order = refl
