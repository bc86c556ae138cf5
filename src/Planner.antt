-- ===== src/Planner.antt =====
-- computeTopologicalOrder of src/workflows/taskPlannerGraph.ts. Of a task its id, its
-- type, the test type of its configuration and the ids of its dependencies are kept. The `while` loop is
-- recursion on fuel; none is a loop that goes on.
pub mod Termination
pub mod Order
pub mod Dag
pub mod Graph
mod Tests
use codemachine_pipeline.Prelude.{
  ℕ, zero, suc, ◌+◌, String, Bool, true, false, Option, none, some, List, [], ◌∷◌, ◌++◌, leb,
  if◌then◌else◌, length, max,
}
use codemachine_pipeline.Prelude.Int.{ℤ, pos, dec, int_eq}
use codemachine_pipeline.Prelude.OrderedMap
use codemachine_pipeline.Prelude.OrderedMap.{OrderedMap, values}
use codemachine_pipeline.Queue.Types.{or_else}

pub record TaskNode : Type 0 where
  pub task_id : String
  pub task_type : String
  -- `config?.test_type`
  pub test_type : Option String
  pub dependencies : List String

-- what the loop changes
pub record Traversal : Type 0 where
  pub in_degree : OrderedMap ℤ
  pub depths : OrderedMap ℕ
  pub queue : List String
  pub order : List String

-- `reverseAdj.get(dep)?.push(id)` for each dependency, after an empty list is set where there is none
unfoldable pub add_reverse :
    String → List String → OrderedMap (List String) → OrderedMap (List String)
add_reverse id [] adj = adj
add_reverse id (dep ∷ deps) adj =
    add_reverse id deps (OrderedMap.set dep (or_else (OrderedMap.get dep adj) [] ++ id ∷ []) adj)

unfoldable pub reverse_adjacency :
    List TaskNode → OrderedMap (List String) → OrderedMap (List String)
unfolding add_reverse
reverse_adjacency [] adj = adj
reverse_adjacency (t ∷ ts) adj = reverse_adjacency ts (add_reverse t.task_id t.dependencies adj)

unfoldable pub first_degrees : List TaskNode → OrderedMap ℤ → OrderedMap ℤ
first_degrees [] degrees = degrees
first_degrees (t ∷ ts) degrees =
    first_degrees ts (OrderedMap.set t.task_id (pos (length t.dependencies)) degrees)

unfoldable pub first_depths : List TaskNode → OrderedMap ℕ → OrderedMap ℕ
first_depths [] depths = depths
first_depths (t ∷ ts) depths = first_depths ts (OrderedMap.set t.task_id 0 depths)

-- the tasks without dependencies
unfoldable pub entry_tasks : List TaskNode → List String
entry_tasks [] = []
entry_tasks (t ∷ ts) = elim t.dependencies [
  | [] ↦ t.task_id ∷ entry_tasks ts
  | _ ∷ _ ↦ entry_tasks ts
]

unfoldable pub first_traversal : List TaskNode → Traversal
unfolding first_degrees first_depths entry_tasks
first_traversal tasks = record {
  in_degree = first_degrees tasks [];
  depths = first_depths tasks [];
  queue = entry_tasks tasks;
  order = [];
}

-- the body of the inner loop: one task that waits for the current one
unfoldable pub unlock : ℕ → String → Traversal → Traversal
unlock current_depth id s =
    let remaining = dec (or_else (OrderedMap.get id s.in_degree) (pos 0)) in
    record s {
      in_degree = OrderedMap.set id remaining s.in_degree;
      depths =
          OrderedMap.set id (max (or_else (OrderedMap.get id s.depths) 0) (current_depth + 1))
            s.depths;
      queue = if int_eq remaining (pos 0) then s.queue ++ id ∷ [] else s.queue;
    }

unfoldable pub unlock_all : ℕ → List String → Traversal → Traversal
unfolding unlock
unlock_all current_depth [] s = s
unlock_all current_depth (id ∷ ids) s = unlock_all current_depth ids (unlock current_depth id s)

-- the body of the loop, for the task that is shifted from the queue
unfoldable pub take_first : OrderedMap (List String) → String → List String → Traversal → Traversal
unfolding unlock_all
take_first adj current rest s =
    unlock_all (or_else (OrderedMap.get current s.depths) 0)
      (or_else (OrderedMap.get current adj) [])
      (record s { queue = rest; order = s.order ++ current ∷ [] })

unfoldable pub traverse : OrderedMap (List String) → ℕ → Traversal → Option Traversal
unfolding take_first
traverse adj zero s = elim s.queue [ [] ↦ some s | current ∷ rest ↦ none ]
traverse adj (suc fuel) s = elim s.queue [
  | [] ↦ some s
  | current ∷ rest ↦ traverse adj fuel (take_first adj current rest s)
]

unfoldable pub max_depth : List ℕ → ℕ
max_depth [] = 0
max_depth (d ∷ ds) = max d (max_depth ds)

pub record TopologicalOrder : Type 0 where
  pub order : List String
  pub depths : OrderedMap ℕ
  pub max_depth : ℕ

unfoldable pub compute_topological_order : ℕ → List TaskNode → Option TopologicalOrder
unfolding reverse_adjacency first_traversal traverse max_depth
compute_topological_order fuel tasks =
    elim (traverse (reverse_adjacency tasks []) fuel (first_traversal tasks)) [
      | none ↦ none
      | some s ↦
          some
            (record { order = s.order; depths = s.depths; max_depth = max_depth (values s.depths) })
    ]

-- as many rounds as there are tasks and dependencies
unfoldable pub enough : List TaskNode → ℕ
enough [] = 0
enough (t ∷ ts) = 1 + length t.dependencies + enough ts
