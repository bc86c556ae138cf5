-- ===== src/Planner/Graph/Tests.antt =====
-- A plan of four requirements, one of each kind and one that asks for another.
use codemachine_pipeline.Prelude.{
  ◌+◌, ◌≤◌, ◌≡◌, ◌↔◌, refl, arith, String, true, ◌&&◌, ◌||◌, Option, none, some, List, [], ◌∷◌,
  length, All, contains,
}
use codemachine_pipeline.Prelude.OrderedMap
use codemachine_pipeline.Planner.{TaskNode, TopologicalOrder, compute_topological_order, enough}
use codemachine_pipeline.Planner.Order.{needs, HasUniqueIds}
use codemachine_pipeline.Planner.Order.Depth.{depth_of, level}
use codemachine_pipeline.Planner.Order.Loop.{
  IsTopological, compute_topological_order-IsTopological, compute_topological_order-depths,
}
use codemachine_pipeline.Planner.Dag.{
  task_ids, DagError, cycle_found, validate_dag, duplicates, duplicate_errors, unknown_errors,
  unknown_in, check_tasks, has_cycle, check_dependencies,
}
use codemachine_pipeline.Planner.Dag.Valid.{
  IsWellFounded, validate_dag_iff, compute_topological_order-validate_dag,
}
use codemachine_pipeline.Planner.Graph.{
  SpecRequirement, RequirementTaskMap, depends_on_itself, build_dependency_graph,
  apply_requirements, apply_requirement, task_of_requirement, require_all, require, indexed_needs,
  push_dependency, depend_on, add_missing,
}
use codemachine_pipeline.Planner.Graph.Edges.{has_edge, is_known}
use codemachine_pipeline.Planner.Graph.Effect.{asks}
use codemachine_pipeline.Planner.Graph.Exact.{drawn, has_edge-build_dependency_graph}
use codemachine_pipeline.Planner.Graph.Closed.{HasNoEdges}
use codemachine_pipeline.Planner.Graph.Ranks.{validate_dag-build_dependency_graph}

abbrev node : String → String → Option String → TaskNode
node id type test = record { task_id = id; task_type = type; test_type = test; dependencies = [] }

abbrev nodes : List TaskNode
nodes =
    node "T-3" "testing" (some "e2e")
    ∷ node "T-2" "testing" (some "integration")
    ∷ node "T-1" "testing" (some "unit")
    ∷ node "C-1" "code_generation" none
    ∷ node "C-2" "code_generation" none
    ∷ []

abbrev requirement : String → List String → SpecRequirement
requirement id depends_on = record { requirement_id = id; depends_on = some depends_on }

abbrev chained : List SpecRequirement
chained = requirement "r1" ("r2" ∷ "r1" ∷ []) ∷ requirement "r2" [] ∷ []

abbrev free : List SpecRequirement
free = requirement "r1" [] ∷ requirement "r2" [] ∷ []

abbrev stands_for : RequirementTaskMap
stands_for = ("r1", "C-1") ∷ ("r2", "C-2") ∷ []

nodes-HasUniqueIds : HasUniqueIds nodes
nodes-HasUniqueIds = (refl, (refl, (refl, (refl, (refl, tt)))))

nodes-HasNoEdges : HasNoEdges nodes
nodes-HasNoEdges x d = ground arith

has_edge-build_dependency_graph_example :
    has_edge "C-1" "C-2" (build_dependency_graph nodes chained stands_for).tasks ≡ (
      has_edge "C-1" "C-2" nodes
      || (is_known "C-1" nodes && asks stands_for chained "C-1" "C-2")
      || drawn "C-1" "C-2" nodes)
has_edge-build_dependency_graph_example =
    has_edge-build_dependency_graph nodes chained stands_for nodes-HasUniqueIds "C-1" "C-2"

abbrev built : List TaskNode
built = (build_dependency_graph nodes free stands_for).tasks

built-length : length built + 1 ≤ 6
unfolding build_dependency_graph apply_requirements apply_requirement task_of_requirement
    require_all indexed_needs depend_on add_missing OrderedMap.get
built-length = omega arith

validate_dag-build_dependency_graph_example : validate_dag 6 built ≡ some []
validate_dag-build_dependency_graph_example =
    validate_dag-build_dependency_graph nodes free stands_for 6 nodes-HasUniqueIds nodes-HasNoEdges
      (refl, (refl, tt)) built-length

abbrev edges_to : String → List String → TaskNode
edges_to id deps = record {
  task_id = id;
  task_type = "testing";
  test_type = none;
  dependencies = deps;
}

-- What the requirement r1 asks for, and the blocker for the one that it cannot have.
chained-graph :
    build_dependency_graph (node "C-1" "" none ∷ node "C-2" "" none ∷ []) chained stands_for
    ≡ record {
      tasks =
          (record { task_id = "C-1"; task_type = ""; test_type = none; dependencies = "C-2" ∷ [] })
          ∷ node "C-2" "" none
          ∷ [];
      blockers =
          (record { task_id = "C-1"; reason = depends_on_itself; missing_dependencies = "r1" ∷ [] })
          ∷ [];
    }
unfolding build_dependency_graph apply_requirements apply_requirement task_of_requirement
    require_all require indexed_needs push_dependency depend_on add_missing OrderedMap.get
chained-graph = refl

abbrev chain : List TaskNode
chain = edges_to "b" ("a" ∷ []) ∷ edges_to "a" [] ∷ []

chain-HasUniqueIds : HasUniqueIds chain
chain-HasUniqueIds = (refl, (refl, tt))

chain-valid : validate_dag 3 chain ≡ some []
unfolding validate_dag duplicates duplicate_errors unknown_errors unknown_in check_tasks has_cycle
    check_dependencies
chain-valid = refl

abbrev loop : List TaskNode
loop = edges_to "b" ("a" ∷ []) ∷ edges_to "a" ("b" ∷ []) ∷ []

loop-invalid : validate_dag 3 loop ≡ some (cycle_found "a" ∷ cycle_found "b" ∷ [])
unfolding validate_dag duplicates duplicate_errors unknown_errors unknown_in check_tasks has_cycle
    check_dependencies
loop-invalid = refl

compute_topological_order-IsTopological_example :
    (r : TopologicalOrder) × (compute_topological_order 3 chain ≡ some r)
    × IsTopological chain r.order
unfolding enough
compute_topological_order-IsTopological_example =
    compute_topological_order-IsTopological chain 3 chain-HasUniqueIds (omega arith)

compute_topological_order-depths_example :
    (r : TopologicalOrder) × (compute_topological_order 3 chain ≡ some r)
    × ((id : String) (ds : List String)
        → needs id chain ≡ some ds
        → depth_of r.depths id ≡ level r.order r.depths ds)
unfolding enough
compute_topological_order-depths_example =
    compute_topological_order-depths chain 3 chain-HasUniqueIds (omega arith)

validate_dag_iff_example :
    (errors : List DagError) × (validate_dag 3 loop ≡ some errors)
    × ((errors ≡ []) ↔ IsWellFounded loop)
validate_dag_iff_example = validate_dag_iff loop 3 (omega arith)

compute_topological_order-validate_dag_example :
    (r : TopologicalOrder) × (compute_topological_order 3 chain ≡ some r)
    × All (λ id. contains r.order id ≡ true) (task_ids chain)
unfolding enough
compute_topological_order-validate_dag_example =
    compute_topological_order-validate_dag chain 3 3 (omega arith) (omega arith) chain-valid
