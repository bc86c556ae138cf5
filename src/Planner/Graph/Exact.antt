-- ===== src/Planner/Graph/Exact.antt =====
-- The edges of a built dependency graph.
use codemachine_pipeline.Prelude.{
  ◌≡◌, ap, String, Bool, ◌&&◌, ◌||◌, List, [], filter, contains, arith, str_eq,
}
use codemachine_pipeline.Planner.{TaskNode}
use codemachine_pipeline.Planner.Order.{HasUniqueIds}
use codemachine_pipeline.Planner.Dag.{task_ids}
use codemachine_pipeline.Planner.Graph.{
  SpecRequirement, RequirementTaskMap, Graph, apply_requirements, is_testing, is_code, is_test_of,
  depend_on, build_dependency_graph,
}
use codemachine_pipeline.Planner.Graph.Edges.{
  task_is, has_edge, is_known, SameTasks, SameTasks-trans, filter-same, task_is-same, IsTypeTest,
}
use codemachine_pipeline.Planner.Graph.Effect.{
  asks, apply_requirements-same, edge-apply_requirements,
}
use codemachine_pipeline.Planner.Graph.Types.{depend_on-same, edge-depend_on}

is_testing-type : IsTypeTest is_testing
is_testing-type t u type test = ap (λ k. str_eq k "testing") type

is_code-type : IsTypeTest is_code
is_code-type t u type test = ap (λ k. str_eq k "code_generation") type

is_test_of-type : (kind : String) → IsTypeTest (is_test_of kind)
is_test_of-type kind t u type test = cc (type, test)

-- `x` passes one test, and `d` is the id of a task that passes the other.
abbrev pub pairs : (TaskNode → Bool) → (TaskNode → Bool) → String → String → List TaskNode → Bool
pairs p q x d tasks = task_is p x tasks && contains (task_ids (filter q tasks)) d

pairs-same :
    (p q : TaskNode → Bool)
    → IsTypeTest p
    → IsTypeTest q
    → (x d : String) {ts us : List TaskNode} → SameTasks ts us
    → pairs p q x d us ≡ pairs p q x d ts
pairs-same p q hp hq x d same = cc (task_is-same p hp x same, filter-same q hq same)

-- The edges that are drawn whatever the requirements say.
abbrev pub drawn : String → String → List TaskNode → Bool
drawn x d tasks =
    pairs is_testing is_code x d tasks
    || pairs (is_test_of "integration") (is_test_of "unit") x d tasks
    || pairs (is_test_of "e2e") (is_test_of "integration") x d tasks

module _ (tasks : List TaskNode) (reqs : List SpecRequirement) (m : RequirementTaskMap) where
  abbrev asked : Graph
  asked = apply_requirements m reqs (record { tasks = tasks; blockers = [] })

  abbrev tested : List TaskNode
  tested = depend_on is_testing is_code asked.tasks

  abbrev integrated : List TaskNode
  integrated = depend_on (is_test_of "integration") (is_test_of "unit") tested

  asked-same : SameTasks tasks asked.tasks
  asked-same = apply_requirements-same m reqs (record { tasks = tasks; blockers = [] })

  tested-same : SameTasks tasks tested
  tested-same = SameTasks-trans asked-same (depend_on-same is_testing is_code asked.tasks)

  integrated-same : SameTasks tasks integrated
  integrated-same =
      SameTasks-trans tested-same
        (depend_on-same (is_test_of "integration") (is_test_of "unit") tested)

  pub build_dependency_graph-SameTasks : SameTasks tasks (build_dependency_graph tasks reqs m).tasks
  unfolding build_dependency_graph
  build_dependency_graph-SameTasks =
      SameTasks-trans integrated-same
        (depend_on-same (is_test_of "e2e") (is_test_of "integration") integrated)

-- For tasks with distinct ids: after buildDependencyGraph a task depends on exactly those it depended on
-- before, those that its requirements ask for, and, by its type, a test on all code generation tasks, an
-- integration test on all unit tests and an end-to-end test on all integration tests.
pub has_edge-build_dependency_graph :
    (tasks : List TaskNode) (reqs : List SpecRequirement) (m : RequirementTaskMap)
    → HasUniqueIds tasks
    → (x d : String)
    → has_edge x d (build_dependency_graph tasks reqs m).tasks
      ≡ (has_edge x d tasks || (is_known x tasks && asks m reqs x d) || drawn x d tasks)
unfolding build_dependency_graph
has_edge-build_dependency_graph tasks reqs m unique x d =
    let integration = is_test_of-type "integration" in
    ground (
      arith,
      edge-depend_on (is_test_of "e2e") (is_test_of "integration") x d (integrated tasks reqs m),
      pairs-same (is_test_of "e2e") (is_test_of "integration") (is_test_of-type "e2e") integration x
          d (integrated-same tasks reqs m),
      edge-depend_on (is_test_of "integration") (is_test_of "unit") x d (tested tasks reqs m),
      pairs-same (is_test_of "integration") (is_test_of "unit") integration (is_test_of-type "unit")
          x d (tested-same tasks reqs m),
      edge-depend_on is_testing is_code x d (asked tasks reqs m).tasks,
      pairs-same is_testing is_code is_testing-type is_code-type x d (asked-same tasks reqs m),
      edge-apply_requirements m x d reqs (record { tasks = tasks; blockers = [] }) unique,
    )
