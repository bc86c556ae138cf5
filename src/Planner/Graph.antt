-- ===== src/Planner/Graph.antt =====
-- buildDependencyGraph and the summaries of src/workflows/taskPlannerGraph.ts, and the blockers of
-- src/workflows/plannerDAG.ts. The calls change the tasks in place: here they return the tasks.
pub mod Types
pub mod Edges
pub mod Effect
pub mod Exact
pub mod Closed
pub mod Ranks
mod Tests
use codemachine_pipeline.Prelude.{
  ℕ, zero, suc, ◌+◌, max, String, Bool, true, false, not, ◌&&◌, Option, none, some, List, [], ◌∷◌,
  ◌++◌, ◌==◌, if◌then◌else◌, length, map, filter, contains, nonempty, str_eq,
}
use codemachine_pipeline.Prelude.OrderedMap
use codemachine_pipeline.Prelude.OrderedMap.{OrderedMap, values}
use codemachine_pipeline.Queue.Types.{or_else}
use codemachine_pipeline.Planner.{TaskNode, entry_tasks}
use codemachine_pipeline.Planner.Dag.{task_ids}

-- The description, the test type and the priority of a requirement do not matter here.
pub record SpecRequirement : Type 0 where
  pub requirement_id : String
  pub depends_on : Option (List String)

abbrev pub RequirementTaskMap : Type 0
RequirementTaskMap = OrderedMap String

pub data BlockerReason : Type 0 where
  missing_requirement depends_on_itself missing_dependencies_of_task waiting_for_completion :
      BlockerReason

pub record PlanBlocker : Type 0 where
  pub task_id : String
  pub reason : BlockerReason
  pub missing_dependencies : List String

-- the dependencies of the task that the index holds for an id, the last one with that id
unfoldable pub indexed_needs : String → List TaskNode → Option (List String)
indexed_needs id [] = none
indexed_needs id (t ∷ ts) = elim (indexed_needs id ts) [
  | some ds ↦ some ds
  | none ↦ if str_eq t.task_id id then some t.dependencies else none
]

abbrev pub with_dependency : String → TaskNode → TaskNode
with_dependency d t = record t { dependencies = t.dependencies ++ d ∷ [] }

-- `task.dependencies.push(...)` for that task
unfoldable pub push_dependency : String → String → List TaskNode → List TaskNode
push_dependency id d [] = []
push_dependency id d (t ∷ ts) =
    if contains (task_ids ts) id
    then t ∷ push_dependency id d ts
    else if str_eq t.task_id id
    then with_dependency d t ∷ ts
    else t ∷ ts

pub record Graph : Type 0 where
  pub tasks : List TaskNode
  pub blockers : List PlanBlocker

abbrev pub block : String → BlockerReason → String → Graph → Graph
block id reason requirement g = record g {
  blockers =
      g.blockers
      ++ (record { task_id = id; reason = reason; missing_dependencies = requirement ∷ [] }) ∷ [];
}

module _ (requirement_task_map : RequirementTaskMap) where
  -- the body of the loop over `req.dependsOn`
  unfoldable pub require : String → String → Graph → Graph
  unfolding indexed_needs push_dependency
  require id requirement g = elim (nonempty (OrderedMap.get requirement requirement_task_map)) [
    | none ↦ block id missing_requirement requirement g
    | some d ↦
        if str_eq d id
        then block id depends_on_itself requirement g
        else if contains (or_else (indexed_needs id g.tasks) []) d
        then g
        else record g { tasks = push_dependency id d g.tasks }
  ]

  unfoldable pub require_all : String → List String → Graph → Graph
  unfolding require
  require_all id [] g = g
  require_all id (requirement ∷ requirements) g =
      require_all id requirements (require id requirement g)

  -- `req.requirementId ? requirementTaskMap.get(req.requirementId) : undefined`
  unfoldable pub task_of_requirement : SpecRequirement → Option String
  task_of_requirement req =
      if str_eq req.requirement_id ""
      then none
      else nonempty (OrderedMap.get req.requirement_id requirement_task_map)

  -- the body of the loop over the requirements
  unfoldable pub apply_requirement : SpecRequirement → Graph → Graph
  unfolding require_all task_of_requirement indexed_needs
  apply_requirement req g = elim (task_of_requirement req) [
    | none ↦ g
    | some id ↦ elim (indexed_needs id g.tasks) [
      | none ↦ g
      | some _ ↦ require_all id (or_else req.depends_on []) g
    ]
  ]

  unfoldable pub apply_requirements : List SpecRequirement → Graph → Graph
  unfolding apply_requirement
  apply_requirements [] g = g
  apply_requirements (req ∷ reqs) g = apply_requirements reqs (apply_requirement req g)

-- Each id is pushed that is not among the dependencies yet.
unfoldable pub add_missing : List String → TaskNode → TaskNode
add_missing [] t = t
add_missing (id ∷ ids) t =
    if contains t.dependencies id then add_missing ids t else add_missing ids (with_dependency id t)

abbrev pub is_testing : TaskNode → Bool
is_testing t = str_eq t.task_type "testing"

abbrev pub is_code : TaskNode → Bool
is_code t = str_eq t.task_type "code_generation"

-- a testing task with `config?.test_type === type`
abbrev pub is_test_of : String → TaskNode → Bool
is_test_of type t = is_testing t && str_eq (or_else t.test_type "") type

-- the tasks that `dependent` selects depend on those that `needed` selects
unfoldable pub depend_on : (TaskNode → Bool) → (TaskNode → Bool) → List TaskNode → List TaskNode
unfolding add_missing
depend_on dependent needed tasks =
    let ids = task_ids (filter needed tasks) in
    map (λ t. if dependent t then add_missing ids t else t) tasks

unfoldable pub build_dependency_graph :
    List TaskNode → List SpecRequirement → RequirementTaskMap → Graph
unfolding apply_requirements depend_on
build_dependency_graph tasks requirements requirement_task_map =
    let g =
      apply_requirements requirement_task_map requirements
        (record { tasks = tasks; blockers = [] }) in
    record g {
      tasks = depend_on (is_test_of "e2e") (is_test_of "integration") (
          depend_on (is_test_of "integration") (is_test_of "unit")
            (depend_on is_testing is_code g.tasks));
    }

-- collectMissingDepBlockers
unfoldable pub collect_missing : List String → List TaskNode → List PlanBlocker
collect_missing ids [] = []
collect_missing ids (t ∷ ts) =
    let missing = filter (λ d. not (contains ids d)) t.dependencies in
    let rest = collect_missing ids ts in
    elim missing [
      | [] ↦ rest
      | d ∷ ds ↦
          (record {
            task_id = t.task_id;
            reason = missing_dependencies_of_task;
            missing_dependencies = d ∷ ds;
          })
          ∷ rest
    ]

unfoldable pub collect_missing_dep_blockers : List TaskNode → List PlanBlocker → List PlanBlocker
unfolding collect_missing
collect_missing_dep_blockers tasks blockers = blockers ++ collect_missing (task_ids tasks) tasks

-- `new Map<number, number>`: how many tasks stand at a depth
unfoldable pub count_depth : ℕ → List (ℕ × ℕ) → List (ℕ × ℕ)
count_depth d [] = (d, 1) ∷ []
count_depth d ((e, n) ∷ groups) =
    if e == d then (e, n + 1) ∷ groups else (e, n) ∷ count_depth d groups

unfoldable pub group_depths : List ℕ → List (ℕ × ℕ) → List (ℕ × ℕ)
unfolding count_depth
group_depths [] groups = groups
group_depths (d ∷ ds) groups = group_depths ds (count_depth d groups)

unfoldable pub largest_group : List (ℕ × ℕ) → ℕ
largest_group [] = 0
largest_group ((d, n) ∷ groups) = max n (largest_group groups)

unfoldable pub calculate_parallel_paths : OrderedMap ℕ → ℕ
unfolding group_depths largest_group
calculate_parallel_paths depths = largest_group (group_depths (values depths) [])

unfoldable pub build_task_type_breakdown : List TaskNode → OrderedMap ℕ → OrderedMap ℕ
build_task_type_breakdown [] acc = acc
build_task_type_breakdown (t ∷ ts) acc =
    build_task_type_breakdown ts
      (OrderedMap.set t.task_type (or_else (OrderedMap.get t.task_type acc) 0 + 1) acc)

-- what createPlanSummary derives from the tasks
pub record PlanSummary : Type 0 where
  pub total_tasks : ℕ
  pub entries : List String
  pub blocked : List (String × List String)
  pub blockers : List PlanBlocker
  pub task_type_breakdown : OrderedMap ℕ

abbrev blocked_details : List TaskNode → List (String × List String)
blocked_details [] = []
blocked_details (t ∷ ts) = elim t.dependencies [
  | [] ↦ blocked_details ts
  | d ∷ ds ↦ (t.task_id, d ∷ ds) ∷ blocked_details ts
]

abbrev default_blockers : List (String × List String) → List PlanBlocker
default_blockers [] = []
default_blockers ((id, waiting_on) ∷ details) =
    (record { task_id = id; reason = waiting_for_completion; missing_dependencies = waiting_on })
    ∷ default_blockers details

-- createPlanSummary, where the blockers are those of the diagnostics
unfoldable pub create_plan_summary : List TaskNode → List PlanBlocker → PlanSummary
unfolding entry_tasks build_task_type_breakdown
create_plan_summary tasks diagnostics = record {
  total_tasks = length tasks;
  entries = entry_tasks tasks;
  blocked = blocked_details tasks;
  blockers = elim diagnostics [ [] ↦ default_blockers (blocked_details tasks) | b ∷ bs ↦ b ∷ bs ];
  task_type_breakdown = build_task_type_breakdown tasks [];
}
