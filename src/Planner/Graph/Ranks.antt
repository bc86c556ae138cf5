-- ===== src/Planner/Graph/Ranks.antt =====
-- Plans without a cycle: where no requirement depends on another, the tasks stand in layers.
use codemachine_pipeline.Prelude.{
  ℕ, ◌+◌, ◌<◌, ◌≤◌, ◌≡◌, refl, sym, ap, ◌∙◌, String, Bool, true, false, some, List, [], ◌∷◌,
  if◌then◌else◌, length, filter, All, contains, arith, Option-cases, inl, inr, str_eq, eq_iff,
}
use codemachine_pipeline.Queue.Types.{or_else}
use codemachine_pipeline.Planner.{TaskNode}
use codemachine_pipeline.Planner.Order.{needs, HasUniqueIds}
use codemachine_pipeline.Planner.Order.Loop.{IsAcyclic}
use codemachine_pipeline.Planner.Dag.{task_ids, validate_dag}
use codemachine_pipeline.Planner.Dag.Checks.{contains-needs}
use codemachine_pipeline.Planner.Dag.Valid.{validate_dag_iff, IsWellFounded}
use codemachine_pipeline.Planner.Graph.{
  SpecRequirement, RequirementTaskMap, is_testing, is_code, is_test_of, build_dependency_graph,
  task_of_requirement,
}
use codemachine_pipeline.Planner.Graph.Edges.{
  task_is, has_edge, task_ids-same, SameTasks-HasUniqueIds, unknown_of_needs,
}
use codemachine_pipeline.Planner.Graph.Effect.{asks}
use codemachine_pipeline.Planner.Graph.Exact.{
  pairs, drawn, build_dependency_graph-SameTasks, has_edge-build_dependency_graph,
}
use codemachine_pipeline.Planner.Graph.Closed.{
  needs-edge, All-of-contains, known_of_filter, drawn-known, HasNoEdges,
}

-- code generation before tests, and these by kind
abbrev layer : TaskNode → ℕ
layer t =
    if is_test_of "e2e" t
    then 3
    else if is_test_of "integration" t
    then 2
    else if is_testing t
    then 1
    else 0

abbrev layer_of : List TaskNode → String → ℕ
layer_of [] x = 0
layer_of (t ∷ ts) x = if str_eq t.task_id x then layer t else layer_of ts x

task_is-layer :
    (p : TaskNode → Bool) (n : ℕ)
    → ((t : TaskNode) → p t ≡ true → n ≤ layer t)
    → (x : String) (tasks : List TaskNode) → task_is p x tasks ≡ true
    → n ≤ layer_of tasks x
task_is-layer p n low x [] h = cc
task_is-layer p n low x (t ∷ ts) h = ground (arith, low t, task_is-layer p n low x ts, h)

filter-layer :
    (p : TaskNode → Bool) (n : ℕ)
    → ((t : TaskNode) → p t ≡ true → layer t ≤ n)
    → (d : String) (tasks : List TaskNode) → HasUniqueIds tasks
    → contains (task_ids (filter p tasks)) d ≡ true
    → layer_of tasks d ≤ n
filter-layer p n high d [] unique h = cc
filter-layer p n high d (t ∷ ts) unique h =
    let absent = unknown_of_needs t.task_id ts unique.0 in
    ground (
      arith,
      high t,
      filter-layer p n high d ts unique.1,
      h,
      known_of_filter p d ts,
      absent,
      eq_iff t.task_id d,
    )

kind_e2e : (t : TaskNode) → is_test_of "e2e" t ≡ true → 3 ≤ layer t
kind_e2e t h = rw h (omega arith)

kind_of :
    (t : TaskNode) (a b : String)
    → is_test_of a t ≡ true
    → str_eq a b ≡ false
    → is_test_of b t ≡ false
kind_of t a b h other =
    ground (arith, h, other, eq_iff (or_else t.test_type "") a, eq_iff (or_else t.test_type "") b)

kind_integration : (t : TaskNode) → is_test_of "integration" t ≡ true → layer t ≡ 2
kind_integration t h = rw (kind_of t "integration" "e2e" h refl, h) (omega arith)

kind_unit : (t : TaskNode) → is_test_of "unit" t ≡ true → layer t ≡ 1
kind_unit t h =
    let testing : is_testing t ≡ true = ground (arith, h) in
    rw (kind_of t "unit" "e2e" h refl, kind_of t "unit" "integration" h refl, testing) (omega arith)

kind_testing : (t : TaskNode) → is_testing t ≡ true → 1 ≤ layer t
kind_testing t h = ground (arith, h)

kind_code : (t : TaskNode) → is_code t ≡ true → layer t ≡ 0
kind_code t h =
    let testing : is_testing t ≡ false =
      ap (λ k. str_eq k "testing") ((eq_iff t.task_type "code_generation").0 h) in
    ground (arith, testing)

pairs-layer :
    (p q : TaskNode → Bool) (n : ℕ)
    → ((t : TaskNode) → p t ≡ true → n + 1 ≤ layer t)
    → ((t : TaskNode) → q t ≡ true → layer t ≤ n)
    → (tasks : List TaskNode) → HasUniqueIds tasks
    → (x d : String) → pairs p q x d tasks ≡ true
    → layer_of tasks d < layer_of tasks x
pairs-layer p q n low high tasks unique x d h =
    let one : task_is p x tasks ≡ true = ground (arith, h) in
    let two : contains (task_ids (filter q tasks)) d ≡ true = ground (arith, h) in
    omega (arith, task_is-layer p (n + 1) low x tasks one, filter-layer q n high d tasks unique two)

drawn-layer :
    (tasks : List TaskNode)
    → HasUniqueIds tasks
    → (x d : String) → drawn x d tasks ≡ true
    → layer_of tasks d < layer_of tasks x
drawn-layer tasks unique x d h = ground (
  arith,
  h,
  pairs-layer is_testing is_code 0 kind_testing (λ t k. omega (arith, kind_code t k)) tasks unique x
      d,
  pairs-layer (is_test_of "integration") (is_test_of "unit") 1
      (λ t k. omega (arith, kind_integration t k)) (λ t k. omega (arith, kind_unit t k)) tasks
      unique x d,
  pairs-layer (is_test_of "e2e") (is_test_of "integration") 2 kind_e2e
      (λ t k. omega (arith, kind_integration t k)) tasks unique x d,
)

-- No requirement depends on another.
abbrev pub IsIndependent : List SpecRequirement → Type 0
IsIndependent reqs = All (λ req. or_else req.depends_on [] ≡ []) reqs

asks_of_IsIndependent :
    (m : RequirementTaskMap) (reqs : List SpecRequirement)
    → IsIndependent reqs
    → (x d : String) → asks m reqs x d ≡ false
asks_of_IsIndependent m [] free x d = refl
asks_of_IsIndependent m (req ∷ reqs) free x d = elim (Option-cases (task_of_requirement m req)) [
  | inl none_such ↦ rw (asks, none_such) (asks_of_IsIndependent m reqs free.1 x d)
  | inr (id, found) ↦
      rw (asks, found) (ground (arith, free.0, asks_of_IsIndependent m reqs free.1 x d))
]

-- Where the ids are distinct, the tasks have no dependencies yet and no requirement depends on another, the
-- plan that buildDependencyGraph leaves is found valid, when the validation may recurse as deep as there are
-- tasks and one level more.
pub validate_dag-build_dependency_graph :
    (tasks : List TaskNode) (reqs : List SpecRequirement) (m : RequirementTaskMap) (fuel : ℕ)
    → HasUniqueIds tasks
    → HasNoEdges tasks
    → IsIndependent reqs
    → length (build_dependency_graph tasks reqs m).tasks + 1 ≤ fuel
    → validate_dag fuel (build_dependency_graph tasks reqs m).tasks ≡ some []
validate_dag-build_dependency_graph tasks reqs m fuel unique bare free h =
    let built = (build_dependency_graph tasks reqs m).tasks in
    let same = build_dependency_graph-SameTasks tasks reqs m in
    let (errors, returns, iff) = validate_dag_iff built fuel h in
    let edges : (x d : String) → has_edge x d built ≡ true → drawn x d tasks ≡ true = λ x d there.
      ground (
        arith,
        has_edge-build_dependency_graph tasks reqs m unique x d,
        bare x d,
        asks_of_IsIndependent m reqs free x d,
        there,
      ) in
    let acyclic : IsAcyclic (layer_of tasks) built = λ x ds e.
      All-of-contains
        (λ d.
          (layer_of tasks d < layer_of tasks x) × ((es : List String) × (needs d built ≡ some es)))
        ds
        λ d there.
          let edge = edges x d (needs-edge x d built ds e ∙ there) in
          (
            drawn-layer tasks unique x d edge,
            contains-needs d built (
                ap (λ ids. contains ids d) (sym (task_ids-same same)) ∙ drawn-known x d tasks edge),
          ) in
    let well : IsWellFounded built =
      (SameTasks-HasUniqueIds same unique, (layer_of tasks, acyclic)) in
    cc (returns, iff.1 well)
