-- ===== src/Planner/Graph/Closed.antt =====
-- The dependencies of a built graph are tasks of the plan.
use codemachine_pipeline.Prelude.{
  ◌≡◌, refl, ap, String, Bool, true, false, some, List, [], ◌∷◌, filter, any, All, contains, arith,
  Option-cases, inl, inr, eq_iff,
}
use codemachine_pipeline.Prelude.OrderedMap
use codemachine_pipeline.Queue.Types.{or_else}
use codemachine_pipeline.Planner.{TaskNode}
use codemachine_pipeline.Planner.Order.{needs, HasUniqueIds}
use codemachine_pipeline.Planner.Dag.{task_ids}
use codemachine_pipeline.Planner.Dag.Checks.{contains-needs}
use codemachine_pipeline.Planner.Dag.Sound.{IsClosed}
use codemachine_pipeline.Planner.Graph.{
  SpecRequirement, RequirementTaskMap, is_code, is_test_of, build_dependency_graph,
  task_of_requirement,
}
use codemachine_pipeline.Planner.Graph.Edges.{has_edge, is_known, task_ids-same}
use codemachine_pipeline.Planner.Graph.Effect.{names, asks}
use codemachine_pipeline.Planner.Graph.Exact.{
  drawn, build_dependency_graph-SameTasks, has_edge-build_dependency_graph,
}

pub needs-edge :
    (x d : String) (tasks : List TaskNode) (ds : List String)
    → needs x tasks ≡ some ds
    → has_edge x d tasks ≡ contains ds d
needs-edge x d [] ds e = cc
needs-edge x d (t ∷ ts) ds e = ground (arith, needs-edge x d ts ds, e)

pub All-of-contains :
    (P : String → Type 0) (ds : List String)
    → ((d : String) → contains ds d ≡ true → P d)
    → All P ds
All-of-contains P [] h = tt
All-of-contains P (d ∷ ds) h = (
  h d (ground (arith, (eq_iff d d).1 refl)),
  All-of-contains P ds (λ e there. h e (ground (arith, there))),
)

pub known_of_filter :
    (p : TaskNode → Bool) (d : String) (tasks : List TaskNode)
    → contains (task_ids (filter p tasks)) d ≡ true
    → is_known d tasks ≡ true
known_of_filter p d [] h = cc
known_of_filter p d (t ∷ ts) h = ground (arith, known_of_filter p d ts)

pub drawn-known :
    (x d : String) (tasks : List TaskNode) → drawn x d tasks ≡ true → is_known d tasks ≡ true
drawn-known x d tasks h = ground (
  arith,
  h,
  known_of_filter is_code d tasks,
  known_of_filter (is_test_of "unit") d tasks,
  known_of_filter (is_test_of "integration") d tasks,
)

-- The requirements stand for tasks of the plan.
abbrev pub MapsToTasks : RequirementTaskMap → List TaskNode → Type 0
MapsToTasks m tasks =
    (requirement d : String) → OrderedMap.get requirement m ≡ some d → is_known d tasks ≡ true

names-known :
    (m : RequirementTaskMap) (tasks : List TaskNode)
    → MapsToTasks m tasks
    → (id requirement d : String) → names m id requirement d ≡ true
    → is_known d tasks ≡ true
names-known m tasks maps id requirement d h = elim (Option-cases (OrderedMap.get requirement m)) [
  | inl none_such ↦ absurd (cc (rw (names, none_such) at h))
  | inr (e, found) ↦ ground (arith, rw (names, found) at h, maps requirement e found, eq_iff e d)
]

any-names-known :
    (m : RequirementTaskMap) (tasks : List TaskNode)
    → MapsToTasks m tasks
    → (id d : String) (rs : List String) → any (λ r. names m id r d) rs ≡ true
    → is_known d tasks ≡ true
any-names-known m tasks maps id d [] h = cc
any-names-known m tasks maps id d (r ∷ rs) h =
    ground (arith, h, names-known m tasks maps id r d, any-names-known m tasks maps id d rs)

asks-known :
    (m : RequirementTaskMap) (tasks : List TaskNode)
    → MapsToTasks m tasks
    → (reqs : List SpecRequirement) (x d : String) → asks m reqs x d ≡ true
    → is_known d tasks ≡ true
asks-known m tasks maps [] x d h = cc
asks-known m tasks maps (req ∷ reqs) x d h = elim (Option-cases (task_of_requirement m req)) [
  | inl none_such ↦ asks-known m tasks maps reqs x d (rw none_such at h)
  | inr (id, found) ↦ ground (
    arith,
    rw found at h,
    any-names-known m tasks maps id d (or_else req.depends_on []),
    asks-known m tasks maps reqs x d,
  )
]

-- where the tasks have no dependencies yet
abbrev pub HasNoEdges : List TaskNode → Type 0
HasNoEdges tasks = (x d : String) → has_edge x d tasks ≡ false

-- Where the ids are distinct, the tasks have no dependencies yet and the requirements stand for tasks of the
-- plan, each dependency that buildDependencyGraph adds is a task of the plan.
pub build_dependency_graph-IsClosed :
    (tasks : List TaskNode) (reqs : List SpecRequirement) (m : RequirementTaskMap)
    → HasUniqueIds tasks
    → HasNoEdges tasks
    → MapsToTasks m tasks
    → IsClosed (build_dependency_graph tasks reqs m).tasks
build_dependency_graph-IsClosed tasks reqs m unique bare maps x ds e =
    let built = (build_dependency_graph tasks reqs m).tasks in
    All-of-contains (λ d. (es : List String) × (needs d built ≡ some es)) ds
      λ d there. contains-needs d built (
        ground (
          arith,
          needs-edge x d built ds e,
          there,
          has_edge-build_dependency_graph tasks reqs m unique x d,
          bare x d,
          asks-known m tasks maps reqs x d,
          drawn-known x d tasks,
          ap (λ ids. contains ids d)
              (task_ids-same (build_dependency_graph-SameTasks tasks reqs m)),
        ))
