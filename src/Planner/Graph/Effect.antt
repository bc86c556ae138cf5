-- ===== src/Planner/Graph/Effect.antt =====
-- Which dependencies the requirements' step of buildDependencyGraph adds.
use codemachine_pipeline.Prelude.{
  ◌≡◌, refl, ap, String, Bool, false, not, ◌&&◌, ◌||◌, none, some, List, [], ◌∷◌, any, contains,
  nonempty, arith, Bool-cases, Option-cases, inl, inr, str_eq, eq_iff,
}
use codemachine_pipeline.Prelude.OrderedMap
use codemachine_pipeline.Queue.Types.{or_else}
use codemachine_pipeline.Planner.{TaskNode}
use codemachine_pipeline.Planner.Order.{HasUniqueIds}
use codemachine_pipeline.Planner.Graph.{
  SpecRequirement, RequirementTaskMap, Graph, indexed_needs, require, require_all,
  task_of_requirement, apply_requirement, apply_requirements,
}
use codemachine_pipeline.Planner.Graph.Edges.{
  has_edge, is_known, SameTasks, SameTasks-refl, SameTasks-trans, task_ids-same,
  SameTasks-HasUniqueIds, indexed_needs-edge, push_dependency-same, edge-push_dependency,
}

-- the tasks that the dependencies of a requirement stand for, but the task itself
abbrev pub names : RequirementTaskMap → String → String → String → Bool
names m id requirement d = elim (nonempty (OrderedMap.get requirement m)) [
  | none ↦ false
  | some e ↦ str_eq e d && not (str_eq e id)
]

-- Some requirement of the task `x` depends on a requirement that stands for `d`.
abbrev pub asks : RequirementTaskMap → List SpecRequirement → String → String → Bool
asks m [] x d = false
asks m (req ∷ reqs) x d =
    elim (task_of_requirement m req) [
      | none ↦ false
      | some id ↦ str_eq id x && any (λ r. names m id r d) (or_else req.depends_on [])
    ]
    || asks m reqs x d

unknown_of_indexed :
    (id : String) (ts : List TaskNode) → indexed_needs id ts ≡ none → is_known id ts ≡ false
unfolding indexed_needs
unknown_of_indexed id [] h = refl
unknown_of_indexed id (t ∷ ts) h = ground (arith, unknown_of_indexed id ts, h)

module _ (m : RequirementTaskMap) where
  require-same : (id r : String) (g : Graph) → SameTasks g.tasks (require m id r g).tasks
  unfolding require
  require-same id r g = elim (Option-cases (nonempty (OrderedMap.get r m))) [
    | inl none_such ↦ rw (require, none_such) (SameTasks-refl g.tasks)
    | inr (e, found) ↦ elim (Bool-cases (str_eq e id)) [
      | inl self ↦ rw (require, found, self) (SameTasks-refl g.tasks)
      | inr other ↦ elim (Bool-cases (contains (or_else (indexed_needs id g.tasks) []) e)) [
        | inl there ↦ rw (require, found, other, there) (SameTasks-refl g.tasks)
        | inr new ↦ rw (require, found, other, new) (push_dependency-same id e g.tasks)
      ]
    ]
  ]

  edge-require :
      (x d id r : String) (g : Graph)
      → HasUniqueIds g.tasks
      → has_edge x d (require m id r g).tasks
        ≡ (has_edge x d g.tasks || (is_known x g.tasks && str_eq id x && names m id r d))
  unfolding require OrderedMap.get
  edge-require x d id r g unique = elim (Option-cases (nonempty (OrderedMap.get r m))) [
    | inl none_such ↦ rw (require, none_such) (ground arith)
    | inr (e, found) ↦ elim (Bool-cases (str_eq e id)) [
      | inl self ↦ rw (require, found, self) (ground arith)
      | inr other ↦ elim (Bool-cases (contains (or_else (indexed_needs id g.tasks) []) e)) [
        | inl there ↦
            rw (require, found, other, there)
              (ground
                (arith, there, indexed_needs-edge id e g.tasks unique, eq_iff id x, eq_iff e d))
        | inr new ↦
            rw (require, found, other, new)
              (ground (arith, edge-push_dependency x d id e g.tasks unique))
      ]
    ]
  ]

  require_all-same :
      (id : String) (rs : List String) (g : Graph) → SameTasks g.tasks (require_all m id rs g).tasks
  unfolding require_all
  require_all-same id [] g = SameTasks-refl g.tasks
  require_all-same id (r ∷ rs) g =
      SameTasks-trans (require-same id r g) (require_all-same id rs (require m id r g))

  edge-require_all :
      (x d id : String) (rs : List String) (g : Graph)
      → HasUniqueIds g.tasks
      → has_edge x d (require_all m id rs g).tasks ≡ (
          has_edge x d g.tasks
          || (is_known x g.tasks && str_eq id x && any (λ r. names m id r d) rs))
  unfolding require_all
  edge-require_all x d id [] g unique = ground arith
  edge-require_all x d id (r ∷ rs) g unique =
      let same = require-same id r g in
      ground (
        arith,
        edge-require_all x d id rs (require m id r g) (SameTasks-HasUniqueIds same unique),
        edge-require x d id r g unique,
        ap (λ ids. contains ids x) (task_ids-same same),
      )

  apply_requirement-same :
      (req : SpecRequirement) (g : Graph) → SameTasks g.tasks (apply_requirement m req g).tasks
  unfolding apply_requirement
  apply_requirement-same req g = elim (Option-cases (task_of_requirement m req)) [
    | inl none_such ↦ rw (apply_requirement, none_such) (SameTasks-refl g.tasks)
    | inr (id, found) ↦ elim (Option-cases (indexed_needs id g.tasks)) [
      | inl absent ↦ rw (apply_requirement, found, absent) (SameTasks-refl g.tasks)
      | inr (ds, there) ↦
          rw (apply_requirement, found, there) (require_all-same id (or_else req.depends_on []) g)
    ]
  ]

  -- what one requirement asks for
  abbrev asks_one : SpecRequirement → String → String → Bool
  asks_one req x d = elim (task_of_requirement m req) [
    | none ↦ false
    | some id ↦ str_eq id x && any (λ r. names m id r d) (or_else req.depends_on [])
  ]

  edge-apply_requirement :
      (x d : String) (req : SpecRequirement) (g : Graph)
      → HasUniqueIds g.tasks
      → has_edge x d (apply_requirement m req g).tasks
        ≡ (has_edge x d g.tasks || (is_known x g.tasks && asks_one req x d))
  unfolding apply_requirement
  edge-apply_requirement x d req g unique = elim (Option-cases (task_of_requirement m req)) [
    | inl none_such ↦ rw (apply_requirement, none_such) (ground arith)
    | inr (id, found) ↦ elim (Option-cases (indexed_needs id g.tasks)) [
      | inl absent ↦
          rw (apply_requirement, found, absent)
            (ground (arith, unknown_of_indexed id g.tasks absent, eq_iff id x))
      | inr (ds, there) ↦
          rw (apply_requirement, found, there)
            (ground (arith, found, edge-require_all x d id (or_else req.depends_on []) g unique))
    ]
  ]

  pub apply_requirements-same :
      (reqs : List SpecRequirement) (g : Graph)
      → SameTasks g.tasks (apply_requirements m reqs g).tasks
  unfolding apply_requirements
  apply_requirements-same [] g = SameTasks-refl g.tasks
  apply_requirements-same (req ∷ reqs) g =
      SameTasks-trans (apply_requirement-same req g)
        (apply_requirements-same reqs (apply_requirement m req g))

  pub edge-apply_requirements :
      (x d : String) (reqs : List SpecRequirement) (g : Graph)
      → HasUniqueIds g.tasks
      → has_edge x d (apply_requirements m reqs g).tasks
        ≡ (has_edge x d g.tasks || (is_known x g.tasks && asks m reqs x d))
  unfolding apply_requirements
  edge-apply_requirements x d [] g unique = ground arith
  edge-apply_requirements x d (req ∷ reqs) g unique =
      let same = apply_requirement-same req g in
      ground (
        arith,
        edge-apply_requirements x d reqs (apply_requirement m req g)
            (SameTasks-HasUniqueIds same unique),
        edge-apply_requirement x d req g unique,
        ap (λ ids. contains ids x) (task_ids-same same),
      )
