-- ===== src/Planner/Graph/Types.antt =====
-- Which dependencies the steps of buildDependencyGraph add that go by the types of the tasks.
use codemachine_pipeline.Prelude.{
  ◌≡◌, refl, ap, String, Bool, ◌&&◌, ◌||◌, List, [], ◌∷◌, if◌then◌else◌, map, filter, contains,
  arith, Bool-cases, inl, inr, str_eq, eq_iff,
}
use codemachine_pipeline.Planner.{TaskNode}
use codemachine_pipeline.Planner.Order.{contains-push}
use codemachine_pipeline.Planner.Dag.{task_ids}
use codemachine_pipeline.Planner.Graph.{with_dependency, add_missing, depend_on}
use codemachine_pipeline.Planner.Graph.Edges.{task_is, has_edge, SameTasks, nil, cons}

-- `add_missing` changes the dependencies only, and adds what is not among them.
record Adds (ids : List String) (t u : TaskNode) : Type 0 where
  id : t.task_id ≡ u.task_id
  type : t.task_type ≡ u.task_type
  test : t.test_type ≡ u.test_type
  edges : (d : String) → contains u.dependencies d ≡ (contains t.dependencies d || contains ids d)

add_missing-Adds : (ids : List String) (t : TaskNode) → Adds ids t (add_missing ids t)
unfolding add_missing
add_missing-Adds [] t = record { id = refl; type = refl; test = refl; edges = λ d. ground arith }
add_missing-Adds (e ∷ ids) t = elim (Bool-cases (contains t.dependencies e)) [
  | inl there ↦
      let h = add_missing-Adds ids t in
      rw there (record {
        id = h.id;
        type = h.type;
        test = h.test;
        edges = λ d. ground (arith, h.edges d, eq_iff e d, there);
      })
  | inr new ↦
      let h = add_missing-Adds ids (with_dependency e t) in
      rw new (record {
        id = h.id;
        type = h.type;
        test = h.test;
        edges = λ d. ground (arith, h.edges d, contains-push t.dependencies e d);
      })
]

module _ (dependent : TaskNode → Bool) (ids : List String) where
  abbrev extend : TaskNode → TaskNode
  extend t = if dependent t then add_missing ids t else t

  extend-same : (ts : List TaskNode) → SameTasks ts (map extend ts)
  extend-same [] = nil
  extend-same (t ∷ ts) =
      let h = add_missing-Adds ids t in
      elim (Bool-cases (dependent t)) [
        | inl chosen ↦ rw chosen (cons h.id h.type h.test (extend-same ts))
        | inr left ↦ rw left (cons refl refl refl (extend-same ts))
      ]

  edge-extend :
      (x d : String) (ts : List TaskNode)
      → has_edge x d (map extend ts)
        ≡ (has_edge x d ts || (task_is dependent x ts && contains ids d))
  edge-extend x d [] = refl
  edge-extend x d (t ∷ ts) =
      let h = add_missing-Adds ids t in
      elim (Bool-cases (dependent t)) [
        | inl chosen ↦
            rw chosen
              (ground (arith, chosen, ap (λ i. str_eq i x) h.id, h.edges d, edge-extend x d ts))
        | inr left ↦ rw left (ground (arith, left, edge-extend x d ts))
      ]

pub depend_on-same :
    (dependent needed : TaskNode → Bool) (ts : List TaskNode)
    → SameTasks ts (depend_on dependent needed ts)
unfolding depend_on
depend_on-same dependent needed ts = extend-same dependent (task_ids (filter needed ts)) ts

pub edge-depend_on :
    (dependent needed : TaskNode → Bool) (x d : String) (ts : List TaskNode)
    → has_edge x d (depend_on dependent needed ts)
      ≡ (has_edge x d ts || (task_is dependent x ts && contains (task_ids (filter needed ts)) d))
unfolding depend_on
edge-depend_on dependent needed x d ts = edge-extend dependent (task_ids (filter needed ts)) x d ts
