-- ===== src/Planner/Order/Loop.antt =====
-- The loop of the topological order, and what holds of the order that it returns.
use codemachine_pipeline.Prelude.{
  ℕ, zero, suc, ◌<◌, ◌≤◌, ◌≡◌, refl, sym, ap, ◌∙◌, String, true, some, List, [], ◌∷◌, All, All-map,
  subst, contains, arith, inl, inr,
}
use codemachine_pipeline.Prelude.OrderedMap
use codemachine_pipeline.Prelude.OrderedMap.{OrderedMap, get-set, values}
use codemachine_pipeline.Planner.{
  TaskNode, Traversal, reverse_adjacency, first_depths, first_traversal, take_first, traverse,
  max_depth, TopologicalOrder, compute_topological_order, enough,
}
use codemachine_pipeline.Planner.Termination.{
  queue-cases, traverse-done, traverse-next, traverse-stuck, traverse-ends, rounds-first_traversal,
}
use codemachine_pipeline.Planner.Order.{
  needs, HasUniqueIds, OrderedFrom, occurrences, contains-occurrences, met-missing, missing-nil,
  get-first_degrees, occurrences-reverse_adjacency, occurrences-entry_tasks,
}
use codemachine_pipeline.Planner.Order.Sound.{Inv, Waits, take_first-Inv, take_first-OrderedFrom}
use codemachine_pipeline.Planner.Order.Depth.{Levels, take_first-Levels, level, depth_of}

-- What is left when the loop ends.
record Ended (tasks : List TaskNode) (s : Traversal) : Type 0 where
  inv : Inv tasks [] s
  ordered : OrderedFrom tasks [] s.order
  levels : (d : ℕ) × Levels tasks d [] s

traverse-Ended :
    (tasks : List TaskNode) (adj : OrderedMap (List String))
    → Waits tasks adj
    → (fuel : ℕ) (s t : Traversal) → Ended tasks s
    → traverse adj fuel s ≡ some t
    → Ended tasks t × (t.queue ≡ [])
traverse-Ended tasks adj waits zero s t h e = elim (queue-cases s.queue) [
  | inl done ↦
      let same : s ≡ t = cc (traverse-done adj zero s done, e) in
      (subst (Ended tasks) same h, subst (λ u. u.queue ≡ []) same done)
  | inr (current, rest, busy) ↦ absurd (cc (traverse-stuck adj s current rest busy, e))
]
traverse-Ended tasks adj waits (suc fuel) s t h e = elim (queue-cases s.queue) [
  | inl done ↦
      let same : s ≡ t = cc (traverse-done adj (suc fuel) s done, e) in
      (subst (Ended tasks) same h, subst (λ u. u.queue ≡ []) same done)
  | inr (current, rest, busy) ↦
      traverse-Ended tasks adj waits fuel (take_first adj current rest s) t
        (record {
          inv = take_first-Inv tasks adj waits current rest s h.inv busy;
          ordered = take_first-OrderedFrom tasks adj waits current rest s h.inv busy h.ordered;
          levels = (
            depth_of s.depths current,
            take_first-Levels tasks adj waits current rest s h.inv busy h.levels.0 h.levels.1,
          );
        })
        (sym (traverse-next adj fuel s current rest busy) ∙ e)
]

reverse_adjacency-Waits :
    (tasks : List TaskNode) → HasUniqueIds tasks → Waits tasks (reverse_adjacency tasks [])
unfolding OrderedMap.get
reverse_adjacency-Waits tasks unique x d =
    omega (arith, occurrences-reverse_adjacency x d tasks unique [])

first_traversal-Inv :
    (tasks : List TaskNode) → HasUniqueIds tasks → Inv tasks [] (first_traversal tasks)
unfolding first_traversal OrderedMap.get
first_traversal-Inv tasks unique = record {
  unknown = λ id e. ground (arith, occurrences-entry_tasks id tasks unique, e);
  degree = λ id ds e. ground (arith, get-first_degrees id tasks unique [], missing-nil ds, e);
  once = λ id ds e. ground (arith, occurrences-entry_tasks id tasks unique, missing-nil ds, e);
}

depth_of-first_depths :
    (id : String) (tasks : List TaskNode) (depths : OrderedMap ℕ)
    → depth_of depths id ≡ 0
    → depth_of (first_depths tasks depths) id ≡ 0
unfolding first_depths
depth_of-first_depths id [] depths h = h
depth_of-first_depths id (t ∷ ts) depths h =
    depth_of-first_depths id ts (OrderedMap.set t.task_id 0 depths)
      (ground (arith, h, get-set t.task_id id 0 depths))

level-nil : (depths : OrderedMap ℕ) (ds : List String) → level [] depths ds ≡ 0
level-nil depths [] = refl
level-nil depths (d ∷ ds) = omega (arith, level-nil depths ds)

first_traversal-Levels : (tasks : List TaskNode) → Levels tasks 0 [] (first_traversal tasks)
unfolding first_traversal OrderedMap.get
first_traversal-Levels tasks = record {
  depth = λ id ds e.
      omega (arith, depth_of-first_depths id tasks [] refl, level-nil (first_depths tasks []) ds);
}

first_traversal-Ended :
    (tasks : List TaskNode) → HasUniqueIds tasks → Ended tasks (first_traversal tasks)
unfolding first_traversal
first_traversal-Ended tasks unique = record {
  inv = first_traversal-Inv tasks unique;
  ordered = tt;
  levels = (0, first_traversal-Levels tasks);
}

abbrev order_of : Traversal → TopologicalOrder
order_of t = record { order = t.order; depths = t.depths; max_depth = max_depth (values t.depths) }

compute_topological_order-Ended :
    (tasks : List TaskNode) (fuel : ℕ)
    → HasUniqueIds tasks
    → enough tasks ≤ fuel
    → (t : Traversal) × (compute_topological_order fuel tasks ≡ some (order_of t))
      × Ended tasks t
      × (t.queue ≡ [])
unfolding compute_topological_order
compute_topological_order-Ended tasks fuel unique h =
    let adj = reverse_adjacency tasks [] in
    let (t, returns, _) =
      traverse-ends adj fuel (first_traversal tasks)
        (omega (arith, h, rounds-first_traversal tasks)) in
    let (outcome, done) =
      traverse-Ended tasks adj (reverse_adjacency-Waits tasks unique) fuel (first_traversal tasks) t
        (first_traversal-Ended tasks unique) returns in
    (t, rw (compute_topological_order, returns) refl, outcome, done)

-- Each id of the order is a task, stands there once and after all of its dependencies; and a task is in the
-- order if its dependencies are.
pub record IsTopological (tasks : List TaskNode) (order : List String) : Type 0 where
  pub ordered : OrderedFrom tasks [] order
  pub complete :
      (id : String) (ds : List String)
      → needs id tasks ≡ some ds
      → All (λ d. contains order d ≡ true) ds
      → contains order id ≡ true

Ended-IsTopological :
    (tasks : List TaskNode) (s : Traversal)
    → Ended tasks s
    → s.queue ≡ []
    → IsTopological tasks s.order
Ended-IsTopological tasks s h done = record {
  ordered = h.ordered;
  complete = λ id ds e met. ground (
    arith,
    contains-occurrences id s.order,
    h.inv.once id ds e,
    met-missing s.order ds met,
    ap (occurrences id) done,
  );
}

-- For tasks with distinct ids, whatever they depend on, the order is returned in as many rounds as there are
-- tasks and dependencies: each of its ids is a task that stands there once, after all of its dependencies, and
-- a task is left out only if one of its dependencies is.
pub compute_topological_order-IsTopological :
    (tasks : List TaskNode) (fuel : ℕ)
    → HasUniqueIds tasks
    → enough tasks ≤ fuel
    → (r : TopologicalOrder) × (compute_topological_order fuel tasks ≡ some r)
      × IsTopological tasks r.order
compute_topological_order-IsTopological tasks fuel unique h =
    let (t, returns, outcome, done) = compute_topological_order-Ended tasks fuel unique h in
    (order_of t, returns, Ended-IsTopological tasks t outcome done)

-- For tasks with distinct ids, whatever they depend on, the depth of each task is one more than the greatest
-- depth of its dependencies that are in the order, and 0 if there is none.
pub compute_topological_order-depths :
    (tasks : List TaskNode) (fuel : ℕ)
    → HasUniqueIds tasks
    → enough tasks ≤ fuel
    → (r : TopologicalOrder) × (compute_topological_order fuel tasks ≡ some r)
      × ((id : String) (ds : List String)
          → needs id tasks ≡ some ds
          → depth_of r.depths id ≡ level r.order r.depths ds)
compute_topological_order-depths tasks fuel unique h =
    let (t, returns, outcome, done) = compute_topological_order-Ended tasks fuel unique h in
    (order_of t, returns, λ id ds e. omega (arith, outcome.levels.1.depth id ds e))

-- Each dependency is a task of lower rank, so no tasks wait for each other.
abbrev pub IsAcyclic : (String → ℕ) → List TaskNode → Type 0
IsAcyclic rank tasks =
    (id : String) (ds : List String)
    → needs id tasks ≡ some ds
    → All (λ d. (rank d < rank id) × ((es : List String) × (needs d tasks ≡ some es))) ds

ranked_in_order :
    (rank : String → ℕ) (tasks : List TaskNode) (order : List String)
    → IsAcyclic rank tasks
    → IsTopological tasks order
    → (n : ℕ) (id : String) (ds : List String) → needs id tasks ≡ some ds
    → rank id < n
    → contains order id ≡ true
ranked_in_order rank tasks order acyclic top zero id ds e h = absurd (omega (arith, h))
ranked_in_order rank tasks order acyclic top (suc n) id ds e h = top.complete id ds e (
    All-map (λ d. (rank d < rank id) × ((es : List String) × (needs d tasks ≡ some es)))
      (λ d. contains order d ≡ true)
      (λ d (lower, (es, listed)).
        ranked_in_order rank tasks order acyclic top n d es listed (omega (arith, lower, h)))
      ds (acyclic id ds e))

-- No task of an acyclic plan is left out of the order, when the loop has enough rounds.
pub compute_topological_order-IsAcyclic :
    (rank : String → ℕ) (tasks : List TaskNode) (fuel : ℕ)
    → HasUniqueIds tasks
    → IsAcyclic rank tasks
    → enough tasks ≤ fuel
    → (r : TopologicalOrder) × (compute_topological_order fuel tasks ≡ some r)
      × ((id : String) (ds : List String) → needs id tasks ≡ some ds → contains r.order id ≡ true)
compute_topological_order-IsAcyclic rank tasks fuel unique acyclic h =
    let (r, returns, top) = compute_topological_order-IsTopological tasks fuel unique h in
    (
      r,
      returns,
      λ id ds e.
          ranked_in_order rank tasks r.order acyclic top (suc (rank id)) id ds e (omega arith),
    )
