-- ===== src/Engine/Agree.antt =====
-- The queue's `getNextTask` against the engine's `getReadyTasks`: two selections of a task.
use codemachine_pipeline.Prelude.{
  ◌≡◌, refl, sym, ap, subst, ◌∙◌, String, Bool, false, ◌&&◌, Option, none, some, List, [], ◌∷◌,
  ◌++◌, arith, Bool-cases, Option-cases, inl, inr, str_eq, eq_iff, length, ltb, filter, head?, take,
  All,
}
use codemachine_pipeline.Prelude.OrderedMap
use codemachine_pipeline.Prelude.OrderedMap.{OrderedMap, values}
use codemachine_pipeline.Queue.Types.{
  ExecutionTask, QueueIndexState, DependencyGraph, or_else, status_eq, running, pending, can_retry,
}
use codemachine_pipeline.Queue.Index.{all_completed, are_dependencies_completed, is_ready}
use codemachine_pipeline.Queue.Index
use codemachine_pipeline.Queue.Choice.{
  graph_of, build_dependency_graph, is_resumable, is_retryable, next_task,
}
use codemachine_pipeline.Engine.Ready
use codemachine_pipeline.Engine.Ready.Order.{is_available, get_ready_tasks-eq-filters}

-- Each task is held under its own id, and once.
abbrev pub IsKeyed : OrderedMap ExecutionTask → Type 0
IsKeyed [] = Unit
IsKeyed ((key, t) ∷ ts) = (t.task_id ≡ key) × (OrderedMap.get key ts ≡ none) × IsKeyed ts

get-graph_of_absent :
    (ts : OrderedMap ExecutionTask) (key : String)
    → OrderedMap.get key ts ≡ none
    → OrderedMap.get key (graph_of ts) ≡ none
unfolding graph_of OrderedMap.get
get-graph_of_absent [] key h = refl
get-graph_of_absent ((k, t) ∷ ts) key h = elim (Bool-cases (str_eq k key)) [
  | inl e ↦ ground (arith, e, h)
  | inr e ↦ ground (arith, e, get-graph_of_absent ts key (ground (arith, e, h)))
]

nil_of_length : (ids : List String) → ltb 0 (length ids) ≡ false → ids ≡ []
nil_of_length [] h = refl
nil_of_length (id ∷ ids) h = ground arith

get-graph_of_first :
    (k : String) (u : ExecutionTask) (ts : OrderedMap ExecutionTask)
    → OrderedMap.get k ts ≡ none
    → or_else (OrderedMap.get k (graph_of ((k, u) ∷ ts))) [] ≡ u.dependency_ids
unfolding graph_of OrderedMap.get
get-graph_of_first k u ts h = elim (Bool-cases (ltb 0 (length u.dependency_ids))) [
  | inl p ↦ ground (arith, p, eq_iff k k)
  | inr p ↦ ground (arith, p, get-graph_of_absent ts k h, nil_of_length u.dependency_ids p)
]

-- What the graph says of a task is its list of dependencies.
get-graph_of :
    (ts : OrderedMap ExecutionTask) (key : String) (t : ExecutionTask)
    → IsKeyed ts
    → OrderedMap.get key ts ≡ some t
    → or_else (OrderedMap.get key (graph_of ts)) [] ≡ t.dependency_ids
unfolding graph_of OrderedMap.get
get-graph_of [] key t keyed h = cc
get-graph_of ((k, u) ∷ ts) key t keyed h = elim (Bool-cases (str_eq k key)) [
  | inl e ↦
      subst (λ j. or_else (OrderedMap.get j (graph_of ((k, u) ∷ ts))) [] ≡ t.dependency_ids)
        ((eq_iff k key).0 e) (get-graph_of_first k u ts keyed.1 ∙ ground (arith, e, h))
  | inr e ↦ ground (arith, e, get-graph_of ts key t keyed.2 (ground (arith, e, h)))
]

are_dependencies_completed_lem :
    (s : QueueIndexState) (key : String) (graph : DependencyGraph)
    → are_dependencies_completed s key graph
      ≡ all_completed s.tasks (or_else (OrderedMap.get key graph) [])
unfolding are_dependencies_completed all_completed
are_dependencies_completed_lem s key graph = elim (Option-cases (OrderedMap.get key graph)) [
  | inl e ↦ ground (arith, e)
  | inr (ids, e) ↦ ground (arith, e)
]

filter_ext :
    (p q : ExecutionTask → Bool) (ts : List ExecutionTask)
    → All (λ t. p t ≡ q t) ts
    → filter p ts ≡ filter q ts
filter_ext p q [] h = refl
filter_ext p q (t ∷ ts) h = rw (h.0, filter_ext p q ts h.1) refl

-- A property of every task that the map holds under its id.
All-values :
    (P : ExecutionTask → Type 0) (ts : OrderedMap ExecutionTask)
    → IsKeyed ts
    → ((t : ExecutionTask) → OrderedMap.get t.task_id ts ≡ some t → P t)
    → All P (values ts)
unfolding OrderedMap.get
All-values P [] keyed h = tt
All-values P ((k, t) ∷ ts) keyed h = (
  h t (ground (arith, keyed.0, eq_iff k t.task_id)),
  All-values P ts keyed.2 (λ u found. h u (ground (arith, keyed.1, found, eq_iff k u.task_id))),
)

head?-append {ℓ} :
    {A : Type ℓ} (xs ys : List A)
    → head? (xs ++ ys) ≡ (elim (head? xs) [ some x ↦ some x | none ↦ head? ys ])
head?-append [] ys = refl
head?-append (x ∷ xs) ys = refl

head?-take_one {ℓ} : {A : Type ℓ} (xs : List A) → head? (take 1 xs) ≡ head? xs
head?-take_one [] = refl
head?-take_one (x ∷ xs) = refl

next_task_lem :
    (s : QueueIndexState)
    → let graph = build_dependency_graph s in
      next_task s
      ≡ head? (
          filter (is_resumable s graph) (values s.tasks)
          ++ (filter (is_ready s graph) (values s.tasks)
              ++ filter (is_retryable s graph) (values s.tasks)))
unfolding next_task Index.get_ready_tasks
next_task_lem s =
    let graph = build_dependency_graph s in
    let a = filter (is_resumable s graph) (values s.tasks) in
    let b = filter (is_ready s graph) (values s.tasks) in
    let c = filter (is_retryable s graph) (values s.tasks) in
    sym (
      head?-append a (b ++ c)
      ∙ ap (λ (x : Option ExecutionTask). elim (head? a) [ some y ↦ some y | none ↦ x ])
          (head?-append b c))

dependencies_lem :
    (s : QueueIndexState) (t : ExecutionTask)
    → IsKeyed s.tasks
    → OrderedMap.get t.task_id s.tasks ≡ some t
    → are_dependencies_completed s t.task_id (build_dependency_graph s)
      ≡ all_completed s.tasks t.dependency_ids
unfolding build_dependency_graph
dependencies_lem s t keyed found =
    are_dependencies_completed_lem s t.task_id (graph_of s.tasks)
    ∙ ap (all_completed s.tasks) (get-graph_of s.tasks t.task_id t keyed found)

module _ (s : QueueIndexState) (t : ExecutionTask) (keyed : IsKeyed s.tasks)
    (found : OrderedMap.get t.task_id s.tasks ≡ some t) where
  is_resumable_lem :
      is_resumable s (build_dependency_graph s) t
      ≡ is_available s.tasks [] t && status_eq t.status running
  unfolding is_resumable is_available
  is_resumable_lem = ground (arith, dependencies_lem s t keyed found)

  is_ready_lem :
      is_ready s (build_dependency_graph s) t
      ≡ is_available s.tasks [] t && status_eq t.status pending
  unfolding is_ready is_available
  is_ready_lem = ground (arith, dependencies_lem s t keyed found)

  is_retryable_lem :
      is_retryable s (build_dependency_graph s) t ≡ is_available s.tasks [] t && can_retry t
  unfolding is_retryable is_available
  is_retryable_lem = ground (arith, dependencies_lem s t keyed found)

-- Where each task is held under its own id, and once, `getNextTask` of the queue finds the task that
-- `getReadyTasks` of an idle engine finds first, and none exactly if that finds none.
pub next_task-get_ready_tasks :
    (s : QueueIndexState)
    → IsKeyed s.tasks
    → next_task s ≡ head? (Ready.get_ready_tasks s.tasks [] 1)
next_task-get_ready_tasks s keyed =
    let graph = build_dependency_graph s in
    next_task_lem s
    ∙ (rw
        (
          filter_ext (is_resumable s graph)
              (λ t. is_available s.tasks [] t && status_eq t.status running) (values s.tasks)
              (All-values _ s.tasks keyed (λ t found. is_resumable_lem s t keyed found)),
          filter_ext (is_ready s graph)
              (λ t. is_available s.tasks [] t && status_eq t.status pending) (values s.tasks)
              (All-values _ s.tasks keyed (λ t found. is_ready_lem s t keyed found)),
          filter_ext (is_retryable s graph) (λ t. is_available s.tasks [] t && can_retry t)
              (values s.tasks)
              (All-values _ s.tasks keyed (λ t found. is_retryable_lem s t keyed found)),
          get_ready_tasks-eq-filters s.tasks [] 1,
        )
        (sym (head?-take_one _)))
