-- ===== src/Engine/Pool/Fresh.antt =====
-- What the loop of `execute` may dispatch.
use codemachine_pipeline.Prelude.{
  ℕ, zero, suc, ◌≡◌, String, Bool, true, false, ◌&&◌, ◌||◌, List, [], ◌∷◌, take, filter, contains,
  All, All-map, All-append, All-filter, arith,
}
use codemachine_pipeline.Prelude.OrderedMap.{OrderedMap, values}
use codemachine_pipeline.Queue.Types.{ExecutionTask, pending, running, status_eq, can_retry}
use codemachine_pipeline.Queue.Index.{all_completed}
use codemachine_pipeline.Engine.Ready.{get_ready_tasks}
use codemachine_pipeline.Engine.Ready.Order.{
  is_available, running_ones, pending_ones, get_ready_tasks-eq-filters,
}

All-take : {A : Type 0} (P : A → Type 0) (n : ℕ) (xs : List A) → All P xs → All P (take n xs)
All-take P zero xs h = tt
All-take P (suc n) [] h = tt
All-take P (suc n) (x ∷ xs) h = (h.0, All-take P n xs h.1)

All-any : {A : Type 0} (xs : List A) → All (λ x. Unit {0}) xs
All-any [] = tt
All-any (x ∷ xs) = (tt, All-any xs)

-- The task is not in flight, its dependencies are completed, and its status lets it run.
pub record MayRun (tasks : OrderedMap ExecutionTask) (flight : List String) (t : ExecutionTask)
    : Type 0 where
  pub idle : contains flight t.task_id ≡ false
  pub met : all_completed tasks t.dependency_ids ≡ true
  pub status : (status_eq t.status running || status_eq t.status pending || can_retry t) ≡ true

module _ (tasks : OrderedMap ExecutionTask) (flight : List String) where
  filter-MayRun :
      (p : ExecutionTask → Bool)
      → ((t : ExecutionTask)
          → p t ≡ true
          → (status_eq t.status running || status_eq t.status pending || can_retry t) ≡ true)
      → All (MayRun tasks flight) (filter (λ t. is_available tasks flight t && p t) (values tasks))
  unfolding is_available
  filter-MayRun p status =
      All-map (λ t. Unit {0} × ((is_available tasks flight t && p t) ≡ true)) (MayRun tasks flight)
        (λ t (_, h). record {
          idle = ground (arith, h);
          met = ground (arith, h);
          status = status t (ground (arith, h));
        })
        (filter (λ t. is_available tasks flight t && p t) (values tasks))
        (All-filter (λ t. Unit {0}) (λ t. is_available tasks flight t && p t) (values tasks)
          (All-any (values tasks)))

-- Every task that getReadyTasks hands out is not in flight, depends on completed tasks only, and is running
-- from before, pending, or failed with a retry left.
pub get_ready_tasks-MayRun :
    (tasks : OrderedMap ExecutionTask) (flight : List String) (limit : ℕ)
    → All (MayRun tasks flight) (get_ready_tasks tasks flight limit)
get_ready_tasks-MayRun tasks flight limit = rw (get_ready_tasks-eq-filters tasks flight limit) (
    All-take (MayRun tasks flight) limit _ (
      All-append (MayRun tasks flight) (running_ones tasks flight (values tasks)) _
        (filter-MayRun tasks flight (λ t. status_eq t.status running) (λ t h. ground (arith, h)))
        (All-append (MayRun tasks flight) (pending_ones tasks flight (values tasks)) _
          (filter-MayRun tasks flight (λ t. status_eq t.status pending) (λ t h. ground (arith, h)))
          (filter-MayRun tasks flight can_retry (λ t h. ground (arith, h))))))
