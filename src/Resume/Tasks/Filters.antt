-- ===== src/Resume/Tasks/Filters.antt =====
-- The tasks that a resumed run finds, against three filters and against the engine's choice.
use codemachine_pipeline.Prelude.{
  ◌≡◌, refl, sym, ap, ◌∙◌, Bool, true, false, ◌&&◌, List, [], ◌∷◌, ◌++◌, filter, contains, All,
  arith, append_assoc, ◌≤◌, ℕ, zero, suc, ◌+◌, length-append, length, take,
}
use codemachine_pipeline.Prelude.OrderedMap.{OrderedMap, values}
use codemachine_pipeline.Queue.Types.{ExecutionTask, pending, running, status_eq, can_retry}
use codemachine_pipeline.Resume.Tasks.{
  was_running, is_waiting, is_retryable_now, get_resumable_tasks,
}
use codemachine_pipeline.Engine.Ready.{get_ready_tasks}
use codemachine_pipeline.Engine.Ready.Order.{is_available, get_ready_tasks-eq-filters}
use codemachine_pipeline.Resume.Tasks.Seen.{
  AreNew, IsDistinct, add_all_lem, contains-append_list, ids, left_out, nothing_seen,
}

module _ (tasks : OrderedMap ExecutionTask) where
  running-waiting : (t : ExecutionTask) → is_waiting tasks t ≡ true → was_running tasks t ≡ false
  unfolding is_waiting was_running status_eq
  running-waiting t h = ground (arith, h)

  running-retryable :
      (t : ExecutionTask) → is_retryable_now tasks t ≡ true → was_running tasks t ≡ false
  unfolding is_retryable_now was_running status_eq can_retry
  running-retryable t h = ground (arith, h)

  waiting-retryable :
      (t : ExecutionTask) → is_retryable_now tasks t ≡ true → is_waiting tasks t ≡ false
  unfolding is_retryable_now is_waiting status_eq can_retry
  waiting-retryable t h = ground (arith, h)

  abbrev f1 : List ExecutionTask
  f1 = filter (was_running tasks) (values tasks)

  abbrev f2 : List ExecutionTask
  f2 = filter (is_waiting tasks) (values tasks)

  abbrev f3 : List ExecutionTask
  f3 = filter (is_retryable_now tasks) (values tasks)

  new_waiting :
      (ts : List ExecutionTask)
      → All (λ t. was_running tasks t ≡ false → contains (ids f1) t.task_id ≡ false) ts
      → AreNew (is_waiting tasks) (ids f1) ts
  new_waiting [] h = tt
  new_waiting (t ∷ ts) h = (λ w. h.0 (running-waiting t w), new_waiting ts h.1)

  new_retryable :
      (ts : List ExecutionTask)
      → All (λ t. was_running tasks t ≡ false → contains (ids f1) t.task_id ≡ false) ts
      → All (λ t. is_waiting tasks t ≡ false → contains (ids f2) t.task_id ≡ false) ts
      → AreNew (is_retryable_now tasks) (ids f1 ++ ids f2) ts
  new_retryable [] h k = tt
  new_retryable (t ∷ ts) h k = (
    λ r.
        contains-append_list (ids f1) (ids f2) t.task_id
        ∙ rw (h.0 (running-retryable t r), k.0 (waiting-retryable t r)) refl,
    new_retryable ts h.1 k.1,
  )

  pub get_resumable_tasks-eq-filters :
      IsDistinct (values tasks) → get_resumable_tasks tasks ≡ f1 ++ (f2 ++ f3)
  unfolding get_resumable_tasks
  get_resumable_tasks-eq-filters d =
      let not_running = left_out (was_running tasks) (values tasks) d in
      let not_waiting = left_out (is_waiting tasks) (values tasks) d in
      rw
        (
          get_resumable_tasks,
          add_all_lem (was_running tasks) (values tasks) [] [] d
              (nothing_seen (was_running tasks) (values tasks)),
          add_all_lem (is_waiting tasks) (values tasks) f1 (ids f1) d
              (new_waiting (values tasks) not_running),
          add_all_lem (is_retryable_now tasks) (values tasks) (f1 ++ f2) (ids f1 ++ ids f2) d
              (new_retryable (values tasks) not_running not_waiting),
        )
        (append_assoc f1 f2 f3)

  -- at most one of the three tests takes a task
  lengths_lem :
      (ts : List ExecutionTask)
      → length (filter (was_running tasks) ts)
          + (length (filter (is_waiting tasks) ts) + length (filter (is_retryable_now tasks) ts))
        ≤ length ts
  lengths_lem [] = omega arith
  lengths_lem (t ∷ ts) =
      ground (arith, lengths_lem ts, running-waiting t, running-retryable t, waiting-retryable t)

filter-ext {ℓ} :
    {A : Type ℓ} (p q : A → Bool) (xs : List A) → ((x : A) → p x ≡ q x) → filter p xs ≡ filter q xs
filter-ext p q [] h = refl
filter-ext p q (x ∷ xs) h = rw (h x, filter-ext p q xs h)

take_all {ℓ} : {A : Type ℓ} (n : ℕ) (xs : List A) → length xs ≤ n → take n xs ≡ xs
take_all zero [] h = refl
take_all zero (x ∷ xs) h = absurd (omega (arith, h))
take_all (suc n) [] h = refl
take_all (suc n) (x ∷ xs) h = ap (λ ys. x ∷ ys) (take_all n xs (omega (arith, h)))

-- the engine's tests where nothing is being executed
module _ (tasks : OrderedMap ExecutionTask) (t : ExecutionTask) where
  running_test : was_running tasks t ≡ is_available tasks [] t && status_eq t.status running
  unfolding was_running is_available
  running_test = ground arith

  waiting_test : is_waiting tasks t ≡ is_available tasks [] t && status_eq t.status pending
  unfolding is_waiting is_available
  waiting_test = ground arith

  retryable_test : is_retryable_now tasks t ≡ is_available tasks [] t && can_retry t
  unfolding is_retryable_now is_available
  retryable_test = ground arith

-- Where no two tasks have one id, the tasks that a resumed run finds are those that an idle engine hands
-- out, in its order, where its limit is not below the number of tasks.
pub get_resumable_tasks-get_ready_tasks :
    (tasks : OrderedMap ExecutionTask) (limit : ℕ)
    → IsDistinct (values tasks)
    → length (values tasks) ≤ limit
    → get_resumable_tasks tasks ≡ get_ready_tasks tasks [] limit
unfolding was_running is_waiting is_retryable_now is_available
get_resumable_tasks-get_ready_tasks tasks limit d l =
    get_resumable_tasks-eq-filters tasks d
    ∙ sym (
        take_all limit _ (
          omega (
            arith,
            l,
            lengths_lem tasks (values tasks),
            length-append (f1 tasks) (f2 tasks ++ f3 tasks),
            length-append (f2 tasks) (f3 tasks),
          )))
    ∙ ap (take limit) (
        rw (
          filter-ext _ _ (values tasks) (running_test tasks),
          filter-ext _ _ (values tasks) (waiting_test tasks),
          filter-ext _ _ (values tasks) (retryable_test tasks),
        ))
    ∙ sym (get_ready_tasks-eq-filters tasks [] limit)
