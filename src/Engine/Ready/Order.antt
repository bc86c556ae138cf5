-- ===== src/Engine/Ready/Order.antt =====
-- The one pass over the queue against its specification by three filters.
use codemachine_pipeline.Prelude.{
  ℕ, zero, suc, ◌+◌, ◌≤◌, ◌≡◌, refl, sym, ap, ◌∙◌, String, Bool, true, false, not, ◌&&◌, List, [],
  ◌∷◌, ◌++◌, append-nil, append_assoc, arith, leb, leb→le, lt→leb, Bool-cases, ◌⊎◌, inl, inr,
  length, length-append, take, filter, contains,
}
use codemachine_pipeline.Prelude.OrderedMap.{OrderedMap, values}
use codemachine_pipeline.Queue.Types.{ExecutionTask, pending, running, status_eq, can_retry}
use codemachine_pipeline.Queue.Index.{all_completed}
use codemachine_pipeline.Engine.Ready.{Buckets, push, is_surplus, fill, get_ready_tasks}

take-append_long {ℓ} :
    {A : Type ℓ} (n : ℕ) (xs ys : List A) → n ≤ length xs → take n (xs ++ ys) ≡ take n xs
take-append_long zero xs ys h = refl
take-append_long (suc n) [] ys h = elim h [ ]
take-append_long (suc n) (x ∷ xs) ys h = ap (λ r. x ∷ r) (take-append_long n xs ys (omega arith))

module _ (all_tasks : OrderedMap ExecutionTask) (in_flight : List String) where
  -- The task is not being executed, and all it depends on is completed.
  unfoldable pub is_available : ExecutionTask → Bool
  is_available t = not (contains in_flight t.task_id) && all_completed all_tasks t.dependency_ids

  available :
      (t : ExecutionTask)
      → contains in_flight t.task_id ≡ false
      → all_completed all_tasks t.dependency_ids ≡ true
      → is_available t ≡ true
  unfolding is_available
  available t c d = rw (c, d) refl

  unavailable :
      (t : ExecutionTask)
      → contains in_flight t.task_id ≡ true ⊎ all_completed all_tasks t.dependency_ids ≡ false
      → is_available t ≡ false
  unfolding is_available
  unavailable t (inl c) = rw c refl
  unavailable t (inr d) = ground arith

  abbrev pub running_ones : List ExecutionTask → List ExecutionTask
  running_ones = filter (λ t. is_available t && status_eq t.status running)

  abbrev pub pending_ones : List ExecutionTask → List ExecutionTask
  pending_ones = filter (λ t. is_available t && status_eq t.status pending)

  abbrev pub retryable_ones : List ExecutionTask → List ExecutionTask
  retryable_ones = filter (λ t. is_available t && can_retry t)

  abbrev total : Buckets → List ExecutionTask → List ExecutionTask
  total b ts =
      (b.running ++ running_ones ts)
      ++ ((b.pending ++ pending_ones ts) ++ (b.retryable ++ retryable_ones ts))

  total-unavailable :
      (b : Buckets) (t : ExecutionTask) (ts : List ExecutionTask)
      → is_available t ≡ false
      → total b (t ∷ ts) ≡ total b ts
  total-unavailable b t ts h = rw h

  total-push :
      (b : Buckets) (t : ExecutionTask) (ts : List ExecutionTask)
      → is_available t ≡ true
      → total b (t ∷ ts) ≡ total (push b t) ts
  unfolding push can_retry status_eq
  total-push b t ts h = ground (
    arith,
    append_assoc b.running (t ∷ []) (running_ones ts),
    append_assoc b.pending (t ∷ []) (pending_ones ts),
    append_assoc b.retryable (t ∷ []) (retryable_ones ts),
  )

  running_ones-skip :
      (t : ExecutionTask) (ts : List ExecutionTask)
      → status_eq t.status running ≡ false
      → running_ones (t ∷ ts) ≡ running_ones ts
  running_ones-skip t ts h = ground arith

  pending_ones-skip :
      (t : ExecutionTask) (ts : List ExecutionTask)
      → status_eq t.status pending ≡ false
      → pending_ones (t ∷ ts) ≡ pending_ones ts
  pending_ones-skip t ts h = ground arith

  module _ (limit : ℕ) where
    -- Enough running and pending tasks: what comes after them does not matter.
    take-total :
        (b : Buckets) (rs ps qs : List ExecutionTask)
        → limit ≤ length b.running + length b.pending
        → take limit ((b.running ++ rs) ++ ((b.pending ++ ps) ++ qs))
          ≡ take limit ((b.running ++ rs) ++ (b.pending ++ ps))
    take-total b rs ps qs h = rw (← append_assoc) (
        take-append_long limit ((b.running ++ rs) ++ (b.pending ++ ps)) qs (
          omega (
            arith,
            length-append (b.running ++ rs) (b.pending ++ ps),
            length-append b.running rs,
            length-append b.pending ps,
          )))

    take-running :
        (b : Buckets) (rs qs : List ExecutionTask)
        → limit ≤ length b.running
        → take limit ((b.running ++ rs) ++ qs) ≡ take limit b.running
    take-running b rs qs h = rw append_assoc (take-append_long limit b.running (rs ++ qs) h)

    -- the loop's break
    take-enough :
        (b : Buckets) (ts : List ExecutionTask)
        → leb limit (length b.running) ≡ true
        → take limit (b.running ++ (b.pending ++ b.retryable)) ≡ take limit (total b ts)
    take-enough b ts e =
        take-append_long limit b.running (b.pending ++ b.retryable)
          (leb→le limit (length b.running) e)
        ∙ sym (
            take-running b (running_ones ts)
              ((b.pending ++ pending_ones ts) ++ (b.retryable ++ retryable_ones ts))
              (leb→le limit (length b.running) e))

    surplus-le :
        (b : Buckets) (t : ExecutionTask)
        → is_surplus limit b t ≡ true
        → limit ≤ length b.running + length b.pending
    unfolding is_surplus
    surplus-le b t h = elim (Bool-cases (leb limit (length b.running + length b.pending))) [
      | inl e ↦ leb→le limit (length b.running + length b.pending) e
      | inr e ↦ ground arith
    ]

    surplus-running :
        (b : Buckets) (t : ExecutionTask)
        → is_surplus limit b t ≡ true
        → status_eq t.status running ≡ false
    unfolding is_surplus
    surplus-running b t h = ground arith

    surplus-pending :
        (b : Buckets) (t : ExecutionTask)
        → is_surplus limit b t ≡ true
        → status_eq t.status pending ≡ false
    unfolding is_surplus
    surplus-pending b t h = ground arith

    take-surplus :
        (b : Buckets) (t : ExecutionTask) (ts : List ExecutionTask)
        → is_surplus limit b t ≡ true
        → take limit (total b (t ∷ ts)) ≡ take limit (total b ts)
    take-surplus b t ts h =
        take-total b (running_ones (t ∷ ts)) (pending_ones (t ∷ ts))
          (b.retryable ++ retryable_ones (t ∷ ts)) (surplus-le b t h)
        ∙ ap (λ rs. take limit ((b.running ++ rs) ++ (b.pending ++ pending_ones (t ∷ ts))))
            (running_ones-skip t ts (surplus-running b t h))
        ∙ ap (λ ps. take limit ((b.running ++ running_ones ts) ++ (b.pending ++ ps)))
            (pending_ones-skip t ts (surplus-pending b t h))
        ∙ sym (
            take-total b (running_ones ts) (pending_ones ts) (b.retryable ++ retryable_ones ts)
              (surplus-le b t h))

    abbrev chosen : Buckets → List ExecutionTask
    chosen b = take limit (b.running ++ (b.pending ++ b.retryable))

    chosen-fill :
        (b : Buckets) (ts : List ExecutionTask)
        → chosen (fill all_tasks in_flight limit b ts) ≡ take limit (total b ts)
    unfolding fill
    chosen-fill b [] = rw (append-nil, append-nil, append-nil)
    chosen-fill b (t ∷ ts) = elim (Bool-cases (leb limit (length b.running))) [
      | inl e ↦ rw e (take-enough b (t ∷ ts) e)
      | inr e ↦ elim (Bool-cases (contains in_flight t.task_id)) [
        | inl c ↦
            rw (e, c)
              (chosen-fill b ts
                ∙ ap (take limit) (sym (total-unavailable b t ts (unavailable t (inl c)))))
        | inr c ↦ elim (Bool-cases (is_surplus limit b t)) [
          | inl u ↦ rw (e, c, u) (chosen-fill b ts ∙ sym (take-surplus b t ts u))
          | inr u ↦ elim (Bool-cases (all_completed all_tasks t.dependency_ids)) [
            | inl d ↦
                rw (e, c, u, d)
                  (chosen-fill (push b t) ts
                    ∙ ap (take limit) (sym (total-push b t ts (available t c d))))
            | inr d ↦
                rw (e, c, u, d)
                  (chosen-fill b ts
                    ∙ ap (take limit) (sym (total-unavailable b t ts (unavailable t (inr d)))))
          ]
        ]
      ]
    ]

  -- The tasks handed out are the first `limit` of three filters of the queue, taken in the queue's
  -- order, one after the other: the tasks that were running when the engine stopped, then the pending
  -- ones, then the failed ones that may be retried; of each only those that are not being executed
  -- and whose dependencies are all completed. The early `break` and the buckets' cap lose none.
  pub get_ready_tasks-eq-filters :
      (limit : ℕ)
      → get_ready_tasks all_tasks in_flight limit
        ≡ take limit (
            running_ones (values all_tasks)
            ++ (pending_ones (values all_tasks) ++ retryable_ones (values all_tasks)))
  unfolding get_ready_tasks
  get_ready_tasks-eq-filters zero = refl
  get_ready_tasks-eq-filters (suc n) = rw (lt→leb (suc n) 0 (omega arith)) (
      chosen-fill (suc n) (record { running = []; pending = []; retryable = [] })
        (values all_tasks))
