-- ===== src/WriteActions/Finish.antt =====
-- Drains that are repeated leave nothing pending.
use codemachine_pipeline.Prelude.{
  ℕ, suc, ◌≤◌, ◌<◌, ◌≡◌, refl, ap, ◌∙◌, String, Bool, false, Option, List, [], ◌∷◌, arith,
  Bool-cases, Option-cases, inl, inr, length, filter, ◌==◌,
}
use codemachine_pipeline.Prelude.OrderedMap
use codemachine_pipeline.Prelude.OrderedMap.{OrderedMap, values}
use codemachine_pipeline.RateLimits.{CooldownStatus}
use codemachine_pipeline.WriteActions.{
  WriteAction, WriteActionStatus, pending, in_progress, WriteActionStore, load_queue, status_eq,
}
use codemachine_pipeline.WriteActions.Execute.{
  execute_action, drain, insert_by_date, sort_by_date, with_status_of, pending_actions,
}
use codemachine_pipeline.WriteActions.Counts.{status_eq_iff, sum_of, sum_of-set, tally, one}
use codemachine_pipeline.WriteActions.Runs.{
  executed_entry, load_queue-execute_action, execute_action-missing,
}
use codemachine_pipeline.WriteActions.Invariant.{drain-keeps}
use codemachine_pipeline.WriteActions.Progress.{
  drain-limit, drain-attempts, attempts, attempts_left,
}

length-filter_status :
    (st : WriteActionStatus) (m : OrderedMap WriteAction)
    → length (filter (λ a. status_eq a.status st) (values m)) ≡ tally st m
length-filter_status st [] = refl
length-filter_status st ((id, a) ∷ m) = ground (arith, length-filter_status st m)

module _ (not_after : String → String → Bool) where
  length-insert_by_date :
      (a : WriteAction) (bs : List WriteAction)
      → length (insert_by_date not_after a bs) ≡ suc (length bs)
  unfolding insert_by_date
  length-insert_by_date a [] = refl
  length-insert_by_date a (b ∷ bs) = ground (arith, length-insert_by_date a bs)

  length-sort_by_date : (bs : List WriteAction) → length (sort_by_date not_after bs) ≡ length bs
  unfolding sort_by_date
  length-sort_by_date [] = refl
  length-sort_by_date (b ∷ bs) =
      length-insert_by_date b (sort_by_date not_after bs) ∙ ap suc (length-sort_by_date bs)

  length-pending_actions :
      (m : OrderedMap WriteAction) → length (pending_actions not_after m) ≡ tally pending m
  unfolding pending_actions with_status_of
  length-pending_actions m = length-sort_by_date _ ∙ length-filter_status pending m

  length-with_status_of :
      (st : WriteActionStatus) (m : OrderedMap WriteAction)
      → length (with_status_of not_after st m) ≡ tally st m
  unfolding with_status_of
  length-with_status_of st m = length-filter_status st m

-- An execution puts no action in progress for good.
executed_entry-in_progress :
    (executor : WriteAction → Option String) (a : WriteAction) (now : String) (s : WriteActionStore)
    (b : WriteAction)
    → one in_progress (executed_entry executor a now s b).status ≡ 0
unfolding status_eq
executed_entry-in_progress executor a now s b = ground arith

execute_action-in_progress :
    (n : ℕ) (executor : WriteAction → Option String) (now : String) (a : WriteAction)
    (s : WriteActionStore)
    → tally in_progress (load_queue s) ≤ n
    → tally in_progress (load_queue (execute_action executor a now s).0) ≤ n
execute_action-in_progress n executor now a s h =
    elim (Option-cases (OrderedMap.get a.action_id (load_queue s))) [
      | inl missing ↦ rw (execute_action-missing executor a now s missing) h
      | inr (b, found) ↦ omega (
        arith,
        h,
        ap (tally in_progress) (load_queue-execute_action executor a now s b found),
        sum_of-set (λ c. one in_progress c.status) a.action_id b (executed_entry executor a now s b)
            (load_queue s) found,
        executed_entry-in_progress executor a now s b,
      )
    ]

one-attempts :
    (a : WriteAction)
    → (one pending a.status ≤ attempts a) × (one pending a.status ≡ 0 → attempts a ≡ 0)
one-attempts a = ground (arith, status_eq_iff a.status pending)

attempts_of_pending :
    (m : OrderedMap WriteAction)
    → (tally pending m ≤ sum_of attempts m) × (tally pending m ≡ 0 → sum_of attempts m ≡ 0)
attempts_of_pending [] = (omega arith, λ _. refl)
attempts_of_pending ((id, a) ∷ m) =
    let rest = attempts_of_pending m in
    let first = one-attempts a in
    (
      omega (arith, rest.0, first.0),
      λ none_pending.
          omega
            (arith, rest.1 (omega (arith, none_pending)), first.1 (omega (arith, none_pending))),
    )

abbrev no_cooldown : CooldownStatus
no_cooldown = record { in_cooldown = false; requires_manual_ack = false }

==_false : (n : ℕ) → (n == 0) ≡ false → 1 ≤ n
==_false n h = ground (arith, h)

-- drains one after another, each with its executor, its time and any status but a cooldown
module _ (not_after : String → String → Bool) (limit : ℕ) where
  abbrev pub drain_each :
      List ((WriteAction → Option String) × String) → WriteActionStore → WriteActionStore
  drain_each [] s = s
  drain_each ((executor, now) ∷ runs) s =
      drain_each runs (drain not_after limit no_cooldown executor now s).0

  -- Drains that no cooldown stops, as many as there are attempts left, leave no action pending,
  -- whatever each executor does, if fewer actions are in progress than the limit allows.
  pub drain_each-finishes :
      (runs : List ((WriteAction → Option String) × String)) (s : WriteActionStore)
      → tally in_progress (load_queue s) < limit
      → attempts_left s ≤ length runs
      → tally pending (load_queue (drain_each runs s)) ≡ 0
  drain_each-finishes [] s h k = omega (arith, k, (attempts_of_pending (load_queue s)).0)
  drain_each-finishes ((executor, now) ∷ runs) s h k =
      let left = drain-attempts not_after limit no_cooldown executor now s in
      let taken = drain-limit not_after limit no_cooldown executor now s in
      drain_each-finishes runs (drain not_after limit no_cooldown executor now s).0
        (omega (
          arith,
          h,
          drain-keeps (λ t. tally in_progress (load_queue t) ≤ tally in_progress (load_queue s))
              executor now
              (execute_action-in_progress (tally in_progress (load_queue s)) executor now) not_after
              limit no_cooldown s (omega arith),
        ))
        (elim (Bool-cases (tally pending (load_queue s) == 0)) [
          | inl idle ↦
              omega (arith, left, (attempts_of_pending (load_queue s)).1 ground (arith, idle))
          | inr busy ↦ omega (
            arith,
            k,
            h,
            left,
            taken,
            ==_false (tally pending (load_queue s)) busy,
            length-pending_actions not_after (load_queue s),
            length-with_status_of not_after in_progress (load_queue s),
          )
        ])
