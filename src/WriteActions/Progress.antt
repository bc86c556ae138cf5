-- ===== src/WriteActions/Progress.antt =====
-- What a drain takes from the queue, and that drains come to an end.
use codemachine_pipeline.Prelude.{
  ℕ, ◌+◌, ◌-◌, ◌≤◌, ◌≡◌, ap, ◌∙◌, String, Bool, false, Option, List, [], ◌∷◌, ◌++◌, arith,
  Bool-cases, Option-cases, inl, inr, str_eq, if◌then◌else◌, length, length-take, ◌==◌, All, min,
}
use codemachine_pipeline.Prelude.OrderedMap
use codemachine_pipeline.Prelude.OrderedMap.{OrderedMap, values, get-set}
use codemachine_pipeline.RateLimits.{CooldownStatus}
use codemachine_pipeline.WriteActions.{
  WriteAction, pending, in_progress, WriteActionStore, load_queue,
}
use codemachine_pipeline.WriteActions.Execute.{
  execute_action, execute_all, drain, with_status_of, actions_to_execute, pending_actions,
}
use codemachine_pipeline.WriteActions.Counts.{sum_of, sum_of-set}
use codemachine_pipeline.WriteActions.Runs.{executed_entry, load_queue-execute_action}
use codemachine_pipeline.WriteActions.Chosen.{
  IsDistinct, IsReady, actions_to_execute-IsDistinct, actions_to_execute-IsReady,
}

pub execute_all-counts :
    (executor : WriteAction → Option String) (now : String) (actions : List WriteAction)
    (s : WriteActionStore) (n k : ℕ) (errors : List (String × String))
    → (execute_all executor now actions (s, n, k, errors)).1
        + (execute_all executor now actions (s, n, k, errors)).2
      ≡ n + k + length actions
unfolding execute_all
execute_all-counts executor now [] s n k errors = omega arith
execute_all-counts executor now (a ∷ actions) s n k errors =
    elim (Option-cases (execute_action executor a now s).1) [
      | inl fine ↦
          rw (execute_all, fine)
            (omega (
              arith,
              execute_all-counts executor now actions (execute_action executor a now s).0 (n + 1) k
                  errors,
            ))
      | inr (m, thrown) ↦
          rw (execute_all, thrown)
            (omega (
              arith,
              execute_all-counts executor now actions (execute_action executor a now s).0 n (k + 1)
                  (errors ++ (a.action_id, m) ∷ []),
            ))
    ]

-- The number of actions that a drain affects is 0 in a cooldown, and otherwise the smaller of the free
-- slots and the pending actions.
pub drain-limit :
    (not_after : String → String → Bool) (limit : ℕ) (cooldown : CooldownStatus)
    (executor : WriteAction → Option String) (now : String) (s : WriteActionStore)
    → (drain not_after limit cooldown executor now s).1.actions_affected ≡ (
        if cooldown.in_cooldown
        then 0
        else min
            (limit - length (with_status_of not_after in_progress (load_queue s)))
            (length (pending_actions not_after (load_queue s))))
unfolding drain actions_to_execute
drain-limit not_after limit cooldown executor now s = elim (Bool-cases cooldown.in_cooldown) [
  | inl cooling ↦ rw (drain, cooling)
  | inr ready ↦ elim (Bool-cases (length (pending_actions not_after (load_queue s)) == 0)) [
    | inl idle ↦ rw (drain, ready, idle) (ground (arith, idle))
    | inr busy ↦
        let slots = limit - length (with_status_of not_after in_progress (load_queue s)) in
        rw (drain, ready, busy)
          (omega (
            arith,
            execute_all-counts executor now (actions_to_execute not_after limit (load_queue s)) s 0
                0 [],
            length-take slots (pending_actions not_after (load_queue s)),
          ))
  ]
]

-- how often an action can still be executed
abbrev pub attempts : WriteAction → ℕ
attempts a = elim a.status [ pending ↦ a.max_retries - a.retry_count + 1 | _ ↦ 0 ]

abbrev pub attempts_left : WriteActionStore → ℕ
attempts_left s = sum_of attempts (load_queue s)

executed_entry-attempts :
    (executor : WriteAction → Option String) (a : WriteAction) (now : String) (s : WriteActionStore)
    → a.status ≡ pending
    → attempts (executed_entry executor a now s a) + 1 ≤ attempts a
executed_entry-attempts executor a now s h = ground (arith, h)

execute_action-attempts :
    (executor : WriteAction → Option String) (a : WriteAction) (now : String) (s : WriteActionStore)
    → IsReady s a
    → attempts_left (execute_action executor a now s).0 + 1 ≤ attempts_left s
execute_action-attempts executor a now s h = omega (
  arith,
  ap (sum_of attempts) (load_queue-execute_action executor a now s a h.0),
  sum_of-set attempts a.action_id a (executed_entry executor a now s a) (load_queue s) h.0,
  executed_entry-attempts executor a now s h.1,
)

others_stay :
    (executor : WriteAction → Option String) (a : WriteAction) (now : String) (s : WriteActionStore)
    (bs : List WriteAction)
    → IsReady s a
    → All (λ b. str_eq a.action_id b.action_id ≡ false) bs
    → All (IsReady s) bs
    → All (IsReady (execute_action executor a now s).0) bs
others_stay executor a now s [] h d r = tt
others_stay executor a now s (b ∷ cs) h d r = (
  (
    ap (OrderedMap.get b.action_id) (load_queue-execute_action executor a now s a h.0)
        ∙ get-set a.action_id b.action_id (executed_entry executor a now s a) (load_queue s)
        ∙ rw d.0 r.0.0,
    r.0.1,
  ),
  others_stay executor a now s cs h d.1 r.1,
)

execute_all-attempts :
    (executor : WriteAction → Option String) (now : String) (actions : List WriteAction)
    (s : WriteActionStore) (n k : ℕ) (errors : List (String × String))
    → IsDistinct actions
    → All (IsReady s) actions
    → attempts_left (execute_all executor now actions (s, n, k, errors)).0 + length actions
      ≤ attempts_left s
unfolding execute_all
execute_all-attempts executor now [] s n k errors d r = omega arith
execute_all-attempts executor now (a ∷ actions) s n k errors d r =
    let first = execute_action-attempts executor a now s r.0 in
    let ready = others_stay executor a now s actions r.0 d.0 r.1 in
    elim (Option-cases (execute_action executor a now s).1) [
      | inl fine ↦
          rw (execute_all, fine)
            (omega (
              arith,
              first,
              execute_all-attempts executor now actions _ (n + 1) k errors d.1 ready,
            ))
      | inr (m, thrown) ↦
          rw (execute_all, thrown)
            (omega (
              arith,
              first,
              execute_all-attempts executor now actions _ n (k + 1)
                  (errors ++ (a.action_id, m) ∷ []) d.1 ready,
            ))
    ]

-- Each action that a drain takes has an attempt less.
pub drain-attempts :
    (not_after : String → String → Bool) (limit : ℕ) (cooldown : CooldownStatus)
    (executor : WriteAction → Option String) (now : String) (s : WriteActionStore)
    → attempts_left (drain not_after limit cooldown executor now s).0
        + (drain not_after limit cooldown executor now s).1.actions_affected
      ≤ attempts_left s
unfolding drain
drain-attempts not_after limit cooldown executor now s = elim (Bool-cases cooldown.in_cooldown) [
  | inl cooling ↦ rw (drain, cooling) (omega arith)
  | inr ready ↦ elim (Bool-cases (length (pending_actions not_after (load_queue s)) == 0)) [
    | inl idle ↦ rw (drain, ready, idle) (omega arith)
    | inr busy ↦
        let actions = actions_to_execute not_after limit (load_queue s) in
        rw (drain, ready, busy)
          (omega (
            arith,
            execute_all-counts executor now actions s 0 0 [],
            execute_all-attempts executor now actions s 0 0 []
                (actions_to_execute-IsDistinct not_after limit s)
                (actions_to_execute-IsReady not_after limit s),
          ))
  ]
]
