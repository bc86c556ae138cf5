-- ===== src/WriteActions/Execute.antt =====
-- `executeAction` and `drain` of writeActionQueue.ts. An executor is what it does with each action: it
-- returns, or throws a message. The order of dates, `localeCompare`, is an argument.
use codemachine_pipeline.Prelude.{
  ℕ, ◌+◌, ◌-◌, ◌*◌, ◌^◌, min, String, Bool, true, not, Option, none, some, List, [], ◌∷◌, ◌++◌, ltb,
  ◌==◌, if◌then◌else◌, take, filter, length,
}
use codemachine_pipeline.Prelude.OrderedMap.{OrderedMap, values}
use codemachine_pipeline.RateLimits.{CooldownStatus}
use codemachine_pipeline.WriteActions.{
  WriteAction, WriteActionStatus, pending, in_progress, completed, failed, status_eq,
  WriteActionStore, load_queue, update_action_status, update_action_retry,
}

-- `Action … not found`, less the id
abbrev pub not_found : String
not_found = "Action not found"

-- in the `catch` of `executeAction`; the second part is the message of an exception
unfoldable pub fail_action :
    WriteAction → String → String → WriteActionStore → WriteActionStore × Option String
fail_action a message now s =
    if ltb a.retry_count a.max_retries
    then elim (update_action_retry a.action_id message now s) [
      | none ↦ (s, some not_found)
      | some after ↦ (after, none)
    ]
    else elim (update_action_status a.action_id failed (some message) none now s) [
      | none ↦ (s, some not_found)
      | some after ↦ (after, some message)
    ]

unfoldable pub execute_action :
    (WriteAction → Option String)
    → WriteAction
    → String
    → WriteActionStore
    → WriteActionStore × Option String
unfolding fail_action
execute_action executor a now s =
    elim (update_action_status a.action_id in_progress none none now s) [
      | none ↦ fail_action a not_found now s
      | some started ↦ elim (executor a) [
        | some message ↦ fail_action a message now started
        | none ↦ elim (update_action_status a.action_id completed none (some now) now started) [
          | none ↦ fail_action a not_found now started
          | some finished ↦ (finished, none)
        ]
      ]
    ]

-- the delay before a retry
unfoldable pub backoff_delay_ms : ℕ → ℕ → ℕ → ℕ
backoff_delay_ms base limit retry_count = min (base * 2 ^ retry_count) limit

pub data DrainMessage : Type 0 where
  needs_acknowledgement waiting no_pending : DrainMessage
  executed : ℕ → ℕ → DrainMessage

pub record WriteActionOperationResult : Type 0 where
  pub success : Bool
  pub message : DrainMessage
  pub actions_affected : ℕ
  pub errors : List (String × String)

-- the loop over the actions to execute, with the counts of successes and failures, and each error with the
-- id that stands before it
unfoldable pub execute_all :
    (WriteAction → Option String)
    → String
    → List WriteAction
    → WriteActionStore × ℕ × ℕ × List (String × String)
    → WriteActionStore × ℕ × ℕ × List (String × String)
unfolding execute_action
execute_all executor now [] r = r
execute_all executor now (a ∷ actions) (s, successes, failures, errors) =
    let (after, thrown) = execute_action executor a now s in
    execute_all executor now actions (elim thrown [
      | none ↦ (after, successes + 1, failures, errors)
      | some message ↦ (after, successes, failures + 1, errors ++ (a.action_id, message) ∷ [])
    ])

-- what is executed now: the oldest pending actions, as many as there are free slots
module _ (not_after : String → String → Bool) where
  unfoldable pub insert_by_date : WriteAction → List WriteAction → List WriteAction
  insert_by_date a [] = a ∷ []
  insert_by_date a (b ∷ bs) =
      let rest = insert_by_date a bs in
      if not_after a.created_at b.created_at then a ∷ b ∷ bs else b ∷ rest

  unfoldable pub sort_by_date : List WriteAction → List WriteAction
  unfolding insert_by_date
  sort_by_date [] = []
  sort_by_date (a ∷ actions) = insert_by_date a (sort_by_date actions)

  unfoldable pub with_status_of : WriteActionStatus → OrderedMap WriteAction → List WriteAction
  unfolding status_eq
  with_status_of status actions = filter (λ a. status_eq a.status status) (values actions)

  unfoldable pub pending_actions : OrderedMap WriteAction → List WriteAction
  unfolding sort_by_date with_status_of
  pending_actions actions = sort_by_date (with_status_of pending actions)

  unfoldable pub actions_to_execute : ℕ → OrderedMap WriteAction → List WriteAction
  unfolding pending_actions with_status_of
  actions_to_execute limit actions =
      take (limit - length (with_status_of in_progress actions)) (pending_actions actions)

  unfoldable pub drain :
      ℕ
      → CooldownStatus
      → (WriteAction → Option String)
      → String
      → WriteActionStore
      → WriteActionStore × WriteActionOperationResult
  unfolding load_queue actions_to_execute execute_all
  drain limit cooldown executor now s =
      let actions = load_queue s in
      let (after, successes, failures, errors) =
        execute_all executor now (actions_to_execute limit actions) (s, 0, 0, []) in
      if cooldown.in_cooldown
      then (
        s,
        record {
          success = not cooldown.requires_manual_ack;
          message = if cooldown.requires_manual_ack then needs_acknowledgement else waiting;
          actions_affected = 0;
          errors = [];
        },
      )
      else if length (pending_actions actions) == 0
      then (s, record { success = true; message = no_pending; actions_affected = 0; errors = [] })
      else (
        after,
        record {
          success = failures == 0;
          message = executed successes failures;
          actions_affected = successes + failures;
          errors = errors;
        },
      )
