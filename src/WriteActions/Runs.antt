-- ===== src/WriteActions/Runs.antt =====
-- What `executeAction` does to the queue, and the counts along enqueue, drain and updates.
use codemachine_pipeline.Prelude.{
  nonempty, ◌+◌, ◌≡◌, refl, ap, ◌∙◌, String, Option, none, some, arith, Bool-cases, Option-cases,
  inl, inr, eq_iff, if◌then◌else◌, ltb,
}
use codemachine_pipeline.Prelude.OrderedMap
use codemachine_pipeline.Prelude.OrderedMap.{OrderedMap, values, get-set, set-set}
use codemachine_pipeline.Queue.Types.{or_keep}
use codemachine_pipeline.WriteActions.{
  WriteAction, WriteActionStatus, pending, in_progress, completed, failed, WriteActionStore, Delta,
  load_queue, status_delta, retry_delta, with_status, update_action_status, retried,
  update_action_retry,
}
use codemachine_pipeline.WriteActions.Execute.{not_found, fail_action, execute_action}
use codemachine_pipeline.WriteActions.Counts.{IsCounted}
use codemachine_pipeline.WriteActions.Entries.{
  Stands, replace, update_action_status-replace, update_action_retry-replace,
  status_replace-IsCounted, retry_replace-IsCounted, Stands-replace, load_queue-replace,
  with_status-id, retried-id,
}

module _ (executor : WriteAction → Option String) (a : WriteAction) (now : String)
    (s : WriteActionStore) where
  -- the entry `b` of the action's id, put in progress, and the store then
  abbrev taken : WriteAction → WriteAction
  taken b = with_status b in_progress none none now

  abbrev started : WriteAction → WriteActionStore
  started b = replace a.action_id (taken b) (λ st. status_delta st b.status in_progress) now s

  abbrev ended : WriteAction → WriteActionStatus → Option String → Option String → WriteActionStore
  ended b status e c =
      replace a.action_id (with_status (taken b) status e c now)
        (λ st. status_delta st (taken b).status status) now (started b)

  abbrev again : WriteAction → String → WriteActionStore
  again b message =
      replace a.action_id (retried (taken b) message now) (retry_delta (taken b).status) now
        (started b)

  Stands-started :
      (b : WriteAction) → Stands a.action_id b s → Stands a.action_id (taken b) (started b)
  Stands-started b h =
      Stands-replace a.action_id a.action_id (taken b) _ now s
        (with_status-id a.action_id in_progress none none now s b h)
      ∙ ground (arith, (eq_iff a.action_id a.action_id).1 refl)

  fail_action-lem :
      (b : WriteAction) (message : String)
      → Stands a.action_id b s
      → fail_action a message now (started b) ≡ (
          if ltb a.retry_count a.max_retries
          then (again b message, none)
          else (ended b failed (some message) none, some message))
  unfolding fail_action
  fail_action-lem b message h = rw (
    fail_action,
    update_action_retry-replace a.action_id message now (started b) (taken b) (Stands-started b h),
    update_action_status-replace a.action_id failed (some message) none now (started b) (taken b)
        (Stands-started b h),
  )

  execute_action-returns :
      (b : WriteAction)
      → Stands a.action_id b s
      → executor a ≡ none
      → execute_action executor a now s ≡ (ended b completed none (some now), none)
  unfolding execute_action
  execute_action-returns b h e = rw (
    execute_action,
    update_action_status-replace a.action_id in_progress none none now s b h,
    e,
    update_action_status-replace a.action_id completed none (some now) now (started b) (taken b)
        (Stands-started b h),
  )

  execute_action-throws :
      (b : WriteAction) (message : String)
      → Stands a.action_id b s
      → executor a ≡ some message
      → execute_action executor a now s ≡ (
          if ltb a.retry_count a.max_retries
          then (again b message, none)
          else (ended b failed (some message) none, some message))
  unfolding execute_action
  execute_action-throws b message h e =
      rw
        (
          execute_action,
          update_action_status-replace a.action_id in_progress none none now s b h,
          e,
        )
        (fail_action-lem b message h)

  pub execute_action-missing :
      OrderedMap.get a.action_id (load_queue s) ≡ none
      → execute_action executor a now s ≡ (s, some not_found)
  unfolding execute_action fail_action update_action_status update_action_retry
  execute_action-missing h = ground (arith, h)

  taken-id : (b : WriteAction) → Stands a.action_id b s → (taken b).action_id ≡ a.action_id
  taken-id b h = with_status-id a.action_id in_progress none none now s b h

  load_queue-replace-started :
      (b c : WriteAction) (delta : WriteActionStatus → Delta)
      → Stands a.action_id b s
      → c.action_id ≡ a.action_id
      → load_queue (replace a.action_id c delta now (started b))
        ≡ OrderedMap.set a.action_id c (load_queue s)
  load_queue-replace-started b c delta h e =
      load_queue-replace a.action_id c delta now (started b) e
      ∙ ap (OrderedMap.set a.action_id c) (
          load_queue-replace a.action_id (taken b) (λ st. status_delta st b.status in_progress) now
            s (taken-id b h))
      ∙ set-set a.action_id (taken b) c (load_queue s)

  -- the entry that the action has after its execution
  abbrev pub executed_entry : WriteAction → WriteAction
  executed_entry b = elim (executor a) [
    | none ↦ record b { status = completed; updated_at = now; completed_at = some now }
    | some message ↦
        if ltb a.retry_count a.max_retries
        then record b {
          status = pending;
          retry_count = b.retry_count + 1;
          last_error = some message;
          last_retry_at = some now;
          updated_at = now;
        }
        else record b {
          status = failed;
          last_error = or_keep (nonempty (some message)) b.last_error;
          updated_at = now;
        }
  ]

  -- Executing an action that the queue holds saves the queue with that one entry changed and no other:
  -- completed if the executor returned, pending with one retry more if it threw and the action has
  -- retries left, failed otherwise.
  pub load_queue-execute_action :
      (b : WriteAction)
      → Stands a.action_id b s
      → load_queue (execute_action executor a now s).0
        ≡ OrderedMap.set a.action_id (executed_entry b) (load_queue s)
  unfolding with_status retried
  load_queue-execute_action b h = elim (Option-cases (executor a)) [
    | inl fine ↦
        rw (execute_action-returns b h fine, executed_entry, fine)
          (load_queue-replace-started b _ _ h (
            with_status-id a.action_id completed none (some now) now (started b) (taken b)
              (Stands-started b h)))
    | inr (message, thrown) ↦ elim (Bool-cases (ltb a.retry_count a.max_retries)) [
      | inl more ↦
          rw (execute_action-throws b message h thrown, executed_entry, thrown, more)
            (load_queue-replace-started b _ _ h
              (retried-id a.action_id message now (started b) (taken b) (Stands-started b h)))
      | inr over ↦
          rw (execute_action-throws b message h thrown, executed_entry, thrown, over)
            (load_queue-replace-started b _ _ h (
              with_status-id a.action_id failed (some message) none now (started b) (taken b)
                (Stands-started b h)))
    ]
  ]

  ended-IsCounted :
      (b : WriteAction) (status : WriteActionStatus) (e c : Option String)
      → Stands a.action_id b s
      → IsCounted (started b)
      → IsCounted (ended b status e c)
  ended-IsCounted b status e c h k =
      status_replace-IsCounted a.action_id status e c now (started b) (taken b) k
        (Stands-started b h)

  pub execute_action-IsCounted : IsCounted s → IsCounted (execute_action executor a now s).0
  execute_action-IsCounted c = elim (Option-cases (OrderedMap.get a.action_id (load_queue s))) [
    | inl missing ↦ rw (execute_action-missing missing) c
    | inr (b, h) ↦
        let k = status_replace-IsCounted a.action_id in_progress none none now s b c h in
        elim (Option-cases (executor a)) [
          | inl fine ↦
              rw (execute_action-returns b h fine) (ended-IsCounted b completed none (some now) h k)
          | inr (message, thrown) ↦ elim (Bool-cases (ltb a.retry_count a.max_retries)) [
            | inl more ↦
                rw (execute_action-throws b message h thrown, more)
                  (retry_replace-IsCounted a.action_id message now (started b) (taken b) k
                    (Stands-started b h) (inr (unfold with_status in refl)))
            | inr over ↦
                rw (execute_action-throws b message h thrown, over)
                  (ended-IsCounted b failed (some message) none h k)
          ]
        ]
  ]
