-- ===== src/WriteActions/Tests.antt =====
-- A queue of two comments that are to be posted.
use codemachine_pipeline.Prelude.{
  ◌≤◌, ◌<◌, ◌≡◌, refl, String, Bool, true, false, Option, none, some, List, [], ◌∷◌, length, arith,
  str_eq, min, ◌-◌,
}
use codemachine_pipeline.Prelude.OrderedMap
use codemachine_pipeline.Queue.Types.{null}
use codemachine_pipeline.RateLimits.{CooldownStatus}
use codemachine_pipeline.WriteActions.{
  WriteAction, WriteActionStore, pr_comment, pending, new_action, in_progress, status_eq,
  load_lines, find_by_idempotency_key, update_action_status, update_action_retry, load_queue,
  enqueue, clear_completed,
}
use codemachine_pipeline.WriteActions.Execute.{
  execute_action, execute_all, drain, with_status_of, pending_actions,
}
use codemachine_pipeline.WriteActions.Counts.{IsCounted, tally}
use codemachine_pipeline.WriteActions.Entries.{Stands}
use codemachine_pipeline.WriteActions.Runs.{executed_entry, load_queue-execute_action}
use codemachine_pipeline.WriteActions.Invariant.{
  Steps, finish, after_step, enqueued, drained, Steps-IsCounted, HasUniqueKeys, Steps-HasUniqueKeys,
}
use codemachine_pipeline.WriteActions.Progress.{drain-limit, attempts_left}
use codemachine_pipeline.WriteActions.Finish.{drain_each, drain_each-finishes}
use codemachine_pipeline.WriteActions.Idempotent.{enqueue-enqueue}

abbrev empty_store : WriteActionStore
empty_store = record {
  lines = [];
  manifest = record {
    total_actions = 0;
    pending_count = 0;
    in_progress_count = 0;
    completed_count = 0;
    failed_count = 0;
    skipped_count = 0;
    updated_at = "t0";
  };
}

abbrev comment : String → String → WriteAction
comment id key = new_action id pr_comment "github" "o" "r" null key 1 "t1"

abbrev one_comment : WriteActionStore
one_comment = (enqueue (comment "a" "k1") empty_store).0

abbrev two_comments : WriteActionStore
two_comments = (enqueue (comment "b" "k2") one_comment).0

abbrev in_order : String → String → Bool
in_order x y = true

-- the post of "b" fails, and that of "a" does not
abbrev posts : WriteAction → Option String
posts a = if_b (str_eq a.action_id "b")
  where
    if_b : Bool → Option String
    if_b true = some "no answer"
    if_b false = none

abbrev no_cooldown : CooldownStatus
no_cooldown = record { in_cooldown = false; requires_manual_ack = false }

empty_store-IsCounted : IsCounted empty_store
unfolding load_queue
empty_store-IsCounted = (λ st. ground arith, refl)

empty_store-HasUniqueKeys : HasUniqueKeys empty_store
unfolding load_queue
empty_store-HasUniqueKeys = tt

comment-status : (id key : String) → (comment id key).status ≡ pending
unfolding new_action
comment-status id key = refl

fresh_a : OrderedMap.get (comment "a" "k1").action_id (load_queue empty_store) ≡ none
unfolding new_action load_queue load_lines OrderedMap.get
fresh_a = refl

fresh_b : OrderedMap.get (comment "b" "k2").action_id (load_queue one_comment) ≡ none
unfolding new_action load_queue load_lines OrderedMap.get OrderedMap.set enqueue
    find_by_idempotency_key
fresh_b = refl

abbrev drained_once : WriteActionStore
drained_once = (drain in_order 2 no_cooldown posts "t2" two_comments).0

life : Steps in_order empty_store drained_once
life = after_step (enqueued (comment "a" "k1") (comment-status "a" "k1") fresh_a) (
    after_step (enqueued (comment "b" "k2") (comment-status "b" "k2") fresh_b)
      (after_step (drained 2 no_cooldown posts "t2") finish))

Steps-IsCounted_example : IsCounted drained_once
Steps-IsCounted_example = Steps-IsCounted in_order life empty_store-IsCounted

Steps-HasUniqueKeys_example : HasUniqueKeys drained_once
Steps-HasUniqueKeys_example = Steps-HasUniqueKeys in_order life empty_store-HasUniqueKeys

b-Stands : Stands (comment "b" "k2").action_id (comment "b" "k2") two_comments
unfolding new_action load_queue load_lines OrderedMap.get OrderedMap.set enqueue
    find_by_idempotency_key
b-Stands = refl

load_queue-execute_action_example :
    load_queue (execute_action posts (comment "b" "k2") "t2" two_comments).0
    ≡ OrderedMap.set
        (comment "b" "k2").action_id
        (executed_entry posts (comment "b" "k2") "t2" two_comments (comment "b" "k2"))
        (load_queue two_comments)
load_queue-execute_action_example =
    load_queue-execute_action posts (comment "b" "k2") "t2" two_comments (comment "b" "k2") b-Stands

drain-limit_example :
    (drain in_order 1 no_cooldown posts "t2" two_comments).1.actions_affected
    ≡ min
        (1 - length (with_status_of in_order in_progress (load_queue two_comments)))
        (length (pending_actions in_order (load_queue two_comments)))
drain-limit_example = drain-limit in_order 1 no_cooldown posts "t2" two_comments

abbrev runs : List ((WriteAction → Option String) × String)
runs = (posts, "t2") ∷ (posts, "t3") ∷ (posts, "t4") ∷ (posts, "t5") ∷ []

none_in_progress : tally in_progress (load_queue two_comments) < 1
unfolding new_action load_queue load_lines OrderedMap.set enqueue find_by_idempotency_key status_eq
none_in_progress = omega arith

four_attempts : attempts_left two_comments ≤ length runs
unfolding new_action load_queue load_lines OrderedMap.set enqueue find_by_idempotency_key
four_attempts = omega arith

drain_each-finishes_example :
    tally pending (load_queue (drain_each in_order 1 runs two_comments)) ≡ 0
drain_each-finishes_example =
    drain_each-finishes in_order 1 runs two_comments none_in_progress four_attempts

-- The clearing takes the one action that is over.
one_cleared : (clear_completed "t3" drained_once).1 ≡ 1
unfolding new_action load_queue load_lines OrderedMap.get OrderedMap.set enqueue
    find_by_idempotency_key clear_completed drain execute_all execute_action update_action_status
    update_action_retry
one_cleared = refl

enqueue-enqueue_example :
    enqueue (comment "c" "k1") (enqueue (comment "a" "k1") empty_store).0
    ≡ enqueue (comment "a" "k1") empty_store
unfolding new_action
enqueue-enqueue_example =
    enqueue-enqueue (comment "a" "k1") (comment "c" "k1") empty_store fresh_a refl
