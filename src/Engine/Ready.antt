-- ===== src/Engine/Ready.antt =====
-- src/workflows/executionDependencyResolver.ts: which tasks to dispatch next, and how long to wait
-- before a retry.
pub mod Order
use codemachine_pipeline.Prelude.{
  ℕ, zero, suc, ◌+◌, ◌-◌, ◌*◌, ◌^◌, min, String, Bool, true, false, not, ◌&&◌, ◌||◌, List, [], ◌∷◌,
  ◌++◌, leb, if◌then◌else◌, length, take, contains,
}
use codemachine_pipeline.Prelude.OrderedMap.{OrderedMap, values}
use codemachine_pipeline.Queue.Types.{ExecutionTask, pending, running, status_eq, can_retry}
use codemachine_pipeline.Queue.Index.{all_completed}

pub record Buckets : Type 0 where
  pub running : List ExecutionTask
  pub pending : List ExecutionTask
  pub retryable : List ExecutionTask

-- the last part of the loop's body: the bucket of a task that can be dispatched
unfoldable pub push : Buckets → ExecutionTask → Buckets
push b t =
    if status_eq t.status running
    then record b { running = b.running ++ t ∷ [] }
    else if status_eq t.status pending
    then record b { pending = b.pending ++ t ∷ [] }
    else if can_retry t
    then record b { retryable = b.retryable ++ t ∷ [] }
    else b

-- No more than running and pending tasks are wanted, and this is neither.
unfoldable pub is_surplus : ℕ → Buckets → ExecutionTask → Bool
is_surplus limit b t =
    leb limit (length b.running + length b.pending)
    && not (status_eq t.status running)
    && not (status_eq t.status pending)

module _ (all_tasks : OrderedMap ExecutionTask) (in_flight : List String) (limit : ℕ) where
  -- the `for` loop; its first test is a `break`, the others are `continue`
  unfoldable pub fill : Buckets → List ExecutionTask → Buckets
  fill b [] = b
  fill b (t ∷ ts) =
      let rest = fill b ts in
      let kept = fill (push b t) ts in
      if leb limit (length b.running)
      then b
      else if contains in_flight t.task_id
      then rest
      else if is_surplus limit b t
      then rest
      else if not (all_completed all_tasks t.dependency_ids)
      then rest
      else kept

  unfoldable pub get_ready_tasks : List ExecutionTask
  unfolding fill push is_surplus
  get_ready_tasks =
      let b = fill (record { running = []; pending = []; retryable = [] }) (values all_tasks) in
      if leb limit 0 then [] else take limit (b.running ++ (b.pending ++ b.retryable))

-- `Math.min(base * 2 ** (retryCount - 1), 60000)`, for a count that is not 0
unfoldable pub retry_backoff_ms : ℕ → ℕ → ℕ
retry_backoff_ms base retry_count = min (base * 2 ^ (retry_count - 1)) 60000
