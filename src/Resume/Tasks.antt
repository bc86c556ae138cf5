-- ===== src/Resume/Tasks.antt =====
-- getResumableTasks of src/workflows/resumeQueueRecovery.ts.
pub mod Seen
pub mod Filters
use codemachine_pipeline.Prelude.{
  ◌≡◌, refl, sym, ap, subst, ◌∙◌, String, Bool, true, false, not, ◌&&◌, ◌||◌, List, [], ◌∷◌, ◌++◌,
  if◌then◌else◌, filter, contains, map, All, All-map, arith, Bool-cases, inl, inr, append-nil,
  append_assoc, str_eq, eq_iff, ◌≤◌, ℕ, length, take,
}
use codemachine_pipeline.Prelude.OrderedMap.{OrderedMap, values}
use codemachine_pipeline.Queue.Types.{ExecutionTask, pending, running, status_eq, can_retry}
use codemachine_pipeline.Queue.Index.{all_completed}

-- `addTask`, with the ids that it has seen
unfoldable pub add_unseen :
    ExecutionTask → List ExecutionTask × List String → List ExecutionTask × List String
add_unseen t (ready, seen) =
    if contains seen t.task_id then (ready, seen) else (ready ++ t ∷ [], seen ++ t.task_id ∷ [])

-- one of the three loops
unfoldable pub add_all :
    (ExecutionTask → Bool)
    → List ExecutionTask
    → List ExecutionTask × List String
    → List ExecutionTask × List String
unfolding add_unseen
add_all test [] r = r
add_all test (t ∷ ts) r = add_all test ts (if test t then add_unseen t r else r)

unfoldable pub was_running : OrderedMap ExecutionTask → ExecutionTask → Bool
was_running tasks t = status_eq t.status running && all_completed tasks t.dependency_ids

unfoldable pub is_waiting : OrderedMap ExecutionTask → ExecutionTask → Bool
is_waiting tasks t = status_eq t.status pending && all_completed tasks t.dependency_ids

unfoldable pub is_retryable_now : OrderedMap ExecutionTask → ExecutionTask → Bool
is_retryable_now tasks t = can_retry t && all_completed tasks t.dependency_ids

unfoldable pub get_resumable_tasks : OrderedMap ExecutionTask → List ExecutionTask
unfolding add_all was_running is_waiting is_retryable_now
get_resumable_tasks tasks =
    (add_all (is_retryable_now tasks) (values tasks) (
      add_all (is_waiting tasks) (values tasks)
        (add_all (was_running tasks) (values tasks) ([], [])))).0
