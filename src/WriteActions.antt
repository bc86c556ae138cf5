-- ===== src/WriteActions.antt =====
-- src/workflows/writeActionStore.ts and writeActionQueue.ts: the queue of write operations on GitHub.
-- What runs under the run directory's lock is one step; the lines of the file are those that this code
-- writes. The key of an action, its id, the clock and what the executor does are arguments.
pub mod Entries
pub mod Execute
pub mod Lines
pub mod Counts
pub mod Runs
pub mod Invariant
pub mod Progress
pub mod Finish
pub mod Idempotent
pub mod Chosen
mod Tests
use codemachine_pipeline.Prelude.{
  nonempty, ℕ, suc, ◌+◌, ◌-◌, ◌*◌, ◌^◌, min, String, Bool, true, false, not, ◌&&◌, ◌||◌, Option,
  none, some, List, [], ◌∷◌, ◌++◌, ltb, leb, str_eq, if◌then◌else◌, take, filter, length, head?,
}
use codemachine_pipeline.Prelude.OrderedMap
use codemachine_pipeline.Prelude.OrderedMap.{OrderedMap, values}
use codemachine_pipeline.Queue.Types.{Json, or_keep}
use codemachine_pipeline.RateLimits.{CooldownStatus}

pub data WriteActionType : Type 0 where
  pr_comment pr_label pr_review_request pr_update issue_comment : WriteActionType

pub data WriteActionStatus : Type 0 where
  pending in_progress completed failed skipped : WriteActionStatus

-- `a === b` on statuses
unfoldable pub status_eq : WriteActionStatus → WriteActionStatus → Bool
status_eq pending pending = true
status_eq in_progress in_progress = true
status_eq completed completed = true
status_eq failed failed = true
status_eq skipped skipped = true
status_eq _ _ = false

-- The payload is kept and not looked into.
pub record WriteAction : Type 0 where
  pub action_id : String
  pub action_type : WriteActionType
  pub provider : String
  pub owner : String
  pub repo : String
  pub payload : Json
  pub idempotency_key : String
  pub status : WriteActionStatus
  pub retry_count : ℕ
  pub max_retries : ℕ
  pub last_error : Option String
  pub last_retry_at : Option String
  pub created_at : String
  pub updated_at : String
  pub completed_at : Option String

pub record WriteActionQueueManifest : Type 0 where
  pub total_actions : ℕ
  pub pending_count : ℕ
  pub in_progress_count : ℕ
  pub completed_count : ℕ
  pub failed_count : ℕ
  pub skipped_count : ℕ
  pub updated_at : String

-- queue.jsonl, a line for each action, and manifest.json
pub record WriteActionStore : Type 0 where
  pub lines : List WriteAction
  pub manifest : WriteActionQueueManifest

-- `actions.set(action_id, action)` for each line
unfoldable pub load_lines : List WriteAction → OrderedMap WriteAction → OrderedMap WriteAction
load_lines [] actions = actions
load_lines (a ∷ rest) actions = load_lines rest (OrderedMap.set a.action_id a actions)

unfoldable pub load_queue : WriteActionStore → OrderedMap WriteAction
unfolding load_lines
load_queue s = load_lines s.lines []

unfoldable pub save_queue : OrderedMap WriteAction → String → WriteActionStore → WriteActionStore
save_queue actions now s = record s {
  lines = values actions;
  manifest = record (s.manifest) { updated_at = now };
}

unfoldable pub append_action : WriteAction → WriteActionStore → WriteActionStore
append_action a s = record s { lines = s.lines ++ a ∷ [] }

unfoldable pub find_by_idempotency_key : String → WriteActionStore → Option WriteAction
unfolding load_queue
find_by_idempotency_key key s =
    head? (filter (λ a. str_eq a.idempotency_key key) (values (load_queue s)))

-- a change of a count by 1, 0 or -1
pub data Delta : Type 0 where
  up same down : Delta

-- `Math.max(0, count + delta)`
unfoldable pub shift : Delta → ℕ → ℕ
shift up n = n + 1
shift same n = n
shift down n = n - 1

-- `total` is what is added to the total.
unfoldable pub update_manifest_counts :
    ℕ → (WriteActionStatus → Delta) → String → WriteActionStore → WriteActionStore
unfolding shift
update_manifest_counts total delta now s =
    let m = s.manifest in
    record s {
      manifest = record {
        total_actions = m.total_actions + total;
        pending_count = shift (delta pending) m.pending_count;
        in_progress_count = shift (delta in_progress) m.in_progress_count;
        completed_count = shift (delta completed) m.completed_count;
        failed_count = shift (delta failed) m.failed_count;
        skipped_count = shift (delta skipped) m.skipped_count;
        updated_at = now;
      };
    }

-- `statusDelta(target, oldStatus, newStatus)`
unfoldable pub status_delta : WriteActionStatus → WriteActionStatus → WriteActionStatus → Delta
unfolding status_eq
status_delta target old new =
    if status_eq old new
    then same
    else if status_eq new target
    then up
    else if status_eq old target
    then down
    else same

-- the counts of `updateActionRetry`, which puts an action back to pending
unfoldable pub retry_delta : WriteActionStatus → WriteActionStatus → Delta
unfolding status_eq
retry_delta old pending = if status_eq old pending then same else up
retry_delta old in_progress = if status_eq old in_progress then down else same
retry_delta old _ = same

unfoldable pub new_action :
    String → WriteActionType → String → String → String → Json → String → ℕ → String → WriteAction
new_action id action_type provider owner repo payload key max_retries now = record {
  action_id = id;
  action_type = action_type;
  provider = provider;
  owner = owner;
  repo = repo;
  payload = payload;
  idempotency_key = key;
  status = pending;
  retry_count = 0;
  max_retries = max_retries;
  last_error = none;
  last_retry_at = none;
  created_at = now;
  updated_at = now;
  completed_at = none;
}

-- one action more, and it is pending
unfoldable pub enqueue_delta : WriteActionStatus → Delta
enqueue_delta pending = up
enqueue_delta _ = same

-- `enqueue`, given the action that it would make
unfoldable pub enqueue : WriteAction → WriteActionStore → WriteActionStore × WriteAction
unfolding find_by_idempotency_key append_action update_manifest_counts enqueue_delta
enqueue action s = elim (find_by_idempotency_key action.idempotency_key s) [
  | some known ↦ (s, known)
  | none ↦
      (update_manifest_counts 1 enqueue_delta action.created_at (append_action action s), action)
]

unfoldable pub with_status :
    WriteAction → WriteActionStatus → Option String → Option String → String → WriteAction
with_status a status last_error completed_at now = record a {
  status = status;
  updated_at = now;
  last_error = or_keep (nonempty last_error) a.last_error;
  completed_at = or_keep completed_at a.completed_at;
}

unfoldable pub update_action_status :
    String
    → WriteActionStatus
    → Option String
    → Option String
    → String
    → WriteActionStore
    → Option WriteActionStore
unfolding load_queue save_queue update_manifest_counts status_delta with_status
update_action_status id status last_error completed_at now s =
    elim (OrderedMap.get id (load_queue s)) [
      | none ↦ none
      | some a ↦ some (
          update_manifest_counts 0 (λ target. status_delta target a.status status) now
            (save_queue
              (OrderedMap.set id (with_status a status last_error completed_at now) (load_queue s))
              now s))
    ]

unfoldable pub retried : WriteAction → String → String → WriteAction
retried a message now = record a {
  retry_count = a.retry_count + 1;
  last_error = some message;
  last_retry_at = some now;
  status = pending;
  updated_at = now;
}

unfoldable pub update_action_retry :
    String → String → String → WriteActionStore → Option WriteActionStore
unfolding load_queue save_queue update_manifest_counts retry_delta retried
update_action_retry id message now s = elim (OrderedMap.get id (load_queue s)) [
  | none ↦ none
  | some a ↦ some (
      update_manifest_counts 0 (retry_delta a.status) now
        (save_queue (OrderedMap.set id (retried a message now) (load_queue s)) now s))
]

-- `clearCompleted`: the counts of the manifest stay.
unfoldable pub is_over : WriteAction → Bool
is_over a = status_eq a.status completed || status_eq a.status failed || status_eq a.status skipped

unfoldable pub keep_open : OrderedMap WriteAction → OrderedMap WriteAction
unfolding is_over status_eq
keep_open [] = []
keep_open ((id, a) ∷ actions) =
    let rest = keep_open actions in if is_over a then rest else (id, a) ∷ rest

unfoldable pub clear_completed : String → WriteActionStore → WriteActionStore × ℕ
unfolding load_queue keep_open save_queue
clear_completed now s =
    let actions = load_queue s in
    let kept = keep_open actions in (save_queue kept now s, length actions - length kept)
