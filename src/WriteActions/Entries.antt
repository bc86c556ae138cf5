-- ===== src/WriteActions/Entries.antt =====
-- What an update of one action's entry, or a new entry, does to the counts.
use codemachine_pipeline.Prelude.{
  ℕ, ◌+◌, ◌≡◌, sym, ap, ◌∙◌, String, Option, none, some, [], ◌∷◌, ◌++◌, arith, str_eq,
  if◌then◌else◌, ◌⊎◌, length, length-append,
}
use codemachine_pipeline.Prelude.OrderedMap
use codemachine_pipeline.Prelude.OrderedMap.{OrderedMap, values, get-set}
use codemachine_pipeline.WriteActions.{
  WriteAction, WriteActionStatus, pending, in_progress, status_eq, WriteActionStore, Delta,
  load_queue, save_queue, append_action, shift, update_manifest_counts, status_delta, retry_delta,
  enqueue_delta, with_status, update_action_status, retried, update_action_retry,
}
use codemachine_pipeline.WriteActions.Lines.{
  set-IsKeyed, set_new, load_queue-IsKeyed, load_queue-save_queue, load_queue-append_action,
}
use codemachine_pipeline.WriteActions.Counts.{
  IsCounted, count_of-save_queue, count_of-update_manifest_counts, get-IsKeyed, length-set, one,
  retry_delta_lem, status_delta_lem, sum_of-append, sum_of-set, tally,
}

-- what the store is when one action's entry is saved anew
abbrev pub replace :
    String
    → WriteAction
    → (WriteActionStatus → Delta)
    → String
    → WriteActionStore
    → WriteActionStore
replace id b delta now s =
    update_manifest_counts 0 delta now (save_queue (OrderedMap.set id b (load_queue s)) now s)

pub load_queue-replace :
    (id : String) (b : WriteAction) (delta : WriteActionStatus → Delta) (now : String)
    (s : WriteActionStore)
    → b.action_id ≡ id
    → load_queue (replace id b delta now s) ≡ OrderedMap.set id b (load_queue s)
unfolding update_manifest_counts load_queue
load_queue-replace id b delta now s e =
    load_queue-save_queue (OrderedMap.set id b (load_queue s)) now s
      (set-IsKeyed id b (load_queue s) e (load_queue-IsKeyed s))

total-replace :
    (id : String) (b : WriteAction) (delta : WriteActionStatus → Delta) (now : String)
    (s : WriteActionStore)
    → (replace id b delta now s).manifest.total_actions ≡ s.manifest.total_actions
unfolding update_manifest_counts save_queue
total-replace id b delta now s = omega arith

replace-IsCounted :
    (id : String) (a b : WriteAction) (delta : WriteActionStatus → Delta) (now : String)
    (s : WriteActionStore)
    → IsCounted s
    → OrderedMap.get id (load_queue s) ≡ some a
    → b.action_id ≡ id
    → ((st : WriteActionStatus) (n k : ℕ)
        → k + one st a.status ≡ n + one st b.status
        → shift (delta st) n ≡ k)
    → IsCounted (replace id b delta now s)
replace-IsCounted id a b delta now s c h e d = (
  λ st.
      count_of-update_manifest_counts st 0 delta now
        (save_queue (OrderedMap.set id b (load_queue s)) now s)
      ∙ ap (shift (delta st)) (count_of-save_queue st _ now s ∙ c.0 st)
      ∙ d st (tally st (load_queue s)) (tally st (OrderedMap.set id b (load_queue s)))
          (sum_of-set (λ c. one st c.status) id a b (load_queue s) h)
      ∙ sym (ap (tally st) (load_queue-replace id b delta now s e)),
  total-replace id b delta now s
      ∙ c.1
      ∙ sym (length-set id a b (load_queue s) h)
      ∙ sym (ap length (load_queue-replace id b delta now s e)),
)

some-injective {ℓ} : {A : Type ℓ} (a b : A) → some a ≡ some b → a ≡ b
some-injective a b h = ground (arith, h)

-- the action of that id is in the file
abbrev pub Stands : String → WriteAction → WriteActionStore → Type 0
Stands id a s = OrderedMap.get id (load_queue s) ≡ some a

pub update_action_status-replace :
    (id : String) (status : WriteActionStatus) (e c : Option String) (now : String)
    (s : WriteActionStore) (a : WriteAction)
    → Stands id a s
    → update_action_status id status e c now s
      ≡ some
          (replace id (with_status a status e c now) (λ st. status_delta st a.status status) now s)
unfolding update_action_status
update_action_status-replace id status e c now s a h = rw (update_action_status, h)

pub update_action_retry-replace :
    (id message now : String) (s : WriteActionStore) (a : WriteAction)
    → Stands id a s
    → update_action_retry id message now s
      ≡ some (replace id (retried a message now) (retry_delta a.status) now s)
unfolding update_action_retry
update_action_retry-replace id message now s a h = rw (update_action_retry, h)

pub with_status-id :
    (id : String) (status : WriteActionStatus) (e c : Option String) (now : String)
    (s : WriteActionStore) (a : WriteAction)
    → Stands id a s
    → (with_status a status e c now).action_id ≡ id
unfolding with_status
with_status-id id status e c now s a h = get-IsKeyed id a (load_queue s) (load_queue-IsKeyed s) h

pub retried-id :
    (id message now : String) (s : WriteActionStore) (a : WriteAction)
    → Stands id a s
    → (retried a message now).action_id ≡ id
unfolding retried
retried-id id message now s a h = get-IsKeyed id a (load_queue s) (load_queue-IsKeyed s) h

-- after an update of an action that is there
pub status_replace-IsCounted :
    (id : String) (status : WriteActionStatus) (e c : Option String) (now : String)
    (s : WriteActionStore) (a : WriteAction)
    → IsCounted s
    → Stands id a s
    → IsCounted
        (replace id (with_status a status e c now) (λ st. status_delta st a.status status) now s)
unfolding with_status
status_replace-IsCounted id status e c now s a k h =
    replace-IsCounted id a (with_status a status e c now) _ now s k h
      (with_status-id id status e c now s a h) (λ st n m. status_delta_lem st a.status status n m)

pub retry_replace-IsCounted :
    (id message now : String) (s : WriteActionStore) (a : WriteAction)
    → IsCounted s
    → Stands id a s
    → (a.status ≡ pending) ⊎ (a.status ≡ in_progress)
    → IsCounted (replace id (retried a message now) (retry_delta a.status) now s)
unfolding retried
retry_replace-IsCounted id message now s a k h o =
    replace-IsCounted id a (retried a message now) _ now s k h (retried-id id message now s a h)
      (λ st n m e. retry_delta_lem st a.status n m e o)

pub Stands-replace :
    (id j : String) (b : WriteAction) (delta : WriteActionStatus → Delta) (now : String)
    (s : WriteActionStore)
    → b.action_id ≡ id
    → OrderedMap.get j (load_queue (replace id b delta now s))
      ≡ (if str_eq id j then some b else OrderedMap.get j (load_queue s))
Stands-replace id j b delta now s e =
    ap (OrderedMap.get j) (load_queue-replace id b delta now s e) ∙ get-set id j b (load_queue s)

-- a new action, with an id that is not there
abbrev pub added : WriteAction → WriteActionStore → WriteActionStore
added a s = update_manifest_counts 1 enqueue_delta a.created_at (append_action a s)

enqueue_delta_lem :
    (st x : WriteActionStatus) (n k : ℕ)
    → x ≡ pending
    → n ≡ k
    → shift (enqueue_delta st) n ≡ one st x + k
unfolding enqueue_delta shift status_eq
enqueue_delta_lem st x n k e h = ground (arith, h, e)

pub load_queue-added :
    (a : WriteAction) (s : WriteActionStore)
    → OrderedMap.get a.action_id (load_queue s) ≡ none
    → load_queue (added a s) ≡ load_queue s ++ (a.action_id, a) ∷ []
unfolding update_manifest_counts load_queue
load_queue-added a s h = load_queue-append_action a s ∙ set_new a.action_id a (load_queue s) h

pub added-IsCounted :
    (a : WriteAction) (s : WriteActionStore)
    → a.status ≡ pending
    → OrderedMap.get a.action_id (load_queue s) ≡ none
    → IsCounted s
    → IsCounted (added a s)
unfolding append_action update_manifest_counts
added-IsCounted a s p h c = (
  λ st.
      count_of-update_manifest_counts st 1 enqueue_delta a.created_at (append_action a s)
      ∙ enqueue_delta_lem st a.status _ _ p (c.0 st)
      ∙ sym (sum_of-append (λ c. one st c.status) a.action_id a (load_queue s))
      ∙ sym (ap (tally st) (load_queue-added a s h)),
  omega (
    arith,
    c.1,
    length-append (load_queue s) ((a.action_id, a) ∷ []),
    ap length (load_queue-added a s h),
  ),
)
