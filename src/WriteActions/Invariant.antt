-- ===== src/WriteActions/Invariant.antt =====
-- What enqueue, drain and clearing keep of the queue's store.
use codemachine_pipeline.Prelude.{
  ℕ, ◌+◌, ◌≤◌, ◌≡◌, refl, sym, ap, subst, ◌∙◌, String, Bool, false, Option, none, some, List, [],
  ◌∷◌, ◌++◌, arith, Bool-cases, Option-cases, inl, inr, str_eq, eq_iff, length, head?, filter,
  contains, ◌==◌, ◌||◌,
}
use codemachine_pipeline.Prelude.OrderedMap
use codemachine_pipeline.Prelude.OrderedMap.{OrderedMap, values}
use codemachine_pipeline.RateLimits.{CooldownStatus}
use codemachine_pipeline.WriteActions.{
  WriteAction, pending, WriteActionStore, load_queue, save_queue, find_by_idempotency_key, enqueue,
  keep_open, clear_completed, is_over,
}
use codemachine_pipeline.WriteActions.Execute.{
  execute_action, execute_all, drain, actions_to_execute, pending_actions,
}
use codemachine_pipeline.WriteActions.Lines.{IsKeyed, load_queue-IsKeyed, load_queue-save_queue}
use codemachine_pipeline.WriteActions.Counts.{IsCounted}
use codemachine_pipeline.WriteActions.Entries.{added, added-IsCounted, load_queue-added}
use codemachine_pipeline.WriteActions.Runs.{
  execute_action-IsCounted, execute_action-missing, executed_entry, load_queue-execute_action,
}

-- The keys of the actions, in the order of the map.
abbrev pub idempotency_keys : OrderedMap WriteAction → List String
idempotency_keys [] = []
idempotency_keys ((id, a) ∷ m) = a.idempotency_key ∷ idempotency_keys m

abbrev pub IsUnique : List String → Type 0
IsUnique [] = Unit
IsUnique (x ∷ xs) = (contains xs x ≡ false) × IsUnique xs

-- A step of the queue's life. Ids are fresh, and a drain has any limit, status and executor.
module _ (not_after : String → String → Bool) where
  pub data Step : WriteActionStore → WriteActionStore → Type 0 where
    enqueued :
        {s : WriteActionStore} (a : WriteAction)
        → a.status ≡ pending
        → OrderedMap.get a.action_id (load_queue s) ≡ none
        → Step s (enqueue a s).0
    drained :
        {s : WriteActionStore} (limit : ℕ) (cooldown : CooldownStatus)
        (executor : WriteAction → Option String) (now : String)
        → Step s (drain not_after limit cooldown executor now s).0

  pub data Steps : WriteActionStore → WriteActionStore → Type 0 where
    finish : {s : WriteActionStore} → Steps s s
    after_step : {s t u : WriteActionStore} → Step s t → Steps t u → Steps s u

idempotency_keys-set :
    (id : String) (a b : WriteAction) (m : OrderedMap WriteAction)
    → OrderedMap.get id m ≡ some a
    → b.idempotency_key ≡ a.idempotency_key
    → idempotency_keys (OrderedMap.set id b m) ≡ idempotency_keys m
unfolding OrderedMap.get OrderedMap.set
idempotency_keys-set id a b [] h e = ground (arith, h)
idempotency_keys-set id a b ((j, c) ∷ m) h e = elim (Bool-cases (str_eq j id)) [
  | inl same ↦
      let f : c ≡ a = ground (arith, same, h) in
      rw same (
        ap (λ key. key ∷ idempotency_keys m)
          (e ∙ sym (ap (λ (x : WriteAction). x.idempotency_key) f)))
  | inr other ↦ rw other (
      ap (λ keys. c.idempotency_key ∷ keys)
        (idempotency_keys-set id a b m ground (arith, other, h) e))
]

executed_entry-key :
    (executor : WriteAction → Option String) (a : WriteAction) (now : String) (s : WriteActionStore)
    (b : WriteAction)
    → (executed_entry executor a now s b).idempotency_key ≡ b.idempotency_key
executed_entry-key executor a now s b = ground arith

execute_action-keys :
    (executor : WriteAction → Option String) (a : WriteAction) (now : String) (s : WriteActionStore)
    → idempotency_keys (load_queue (execute_action executor a now s).0)
      ≡ idempotency_keys (load_queue s)
execute_action-keys executor a now s =
    elim (Option-cases (OrderedMap.get a.action_id (load_queue s))) [
      | inl missing ↦ rw (execute_action-missing executor a now s missing)
      | inr (b, h) ↦
          ap idempotency_keys (load_queue-execute_action executor a now s b h)
          ∙ idempotency_keys-set a.action_id b (executed_entry executor a now s b) (load_queue s) h
              (executed_entry-key executor a now s b)
    ]

-- What each execution keeps, the loop keeps, and so does a drain.
module _ {ℓ} (P : WriteActionStore → Type ℓ) (executor : WriteAction → Option String) (now : String)
    (keep : (a : WriteAction) (s : WriteActionStore)
      → P s
      → P (execute_action executor a now s).0) where
  pub execute_all-keeps :
      (actions : List WriteAction) (s : WriteActionStore) (n k : ℕ)
      (errors : List (String × String))
      → P s
      → P (execute_all executor now actions (s, n, k, errors)).0
  unfolding execute_all
  execute_all-keeps [] s n k errors h = h
  execute_all-keeps (a ∷ actions) s n k errors h =
      elim (Option-cases (execute_action executor a now s).1) [
        | inl fine ↦
            rw (execute_all, fine) (execute_all-keeps actions _ (n + 1) k errors (keep a s h))
        | inr (m, thrown) ↦
            rw (execute_all, thrown)
              (execute_all-keeps actions _ n (k + 1) (errors ++ (a.action_id, m) ∷ []) (keep a s h))
      ]

  pub drain-keeps :
      (not_after : String → String → Bool) (limit : ℕ) (cooldown : CooldownStatus)
      (s : WriteActionStore)
      → P s
      → P (drain not_after limit cooldown executor now s).0
  unfolding drain
  drain-keeps not_after limit cooldown s h = elim (Bool-cases cooldown.in_cooldown) [
    | inl cooling ↦ rw (drain, cooling) h
    | inr ready ↦ elim (Bool-cases (length (pending_actions not_after (load_queue s)) == 0)) [
      | inl idle ↦ rw (drain, ready, idle) h
      | inr busy ↦
          rw (drain, ready, busy)
            (execute_all-keeps (actions_to_execute not_after limit (load_queue s)) s 0 0 [] h)
    ]
  ]

module _ {ℓ} (P : WriteActionStore → Type ℓ) (s : WriteActionStore) (a : WriteAction) where
  -- `enqueue` returns the known action, or adds the new one.
  pub enqueue-keeps :
      P s → (find_by_idempotency_key a.idempotency_key s ≡ none → P (added a s)) → P (enqueue a s).0
  unfolding enqueue
  enqueue-keeps h new = elim (Option-cases (find_by_idempotency_key a.idempotency_key s)) [
    | inl missing ↦ rw (enqueue, missing) (new missing)
    | inr (known, found) ↦ rw (enqueue, found) h
  ]

-- Along any sequence of enqueues with new ids and of drains, the counts and the total of the manifest
-- stay those of the actions in the file.
pub Steps-IsCounted :
    (not_after : String → String → Bool) {s t : WriteActionStore}
    → Steps not_after s t
    → IsCounted s
    → IsCounted t
Steps-IsCounted not_after finish c = c
Steps-IsCounted not_after (after_step (enqueued {s = s} a p fresh) rest) c =
    Steps-IsCounted not_after rest
      (enqueue-keeps IsCounted s a c (λ _. added-IsCounted a s p fresh c))
Steps-IsCounted not_after (after_step (drained {s = s} limit cooldown executor now) rest) c =
    Steps-IsCounted not_after rest (
      drain-keeps IsCounted executor now (λ a s. execute_action-IsCounted executor a now s)
        not_after limit cooldown s c)

-- a key that no action has
find_none :
    (key : String) (m : OrderedMap WriteAction)
    → head? (filter (λ (a : WriteAction). str_eq a.idempotency_key key) (values m)) ≡ none
    → contains (idempotency_keys m) key ≡ false
find_none key [] h = refl
find_none key ((id, a) ∷ m) h = ground (arith, h, find_none key m)

idempotency_keys-append :
    (id : String) (a : WriteAction) (m : OrderedMap WriteAction)
    → idempotency_keys (m ++ (id, a) ∷ []) ≡ idempotency_keys m ++ a.idempotency_key ∷ []
idempotency_keys-append id a [] = refl
idempotency_keys-append id a ((j, b) ∷ m) =
    ap (λ keys. b.idempotency_key ∷ keys) (idempotency_keys-append id a m)

contains-append :
    (xs : List String) (x y : String) → contains (xs ++ y ∷ []) x ≡ contains xs x || str_eq y x
contains-append [] x y = ground arith
contains-append (z ∷ xs) x y = ground (arith, contains-append xs x y)

append-IsUnique :
    (xs : List String) (x : String) → contains xs x ≡ false → IsUnique xs → IsUnique (xs ++ x ∷ [])
append-IsUnique [] x h u = (refl, tt)
append-IsUnique (z ∷ xs) x h u = (
  contains-append xs z x ∙ ground (arith, h, u.0, eq_iff z x, eq_iff x z),
  append-IsUnique xs x ground (arith, h) u.1,
)

-- No two actions have one key.
abbrev pub HasUniqueKeys : WriteActionStore → Type 0
HasUniqueKeys s = IsUnique (idempotency_keys (load_queue s))

added-HasUniqueKeys :
    (a : WriteAction) (s : WriteActionStore)
    → OrderedMap.get a.action_id (load_queue s) ≡ none
    → find_by_idempotency_key a.idempotency_key s ≡ none
    → HasUniqueKeys s
    → HasUniqueKeys (added a s)
unfolding find_by_idempotency_key
added-HasUniqueKeys a s fresh none_known u =
    rw (load_queue-added a s fresh, idempotency_keys-append a.action_id a (load_queue s))
      (append-IsUnique _ a.idempotency_key (find_none a.idempotency_key (load_queue s) none_known)
        u)

-- Along any sequence of enqueues with new ids and of drains, no two actions of the queue have one key.
pub Steps-HasUniqueKeys :
    (not_after : String → String → Bool) {s t : WriteActionStore}
    → Steps not_after s t
    → HasUniqueKeys s
    → HasUniqueKeys t
Steps-HasUniqueKeys not_after finish u = u
Steps-HasUniqueKeys not_after (after_step (enqueued {s = s} a p fresh) rest) u =
    Steps-HasUniqueKeys not_after rest
      (enqueue-keeps HasUniqueKeys s a u (λ unknown. added-HasUniqueKeys a s fresh unknown u))
Steps-HasUniqueKeys not_after (after_step (drained {s = s} limit cooldown executor now) rest) u =
    Steps-HasUniqueKeys not_after rest (
      drain-keeps HasUniqueKeys executor now
        (λ a s. subst IsUnique (sym (execute_action-keys executor a now s))) not_after limit
        cooldown s u)

get-keep_open :
    (id : String) (m : OrderedMap WriteAction)
    → OrderedMap.get id m ≡ none
    → OrderedMap.get id (keep_open m) ≡ none
unfolding keep_open OrderedMap.get
get-keep_open id [] h = refl
get-keep_open id ((j, a) ∷ m) h = ground (arith, h, get-keep_open id m)

keep_open-IsKeyed : (m : OrderedMap WriteAction) → IsKeyed m → IsKeyed (keep_open m)
unfolding keep_open
keep_open-IsKeyed [] h = tt
keep_open-IsKeyed ((id, a) ∷ m) h = elim (Bool-cases (is_over a)) [
  | inl over ↦ rw over (keep_open-IsKeyed m h.2)
  | inr unfinished ↦ rw unfinished (h.0, get-keep_open id m h.1, keep_open-IsKeyed m h.2)
]

length-keep_open : (m : OrderedMap WriteAction) → length (keep_open m) ≤ length m
unfolding keep_open
length-keep_open [] = omega arith
length-keep_open ((id, a) ∷ m) = ground (arith, length-keep_open m)

-- Where the counts are right, the total of the manifest is too large after a clearing, by the number
-- of actions cleared.
pub clear_completed-total :
    (now : String) (s : WriteActionStore)
    → IsCounted s
    → (clear_completed now s).0.manifest.total_actions
      ≡ length (load_queue (clear_completed now s).0) + (clear_completed now s).1
unfolding clear_completed save_queue
clear_completed-total now s c =
    let kept = keep_open (load_queue s) in
    omega (
      arith,
      c.1,
      length-keep_open (load_queue s),
      ap length (
          load_queue-save_queue kept now s
            (keep_open-IsKeyed (load_queue s) (load_queue-IsKeyed s))),
    )
