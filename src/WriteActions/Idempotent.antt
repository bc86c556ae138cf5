-- ===== src/WriteActions/Idempotent.antt =====
-- Enqueueing again.
use codemachine_pipeline.Prelude.{
  ◌≡◌, refl, sym, ap, ◌∙◌, String, none, some, [], ◌∷◌, ◌++◌, arith, Option-cases, inl, inr, str_eq,
  eq_iff, head?, filter,
}
use codemachine_pipeline.Prelude.OrderedMap
use codemachine_pipeline.Prelude.OrderedMap.{OrderedMap, values}
use codemachine_pipeline.WriteActions.{
  WriteAction, WriteActionStore, load_queue, find_by_idempotency_key, enqueue,
}
use codemachine_pipeline.WriteActions.Entries.{added, load_queue-added}

find_appended :
    (id : String) (a : WriteAction) (m : OrderedMap WriteAction)
    → head? (filter (λ (c : WriteAction). str_eq c.idempotency_key a.idempotency_key) (values m))
      ≡ none
    → head? (
        filter
          (λ (c : WriteAction). str_eq c.idempotency_key a.idempotency_key)
          (values (m ++ (id, a) ∷ [])))
      ≡ some a
find_appended id a [] h = rw ((eq_iff a.idempotency_key a.idempotency_key).1 refl)
find_appended id a ((j, b) ∷ m) h = ground (arith, h, find_appended id a m)

find_added :
    (a : WriteAction) (s : WriteActionStore)
    → OrderedMap.get a.action_id (load_queue s) ≡ none
    → find_by_idempotency_key a.idempotency_key s ≡ none
    → find_by_idempotency_key a.idempotency_key (added a s) ≡ some a
unfolding find_by_idempotency_key
find_added a s fresh unknown =
    rw (load_queue-added a s fresh) (find_appended a.action_id a (load_queue s) unknown)

enqueue_known :
    (b known : WriteAction) (s : WriteActionStore)
    → find_by_idempotency_key b.idempotency_key s ≡ some known
    → enqueue b s ≡ (s, known)
unfolding enqueue
enqueue_known b known s h = rw (enqueue, h)

enqueue_new :
    (a : WriteAction) (s : WriteActionStore)
    → find_by_idempotency_key a.idempotency_key s ≡ none
    → enqueue a s ≡ (added a s, a)
unfolding enqueue
enqueue_new a s h = rw (enqueue, h)

-- After an action with a new id is enqueued, enqueueing one with the same key changes nothing and
-- returns the action that the queue has.
pub enqueue-enqueue :
    (a b : WriteAction) (s : WriteActionStore)
    → OrderedMap.get a.action_id (load_queue s) ≡ none
    → b.idempotency_key ≡ a.idempotency_key
    → enqueue b (enqueue a s).0 ≡ enqueue a s
enqueue-enqueue a b s fresh same =
    elim (Option-cases (find_by_idempotency_key a.idempotency_key s)) [
      | inl unknown ↦
          let found =
            ap (λ key. find_by_idempotency_key key (added a s)) same
            ∙ find_added a s fresh unknown in
          ap (λ (p : WriteActionStore × WriteAction). enqueue b p.0) (enqueue_new a s unknown)
          ∙ enqueue_known b a (added a s) found
          ∙ sym (enqueue_new a s unknown)
      | inr (known, found) ↦
          ap (λ (p : WriteActionStore × WriteAction). enqueue b p.0) (enqueue_known a known s found)
          ∙ enqueue_known b known s (ap (λ key. find_by_idempotency_key key s) same ∙ found)
          ∙ sym (enqueue_known a known s found)
    ]
