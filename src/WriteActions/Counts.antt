-- ===== src/WriteActions/Counts.antt =====
-- The counts of the manifest against the actions of the queue's file.
use codemachine_pipeline.Prelude.{
  ℕ, ◌+◌, ◌≡◌, refl, sym, ap, ◌∙◌, String, true, some, [], ◌∷◌, ◌++◌, arith, Bool-cases, inl, inr,
  str_eq, eq_iff, if◌then◌else◌, ◌↔◌, ◌⊎◌, length,
}
use codemachine_pipeline.Prelude.OrderedMap
use codemachine_pipeline.Prelude.OrderedMap.{OrderedMap, values, get-set}
use codemachine_pipeline.WriteActions.{
  WriteAction, WriteActionStatus, pending, in_progress, completed, failed, skipped, status_eq,
  WriteActionStore, WriteActionQueueManifest, Delta, load_queue, save_queue, shift,
  update_manifest_counts, status_delta, retry_delta,
}
use codemachine_pipeline.WriteActions.Lines.{IsKeyed}

pub status_eq_iff : (x y : WriteActionStatus) → (status_eq x y ≡ true) ↔ (x ≡ y)
unfolding status_eq
status_eq_iff x y = ground arith

-- 1 for the status that is counted
abbrev pub one : WriteActionStatus → WriteActionStatus → ℕ
one st x = if status_eq x st then 1 else 0

-- the sum of a number of each action
abbrev pub sum_of : (WriteAction → ℕ) → OrderedMap WriteAction → ℕ
sum_of f [] = 0
sum_of f ((id, a) ∷ m) = f a + sum_of f m

abbrev pub tally : WriteActionStatus → OrderedMap WriteAction → ℕ
tally st = sum_of (λ a. one st a.status)

pub sum_of-set :
    (f : WriteAction → ℕ) (id : String) (a b : WriteAction) (m : OrderedMap WriteAction)
    → OrderedMap.get id m ≡ some a
    → sum_of f (OrderedMap.set id b m) + f a ≡ sum_of f m + f b
unfolding OrderedMap.get OrderedMap.set
sum_of-set f id a b [] h = ground (arith, h)
sum_of-set f id a b ((j, c) ∷ m) h = elim (Bool-cases (str_eq j id)) [
  | inl same ↦ let e : c ≡ a = ground (arith, same, h) in rw same (omega (arith, ap f e))
  | inr other ↦
      let rest = sum_of-set f id a b m ground (arith, other, h) in rw other (omega (arith, rest))
]

pub length-set :
    (id : String) (a b : WriteAction) (m : OrderedMap WriteAction)
    → OrderedMap.get id m ≡ some a
    → length (OrderedMap.set id b m) ≡ length m
unfolding OrderedMap.get OrderedMap.set
length-set id a b [] h = ground (arith, h)
length-set id a b ((j, c) ∷ m) h = ground (arith, length-set id a b m)

pub sum_of-append :
    (f : WriteAction → ℕ) (id : String) (a : WriteAction) (m : OrderedMap WriteAction)
    → sum_of f (m ++ (id, a) ∷ []) ≡ f a + sum_of f m
sum_of-append f id a [] = refl
sum_of-append f id a ((j, b) ∷ m) = omega (arith, sum_of-append f id a m)

-- the manifest's count of a status
abbrev pub count_of : WriteActionStatus → WriteActionQueueManifest → ℕ
count_of pending m = m.pending_count
count_of in_progress m = m.in_progress_count
count_of completed m = m.completed_count
count_of failed m = m.failed_count
count_of skipped m = m.skipped_count

abbrev pub IsCounted : WriteActionStore → Type 0
IsCounted s =
    ((st : WriteActionStatus) → count_of st s.manifest ≡ tally st (load_queue s))
    × (s.manifest.total_actions ≡ length (load_queue s))

pub status_delta_lem :
    (st old new : WriteActionStatus) (n k : ℕ)
    → k + one st old ≡ n + one st new
    → shift (status_delta st old new) n ≡ k
unfolding status_delta shift
status_delta_lem st old new n k h =
    ground (arith, h, status_eq_iff old new, status_eq_iff new st, status_eq_iff old st)

pub retry_delta_lem :
    (st old : WriteActionStatus) (n k : ℕ)
    → k + one st old ≡ n + one st pending
    → (old ≡ pending) ⊎ (old ≡ in_progress)
    → shift (retry_delta old st) n ≡ k
unfolding retry_delta shift status_eq
retry_delta_lem st old n k h o = ground (arith, h, o)

pub count_of-update_manifest_counts :
    (st : WriteActionStatus) (n : ℕ) (delta : WriteActionStatus → Delta) (now : String)
    (s : WriteActionStore)
    → count_of st (update_manifest_counts n delta now s).manifest
      ≡ shift (delta st) (count_of st s.manifest)
unfolding update_manifest_counts
count_of-update_manifest_counts pending n delta now s = refl
count_of-update_manifest_counts in_progress n delta now s = refl
count_of-update_manifest_counts completed n delta now s = refl
count_of-update_manifest_counts failed n delta now s = refl
count_of-update_manifest_counts skipped n delta now s = refl

pub count_of-save_queue :
    (st : WriteActionStatus) (m : OrderedMap WriteAction) (now : String) (s : WriteActionStore)
    → count_of st (save_queue m now s).manifest ≡ count_of st s.manifest
unfolding save_queue
count_of-save_queue pending m now s = refl
count_of-save_queue in_progress m now s = refl
count_of-save_queue completed m now s = refl
count_of-save_queue failed m now s = refl
count_of-save_queue skipped m now s = refl

pub get-IsKeyed :
    (id : String) (a : WriteAction) (m : OrderedMap WriteAction)
    → IsKeyed m
    → OrderedMap.get id m ≡ some a
    → a.action_id ≡ id
unfolding OrderedMap.get
get-IsKeyed id a [] k h = ground (arith, h)
get-IsKeyed id a ((j, b) ∷ m) k h = elim (Bool-cases (str_eq j id)) [
  | inl same ↦
      let e : b ≡ a = ground (arith, same, h) in
      sym (ap (λ (c : WriteAction). c.action_id) e) ∙ k.0 ∙ (eq_iff j id).0 same
  | inr other ↦ get-IsKeyed id a m k.2 ground (arith, other, h)
]
