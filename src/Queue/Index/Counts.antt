-- ===== src/Queue/Index/Counts.antt =====
-- The stored counts are those of the tasks, after every operation of the index.
use codemachine_pipeline.Prelude.{
  String, ◌≡◌, refl, ap, ◌∙◌, Option, none, some, List, [], ◌∷◌, arith,
}
use codemachine_pipeline.Prelude.OrderedMap
use codemachine_pipeline.Prelude.OrderedMap.{OrderedMap, values}
use codemachine_pipeline.Prelude.Int.{ℤ, inc, dec, dec-inc, inc-dec}
use codemachine_pipeline.Queue.Types.{
  or_else, TaskStatus, ExecutionTask, QueueCounts, create_empty_queue_counts, QueueIndexState,
}
use codemachine_pipeline.Queue.Index.{
  count_in, count_out, count_move, recalculate, recalculate_counts,
}

abbrev pub AllFields {ℓ} : (P : ℤ → Type ℓ) → QueueCounts → Type ℓ
AllFields P c =
    P c.total × P c.pending × P c.running × P c.completed × P c.failed × P c.skipped × P c.cancelled

cancel : (c : QueueCounts) → AllFields (λ n. dec (inc n) ≡ n) c
cancel c = (dec-inc _, dec-inc _, dec-inc _, dec-inc _, dec-inc _, dec-inc _, dec-inc _)

cancel' : (c : QueueCounts) → AllFields (λ n. inc (dec n) ≡ n) c
cancel' c = (inc-dec _, inc-dec _, inc-dec _, inc-dec _, inc-dec _, inc-dec _, inc-dec _)

pub count_in_comm :
    (a b : TaskStatus) (c : QueueCounts) → count_in a (count_in b c) ≡ count_in b (count_in a c)
unfolding count_in
count_in_comm a b c = ground arith

pub count_out-count_in : (a : TaskStatus) (c : QueueCounts) → count_out a (count_in a c) ≡ c
unfolding count_in count_out
count_out-count_in a c = ground (arith, cancel c)

pub count_out_comm :
    (a b : TaskStatus) (c : QueueCounts) → count_out a (count_in b c) ≡ count_in b (count_out a c)
unfolding count_in count_out
count_out_comm a b c = ground (arith, cancel c, cancel' c)

-- Moving a task's count to the status that a patch names is what recounting it gives.
pub count_move-eq :
    (old : TaskStatus) (new : Option TaskStatus) (c : QueueCounts)
    → count_move old new c ≡ count_in (or_else new old) (count_out old c)
unfolding count_move count_in count_out
count_move-eq old none c = ground (arith, cancel' c)
count_move-eq old (some new) c = ground (arith, cancel' c)

-- One more task in front of the others.
recalculate-count_in :
    (a : TaskStatus) (c : QueueCounts) (ts : List ExecutionTask)
    → recalculate (count_in a c) ts ≡ count_in a (recalculate c ts)
unfolding recalculate
recalculate-count_in a c [] = refl
recalculate-count_in a c (t ∷ ts) =
    ap (λ x. recalculate x ts) (count_in_comm t.status a c)
    ∙ recalculate-count_in a (count_in t.status c) ts

-- The counts of a map of tasks, entry by entry.
unfoldable pub tally : OrderedMap ExecutionTask → QueueCounts
tally [] = create_empty_queue_counts
tally ((k, t) ∷ m) = count_in t.status (tally m)

pub recalculate-eq-tally :
    (m : OrderedMap ExecutionTask) → recalculate create_empty_queue_counts (values m) ≡ tally m
unfolding recalculate tally
recalculate-eq-tally [] = refl
recalculate-eq-tally ((k, t) ∷ m) =
    recalculate-count_in t.status create_empty_queue_counts (values m)
    ∙ ap (count_in t.status) (recalculate-eq-tally m)

pub tally-set_new :
    (k : String) (t : ExecutionTask) (m : OrderedMap ExecutionTask)
    → OrderedMap.get k m ≡ none
    → tally (OrderedMap.set k t m) ≡ count_in t.status (tally m)
unfolding OrderedMap.get OrderedMap.set tally
tally-set_new k t [] h = refl
tally-set_new k t ((j, u) ∷ m) h =
    ground (arith, tally-set_new k t m, count_in_comm t.status u.status (tally m))

-- Replacing the task of a key moves one count.
pub tally-set_old :
    (k : String) (old new : ExecutionTask) (m : OrderedMap ExecutionTask)
    → OrderedMap.get k m ≡ some old
    → tally (OrderedMap.set k new m) ≡ count_in new.status (count_out old.status (tally m))
unfolding OrderedMap.get OrderedMap.set tally
tally-set_old k old new [] h = cc
tally-set_old k old new ((j, u) ∷ m) h = ground (
  arith,
  tally-set_old k old new m,
  count_out-count_in old.status (tally m),
  count_out_comm old.status u.status (tally m),
  count_in_comm u.status new.status (count_out old.status (tally m)),
)

pub tally-delete :
    (k : String) (t : ExecutionTask) (m : OrderedMap ExecutionTask)
    → OrderedMap.get k m ≡ some t
    → tally (OrderedMap.delete k m) ≡ count_out t.status (tally m)
unfolding OrderedMap.get OrderedMap.delete tally
tally-delete k t [] h = cc
tally-delete k t ((j, u) ∷ m) h = ground (
  arith,
  tally-delete k t m,
  count_out-count_in t.status (tally m),
  count_out_comm t.status u.status (tally m),
)

-- The stored counts are those of the tasks.
abbrev pub IsCounted : QueueIndexState → Type 0
IsCounted s = s.counts ≡ recalculate_counts s
