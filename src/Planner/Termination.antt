-- ===== src/Planner/Termination.antt =====
-- The loop of the topological order ends, also where tasks wait for each other or share an id.
use codemachine_pipeline.Prelude.{
  ℕ, zero, suc, ◌+◌, ◌≤◌, ◌≡◌, refl, sym, ap, ◌∙◌, String, Bool, true, false, none, some, List, [],
  ◌∷◌, ◌++◌, if◌then◌else◌, length, length-append, arith, Bool-cases, inl, inr, ◌⊎◌, str_eq,
}
use codemachine_pipeline.Prelude.Int.{ℤ, pos, negsuc, dec, int_eq}
use codemachine_pipeline.Prelude.OrderedMap
use codemachine_pipeline.Prelude.OrderedMap.{OrderedMap, values}
use codemachine_pipeline.Queue.Types.{or_else}
use codemachine_pipeline.Planner.{
  TaskNode, Traversal, first_degrees, entry_tasks, first_traversal, reverse_adjacency, unlock,
  unlock_all, take_first, traverse, max_depth, TopologicalOrder, compute_topological_order, enough,
}

-- the dependencies that are still to be met
abbrev part : ℤ → ℕ
part (pos n) = n
part (negsuc n) = 0

abbrev open_parts : OrderedMap ℤ → ℕ
open_parts [] = 0
open_parts ((id, z) ∷ m) = part z + open_parts m

open_parts-set :
    (id : String) (z : ℤ) (m : OrderedMap ℤ)
    → open_parts (OrderedMap.set id z m) + part (or_else (OrderedMap.get id m) (pos 0))
      ≡ open_parts m + part z
unfolding OrderedMap.set OrderedMap.get
open_parts-set id z [] = ground arith
open_parts-set id z ((j, y) ∷ m) = elim (Bool-cases (str_eq j id)) [
  | inl same ↦ rw same (omega arith)
  | inr other ↦ rw other (omega (arith, open_parts-set id z m))
]

-- It falls with every round.
abbrev rounds : Traversal → ℕ
rounds s = length s.queue + open_parts s.in_degree

dec-part : (z : ℤ) → (if int_eq (dec z) (pos 0) then 1 else 0) + part (dec z) ≤ part z
unfolding dec int_eq
dec-part (pos zero) = omega arith
dec-part (pos (suc zero)) = omega arith
dec-part (pos (suc (suc n))) = ground arith
dec-part (negsuc n) = omega arith

length-push :
    (test : Bool) (queue : List String) (id : String)
    → length (if test then queue ++ id ∷ [] else queue) ≡ (if test then 1 else 0) + length queue
length-push true queue id = omega (arith, length-append queue (id ∷ []))
length-push false queue id = omega arith

unlock-rounds : (d : ℕ) (id : String) (s : Traversal) → rounds (unlock d id s) ≤ rounds s
unfolding unlock
unlock-rounds d id s =
    let z = or_else (OrderedMap.get id s.in_degree) (pos 0) in
    omega (
      arith,
      open_parts-set id (dec z) s.in_degree,
      dec-part z,
      length-push (int_eq (dec z) (pos 0)) s.queue id,
    )

unlock_all-rounds :
    (d : ℕ) (ids : List String) (s : Traversal) → rounds (unlock_all d ids s) ≤ rounds s
unfolding unlock_all
unlock_all-rounds d [] s = omega arith
unlock_all-rounds d (id ∷ ids) s =
    omega (arith, unlock_all-rounds d ids (unlock d id s), unlock-rounds d id s)

pub queue-cases :
    (queue : List String)
    → (queue ≡ []) ⊎ ((current : String) × (rest : List String) × (queue ≡ current ∷ rest))
queue-cases [] = inl refl
queue-cases (current ∷ rest) = inr (current, rest, refl)

take_first-rounds :
    (adj : OrderedMap (List String)) (current : String) (rest : List String) (s : Traversal)
    → s.queue ≡ current ∷ rest
    → rounds (take_first adj current rest s) + 1 ≤ rounds s
unfolding take_first
take_first-rounds adj current rest s e = omega (
  arith,
  ap length e,
  unlock_all-rounds (or_else (OrderedMap.get current s.depths) 0)
      (or_else (OrderedMap.get current adj) [])
      (record s { queue = rest; order = s.order ++ current ∷ [] }),
)

pub traverse-done :
    (adj : OrderedMap (List String)) (fuel : ℕ) (s : Traversal)
    → s.queue ≡ []
    → traverse adj fuel s ≡ some s
unfolding traverse
traverse-done adj zero s done = simp (traverse, done)
traverse-done adj (suc fuel) s done = simp (traverse, done)

pub traverse-next :
    (adj : OrderedMap (List String)) (fuel : ℕ) (s : Traversal) (current : String)
    (rest : List String)
    → s.queue ≡ current ∷ rest
    → traverse adj (suc fuel) s ≡ traverse adj fuel (take_first adj current rest s)
unfolding traverse
traverse-next adj fuel s current rest busy = simp (traverse, busy)

pub traverse-stuck :
    (adj : OrderedMap (List String)) (s : Traversal) (current : String) (rest : List String)
    → s.queue ≡ current ∷ rest
    → traverse adj zero s ≡ none
unfolding traverse
traverse-stuck adj s current rest busy = simp (traverse, busy)

pub traverse-ends :
    (adj : OrderedMap (List String)) (fuel : ℕ) (s : Traversal)
    → rounds s ≤ fuel
    → (t : Traversal) × (traverse adj fuel s ≡ some t) × (t.queue ≡ [])
unfolding traverse
traverse-ends adj zero s h = elim (queue-cases s.queue) [
  | inl done ↦ (s, traverse-done adj zero s done, done)
  | inr (current, rest, e) ↦ absurd (omega (arith, h, ap length e))
]
traverse-ends adj (suc fuel) s h = elim (queue-cases s.queue) [
  | inl done ↦ (s, traverse-done adj (suc fuel) s done, done)
  | inr (current, rest, e) ↦
      let (t, returns, done) =
        traverse-ends adj fuel (take_first adj current rest s)
          (omega (arith, h, take_first-rounds adj current rest s e)) in
      (t, traverse-next adj fuel s current rest e ∙ returns, done)
]

-- A longer loop gives the same.
pub traverse-more :
    (adj : OrderedMap (List String)) (fuel more : ℕ) (s t : Traversal)
    → fuel ≤ more
    → traverse adj fuel s ≡ some t
    → traverse adj more s ≡ some t
unfolding traverse
traverse-more adj zero more s t h e = elim (queue-cases s.queue) [
  | inl done ↦ traverse-done adj more s done ∙ sym (traverse-done adj zero s done) ∙ e
  | inr (current, rest, busy) ↦ absurd (cc (traverse-stuck adj s current rest busy, e))
]
traverse-more adj (suc fuel) zero s t h e = absurd (omega (arith, h))
traverse-more adj (suc fuel) (suc more) s t h e = elim (queue-cases s.queue) [
  | inl done ↦ traverse-done adj (suc more) s done ∙ sym (traverse-done adj (suc fuel) s done) ∙ e
  | inr (current, rest, busy) ↦
      traverse-next adj more s current rest busy
      ∙ traverse-more adj fuel more (take_first adj current rest s) t (omega (arith, h))
          (sym (traverse-next adj fuel s current rest busy) ∙ e)
]

open_parts-first_degrees :
    (tasks : List TaskNode) (m : OrderedMap ℤ)
    → open_parts (first_degrees tasks m) + length (entry_tasks tasks) ≤ open_parts m + enough tasks
unfolding first_degrees entry_tasks enough
open_parts-first_degrees [] m = omega arith
open_parts-first_degrees (t ∷ ts) m =
    let rest =
      open_parts-first_degrees ts (OrderedMap.set t.task_id (pos (length t.dependencies)) m) in
    let first = open_parts-set t.task_id (pos (length t.dependencies)) m in
    ground (arith, rest, first)

pub rounds-first_traversal : (tasks : List TaskNode) → rounds (first_traversal tasks) ≤ enough tasks
unfolding first_traversal
rounds-first_traversal tasks = omega (arith, open_parts-first_degrees tasks [])

-- The topological order is computed in as many rounds as there are tasks and dependencies, whatever the
-- tasks depend on, and more rounds give the same result.
pub compute_topological_order-ends :
    (tasks : List TaskNode)
    → (r : TopologicalOrder) × ((fuel : ℕ)
        → enough tasks ≤ fuel
        → compute_topological_order fuel tasks ≡ some r)
unfolding compute_topological_order
compute_topological_order-ends tasks =
    let (t, returns, done) =
      traverse-ends (reverse_adjacency tasks []) (enough tasks) (first_traversal tasks)
        (rounds-first_traversal tasks) in
    (
      record { order = t.order; depths = t.depths; max_depth = max_depth (values t.depths) },
      λ fuel h. rw (
        compute_topological_order,
        traverse-more (reverse_adjacency tasks []) (enough tasks) fuel (first_traversal tasks) t h
            returns,
      ),
    )
