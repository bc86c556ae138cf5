-- ===== src/Planner/Order.antt =====
-- What a plan asks of an order of its tasks, and how the first state of the loop counts dependencies.
mod Sound
pub mod Depth
pub mod Loop
use codemachine_pipeline.Prelude.{
  ℕ, suc, ◌+◌, ◌≡◌, refl, sym, ap, ◌∙◌, String, Bool, true, false, not, ◌||◌, Option, none, some,
  List, [], ◌∷◌, ◌++◌, ◌==◌, if◌then◌else◌, length, All, contains, arith, Bool-cases, Option-cases,
  inl, inr, str_eq, eq_iff, append_assoc, append-nil,
}
use codemachine_pipeline.Prelude.Int.{ℤ, pos}
use codemachine_pipeline.Prelude.OrderedMap
use codemachine_pipeline.Prelude.OrderedMap.{OrderedMap, get-set}
use codemachine_pipeline.Queue.Types.{or_else}
use codemachine_pipeline.Planner.{
  TaskNode, add_reverse, reverse_adjacency, first_degrees, entry_tasks,
}

-- the dependencies of the task with an id
abbrev pub needs : String → List TaskNode → Option (List String)
needs id [] = none
needs id (t ∷ ts) = if str_eq t.task_id id then some t.dependencies else needs id ts

abbrev pub HasUniqueIds : List TaskNode → Type 0
HasUniqueIds [] = Unit
HasUniqueIds (t ∷ ts) = (needs t.task_id ts ≡ none) × HasUniqueIds ts

-- `id` is a task that is not among those before it, which hold all of its dependencies.
pub record IsNext (tasks : List TaskNode) (earlier : List String) (id : String) : Type 0 where
  pub fresh : contains earlier id ≡ false
  pub dependencies : List String
  pub listed : needs id tasks ≡ some dependencies
  pub met : All (λ d. contains earlier d ≡ true) dependencies

abbrev pub OrderedFrom : List TaskNode → List String → List String → Type 0
OrderedFrom tasks earlier [] = Unit
OrderedFrom tasks earlier (id ∷ order) =
    IsNext tasks earlier id × OrderedFrom tasks (earlier ++ id ∷ []) order

pub OrderedFrom-push :
    (tasks : List TaskNode) (earlier order : List String) (id : String)
    → OrderedFrom tasks earlier order
    → IsNext tasks (earlier ++ order) id
    → OrderedFrom tasks earlier (order ++ id ∷ [])
OrderedFrom-push tasks earlier [] id h next = (rw append-nil at next, tt)
OrderedFrom-push tasks earlier (first ∷ order) id h next = (
  h.0,
  OrderedFrom-push tasks (earlier ++ first ∷ []) order id h.1
      (rw (append_assoc earlier (first ∷ []) order) next),
)

-- how often a text is in a list
abbrev pub occurrences : String → List String → ℕ
occurrences id [] = 0
occurrences id (x ∷ xs) = (if str_eq x id then 1 else 0) + occurrences id xs

-- the dependencies that are not in a list
abbrev pub missing : List String → List String → ℕ
missing done [] = 0
missing done (d ∷ ds) = (if contains done d then 0 else 1) + missing done ds

pub occurrences-append :
    (id : String) (xs ys : List String)
    → occurrences id (xs ++ ys) ≡ occurrences id xs + occurrences id ys
occurrences-append id [] ys = omega arith
occurrences-append id (x ∷ xs) ys = omega (arith, occurrences-append id xs ys)

pub contains-occurrences :
    (id : String) (xs : List String) → contains xs id ≡ not (occurrences id xs == 0)
contains-occurrences id [] = ground arith
contains-occurrences id (x ∷ xs) = ground (arith, contains-occurrences id xs)

pub contains-push :
    (xs : List String) (c d : String) → contains (xs ++ c ∷ []) d ≡ (contains xs d || str_eq c d)
contains-push [] c d = ground arith
contains-push (x ∷ xs) c d = ground (arith, contains-push xs c d)

pub missing-push :
    (done : List String) (c : String)
    → contains done c ≡ false
    → (ds : List String) → missing done ds ≡ missing (done ++ c ∷ []) ds + occurrences c ds
missing-push done c new [] = omega arith
missing-push done c new (d ∷ ds) =
    ground (arith, missing-push done c new ds, contains-push done c d, eq_iff c d, eq_iff d c)

pub missing-met :
    (done ds : List String) → missing done ds ≡ 0 → All (λ d. contains done d ≡ true) ds
missing-met done [] h = tt
missing-met done (d ∷ ds) h = elim (Bool-cases (contains done d)) [
  | inl met ↦ (met, missing-met done ds (omega (arith, rw met at h)))
  | inr unmet ↦ absurd (omega (arith, rw unmet at h))
]

pub met-missing :
    (done ds : List String) → All (λ d. contains done d ≡ true) ds → missing done ds ≡ 0
met-missing done [] h = refl
met-missing done (d ∷ ds) h = rw h.0 (omega (arith, met-missing done ds h.1))

pub missing-nil : (ds : List String) → missing [] ds ≡ length ds
missing-nil [] = refl
missing-nil (d ∷ ds) = omega (arith, missing-nil ds)

pub get-first_degrees :
    (id : String) (tasks : List TaskNode)
    → HasUniqueIds tasks
    → (m : OrderedMap ℤ)
    → OrderedMap.get id (first_degrees tasks m)
      ≡ elim (needs id tasks) [ none ↦ OrderedMap.get id m | some ds ↦ some (pos (length ds)) ]
unfolding first_degrees
get-first_degrees id [] unique m = refl
get-first_degrees id (t ∷ ts) unique m =
    let rest =
      get-first_degrees id ts unique.1 (OrderedMap.set t.task_id (pos (length t.dependencies)) m) in
    let set = get-set t.task_id id (pos (length t.dependencies)) m in
    ground (arith, rest, set, unique.0, eq_iff t.task_id id)

pub occurrences-add_reverse :
    (x d id : String) (deps : List String) (adj : OrderedMap (List String))
    → occurrences x (or_else (OrderedMap.get d (add_reverse id deps adj)) [])
      ≡ occurrences x (or_else (OrderedMap.get d adj) [])
        + (if str_eq id x then occurrences d deps else 0)
unfolding add_reverse
occurrences-add_reverse x d id [] adj = ground arith
occurrences-add_reverse x d id (dep ∷ deps) adj =
    let waiting = or_else (OrderedMap.get dep adj) [] in
    let rest = occurrences-add_reverse x d id deps (OrderedMap.set dep (waiting ++ id ∷ []) adj) in
    ground (
      arith,
      rest,
      get-set dep d (waiting ++ id ∷ []) adj,
      occurrences-append x waiting (id ∷ []),
      eq_iff dep d,
    )

pub occurrences-reverse_adjacency :
    (x d : String) (tasks : List TaskNode)
    → HasUniqueIds tasks
    → (adj : OrderedMap (List String))
    → occurrences x (or_else (OrderedMap.get d (reverse_adjacency tasks adj)) [])
      ≡ occurrences x (or_else (OrderedMap.get d adj) [])
        + elim (needs x tasks) [ none ↦ 0 | some ds ↦ occurrences d ds ]
unfolding reverse_adjacency
occurrences-reverse_adjacency x d [] unique adj = omega arith
occurrences-reverse_adjacency x d (t ∷ ts) unique adj =
    let rest =
      occurrences-reverse_adjacency x d ts unique.1 (add_reverse t.task_id t.dependencies adj) in
    ground (
      arith,
      rest,
      occurrences-add_reverse x d t.task_id t.dependencies adj,
      unique.0,
      eq_iff t.task_id x,
    )

pub occurrences-entry_tasks :
    (x : String) (tasks : List TaskNode)
    → HasUniqueIds tasks
    → occurrences x (entry_tasks tasks)
      ≡ elim (needs x tasks) [ none ↦ 0 | some ds ↦ if length ds == 0 then 1 else 0 ]
unfolding entry_tasks
occurrences-entry_tasks x [] unique = refl
occurrences-entry_tasks x (t ∷ ts) unique =
    ground (arith, occurrences-entry_tasks x ts unique.1, unique.0, eq_iff t.task_id x)
