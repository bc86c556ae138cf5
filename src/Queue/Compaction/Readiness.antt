-- ===== src/Queue/Compaction/Readiness.antt =====
-- Pruning and the tasks that are still to run.
use codemachine_pipeline.Prelude.{
  ◌≡◌, refl, sym, subst, ◌∙◌, ap, String, Bool, true, false, some, List, [], ◌∷◌, ◌++◌, arith,
  Bool-cases, Option-cases, inl, inr, contains, any, str_eq, eq_iff, if◌then◌else◌,
}
use codemachine_pipeline.Prelude.OrderedMap
use codemachine_pipeline.Prelude.OrderedMap.{OrderedMap, get-set, get-delete_ne}
use codemachine_pipeline.Queue.Types.{ExecutionTask, QueueIndexState, DependencyGraph, or_else}
use codemachine_pipeline.Queue.Index.{all_completed, are_dependencies_completed, delete_entry}
use codemachine_pipeline.Queue.Compaction.{
  add_dependent, build_dependents, is_active, is_prunable, find_prunable, delete_entries,
  prune_completed_tasks,
}

-- what the reverse map says of a task
abbrev dependents_of : DependencyGraph → String → List String
dependents_of dependents id = or_else (OrderedMap.get id dependents) []

contains-append_left :
    (xs ys : List String) (k : String) → contains xs k ≡ true → contains (xs ++ ys) k ≡ true
contains-append_left [] ys k h = ground arith
contains-append_left (x ∷ xs) ys k h = elim (Bool-cases (str_eq x k)) [
  | inl e ↦ rw e refl
  | inr e ↦ ground (arith, contains-append_left xs ys k)
]

contains-append_last : (xs : List String) (k : String) → contains (xs ++ k ∷ []) k ≡ true
contains-append_last [] k = ground (arith, eq_iff k k)
contains-append_last (x ∷ xs) k = ground (arith, contains-append_last xs k)

-- The set of a task once `key` has been added to it.
with_key-key :
    (known : List String) (key : String)
    → contains (if contains known key then known else known ++ key ∷ []) key ≡ true
with_key-key known key = elim (Bool-cases (contains known key)) [
  | inl e ↦ rw e e
  | inr e ↦ rw e (contains-append_last known key)
]

with_key-kept :
    (known : List String) (key k : String)
    → contains known k ≡ true
    → contains (if contains known key then known else known ++ key ∷ []) k ≡ true
with_key-kept known key k h = elim (Bool-cases (contains known key)) [
  | inl e ↦ rw e h
  | inr e ↦ rw e (contains-append_left known (key ∷ []) k h)
]

add_dependent-kept :
    (key : String) (ids : List String) (m : DependencyGraph) (id k : String)
    → contains (dependents_of m id) k ≡ true
    → contains (dependents_of (add_dependent key ids m) id) k ≡ true
unfolding add_dependent
add_dependent-kept key [] m id k h = h
add_dependent-kept key (i ∷ ids) m id k h =
    let known = dependents_of m i in
    let added = if contains known key then known else known ++ key ∷ [] in
    add_dependent-kept key ids (OrderedMap.set i added m) id k (elim (Bool-cases (str_eq i id)) [
      | inl e ↦
          rw (get-set i id added m, e)
            (with_key-kept known key k
              (subst (λ x. contains (dependents_of m x) k ≡ true) (sym ((eq_iff i id).0 e)) h))
      | inr e ↦ rw (get-set i id added m, e) h
    ])

add_dependent-key :
    (key : String) (ids : List String) (m : DependencyGraph) (id : String)
    → contains ids id ≡ true
    → contains (dependents_of (add_dependent key ids m) id) key ≡ true
unfolding add_dependent
add_dependent-key key [] m id h = cc
add_dependent-key key (i ∷ ids) m id h =
    let known = dependents_of m i in
    let added = if contains known key then known else known ++ key ∷ [] in
    elim (Bool-cases (str_eq i id)) [
      | inl e ↦
          add_dependent-kept key ids (OrderedMap.set i added m) id key
            (rw (get-set i id added m, e) (with_key-key known key))
      | inr e ↦ add_dependent-key key ids (OrderedMap.set i added m) id (ground arith)
    ]

build_dependents-kept :
    (graph m : DependencyGraph) (id k : String)
    → contains (dependents_of m id) k ≡ true
    → contains (dependents_of (build_dependents graph m) id) k ≡ true
unfolding build_dependents
build_dependents-kept [] m id k h = h
build_dependents-kept ((key, ids) ∷ graph) m id k h =
    build_dependents-kept graph (add_dependent key ids m) id k (add_dependent-kept key ids m id k h)

-- A task is among the dependents of each of its dependencies.
build_dependents-key :
    (graph m : DependencyGraph) (key id : String) (ids : List String)
    → OrderedMap.get key graph ≡ some ids
    → contains ids id ≡ true
    → contains (dependents_of (build_dependents graph m) id) key ≡ true
unfolding build_dependents OrderedMap.get
build_dependents-key [] m key id ids found h = cc
build_dependents-key ((j, js) ∷ graph) m key id ids found h = elim (Bool-cases (str_eq j key)) [
  | inl e ↦ build_dependents-kept graph (add_dependent j js m) id key (
      subst (λ x. contains (dependents_of (add_dependent j js m) id) x ≡ true) ((eq_iff j key).0 e)
        (add_dependent-key j js m id (ground (arith, found, e, h))))
  | inr e ↦ build_dependents-key graph (add_dependent j js m) key id ids (ground arith) h
]

any_of_contains :
    (p : String → Bool) (xs : List String) (k : String)
    → contains xs k ≡ true
    → p k ≡ true
    → any p xs ≡ true
any_of_contains p [] k h q = cc
any_of_contains p (x ∷ xs) k h q = elim (Bool-cases (str_eq x k)) [
  | inl e ↦ ground (arith, (eq_iff x k).0 e, q)
  | inr e ↦ ground (arith, any_of_contains p xs k (ground arith) q)
]

find_prunable-kept :
    (s : QueueIndexState) (m : DependencyGraph) (tasks : OrderedMap ExecutionTask) (id : String)
    → any (is_active s) (dependents_of m id) ≡ true
    → contains (find_prunable s m tasks) id ≡ false
unfolding find_prunable is_prunable
find_prunable-kept s m [] id h = refl
find_prunable-kept s m ((key, task) ∷ tasks) id h =
    let rest = find_prunable-kept s m tasks id h in
    elim (Bool-cases (str_eq key id)) [
      | inl e ↦ ground (arith, (eq_iff key id).0 e, h, rest)
      | inr e ↦ ground (arith, e, rest)
    ]

get-delete_entry :
    (s : QueueIndexState) (key id : String)
    → str_eq key id ≡ false
    → OrderedMap.get id (delete_entry s key).tasks ≡ OrderedMap.get id s.tasks
unfolding delete_entry
get-delete_entry s key id h = ground (arith, get-delete_ne key id s.tasks h)

get-delete_entries :
    (s : QueueIndexState) (keys : List String) (id : String)
    → contains keys id ≡ false
    → OrderedMap.get id (delete_entries s keys).tasks ≡ OrderedMap.get id s.tasks
unfolding delete_entries
get-delete_entries s [] id h = refl
get-delete_entries s (key ∷ keys) id h =
    get-delete_entries (delete_entry s key) keys id (ground arith)
    ∙ get-delete_entry s key id (ground arith)

-- all the dependencies are the same in both maps
all_completed-kept :
    (a b : OrderedMap ExecutionTask) (ids : List String)
    → ((id : String) → contains ids id ≡ true → OrderedMap.get id a ≡ OrderedMap.get id b)
    → all_completed a ids ≡ all_completed b ids
unfolding all_completed
all_completed-kept a b [] same = refl
all_completed-kept a b (i ∷ ids) same = ground (
  arith,
  same i (ground (arith, eq_iff i i)),
  all_completed-kept a b ids (λ id h. same id (ground (arith, h))),
)

tasks-prune :
    (s : QueueIndexState) (graph : DependencyGraph)
    → (prune_completed_tasks s graph).0.tasks
      ≡ (delete_entries s (find_prunable s (build_dependents graph []) s.tasks)).tasks
unfolding prune_completed_tasks
tasks-prune s graph = ground arith

-- Pruning deletes no dependency of a task that is in the index and is not in a terminal state: its
-- dependencies are all completed afterwards exactly if they were before.
pub are_dependencies_completed-prune :
    (s : QueueIndexState) (graph : DependencyGraph) (key : String)
    → is_active s key ≡ true
    → are_dependencies_completed (prune_completed_tasks s graph).0 key graph
      ≡ are_dependencies_completed s key graph
unfolding are_dependencies_completed
are_dependencies_completed-prune s graph key active =
    elim (Option-cases (OrderedMap.get key graph)) [
      | inl e ↦ ground (arith, e)
      | inr (ids, e) ↦
          let kept = all_completed-kept (prune_completed_tasks s graph).0.tasks s.tasks ids (λ id h.
            ap (OrderedMap.get id) (tasks-prune s graph)
            ∙ get-delete_entries s (find_prunable s (build_dependents graph []) s.tasks) id (
                find_prunable-kept s (build_dependents graph []) s.tasks id (
                  any_of_contains (is_active s) _ key (build_dependents-key graph [] key id ids e h)
                    active))) in
          ground (arith, e, kept)
    ]
