-- ===== src/Planner/Dag/Valid.antt =====
-- A plan is valid exactly if its ids are distinct, its dependencies are tasks and none waits for itself; its
-- topological order then holds every task.
use codemachine_pipeline.Prelude.{
  ℕ, suc, ◌+◌, ◌<◌, ◌≤◌, ◌≡◌, ◌↔◌, refl, sym, ◌∙◌, String, true, false, some, List, [], ◌∷◌, ◌++◌,
  if◌then◌else◌, length, All, All-map, contains, arith, Bool-cases, inl, inr, str_eq, eq_iff,
  append_assoc,
}
use codemachine_pipeline.Planner.{TaskNode, TopologicalOrder, compute_topological_order, enough}
use codemachine_pipeline.Planner.Order.{needs, HasUniqueIds, OrderedFrom, missing}
use codemachine_pipeline.Planner.Order.Loop.{IsAcyclic, compute_topological_order-IsAcyclic}
use codemachine_pipeline.Planner.Dag.{
  task_ids, DagSearch, DagError, duplicates, duplicate_errors, unknown_errors, check_tasks,
  validate_dag,
}
use codemachine_pipeline.Planner.Dag.Visits.{needs-contains, check_tasks-returns}
use codemachine_pipeline.Planner.Dag.Sound.{IsClosed, Inv, Finishes, check_tasks-Finishes}
use codemachine_pipeline.Planner.Dag.Errors.{check_tasks-Clean}
use codemachine_pipeline.Planner.Dag.Acyclic.{check_tasks-quiet}
use codemachine_pipeline.Planner.Dag.Checks.{
  contains-needs, duplicates-HasUniqueIds, duplicates_nil, append-nil_iff, unknown_errors-closed,
  closed-unknown_errors,
}

-- the place of a text in a list
abbrev position : String → List String → ℕ
position id [] = 0
position id (x ∷ xs) = if str_eq x id then 0 else suc (position id xs)

position-fresh :
    (id : String) (earlier later : List String)
    → contains earlier id ≡ false
    → position id (earlier ++ id ∷ later) ≡ length earlier
position-fresh id [] later new = ground (arith, (eq_iff id id).1 refl)
position-fresh id (x ∷ xs) later new = ground (arith, position-fresh id xs later, new)

position-lt-length :
    (id : String) (earlier later : List String)
    → contains earlier id ≡ true
    → position id (earlier ++ later) < length earlier
position-lt-length id [] later found = cc
position-lt-length id (x ∷ xs) later found = ground (arith, position-lt-length id xs later, found)

OrderedFrom-position :
    (tasks : List TaskNode) (earlier order : List String)
    → OrderedFrom tasks earlier order
    → (id : String) (ds : List String) → contains order id ≡ true
    → needs id tasks ≡ some ds
    → All (λ d. position d (earlier ++ order) < position id (earlier ++ order)) ds
OrderedFrom-position tasks earlier [] h id ds found e = cc
OrderedFrom-position tasks earlier (x ∷ order) h id ds found e = elim (Bool-cases (str_eq x id)) [
  | inl same ↦
      let it : x ≡ id = (eq_iff x id).0 same in
      let ds_same : h.0.dependencies ≡ ds = cc (e, h.0.listed, it) in
      let place = position-fresh x earlier order h.0.fresh in
      rw (sym it, sym ds_same)
        (All-map (λ d. contains earlier d ≡ true)
          (λ d. position d (earlier ++ x ∷ order) < position x (earlier ++ x ∷ order))
          (λ d there. omega (arith, place, position-lt-length d earlier (x ∷ order) there))
          h.0.dependencies h.0.met)
  | inr other ↦
      rw (sym (append_assoc earlier (x ∷ []) order))
        (OrderedFrom-position tasks (earlier ++ x ∷ []) order h.1 id ds (rw other at found) e)
]

duplicate_errors_iff : (ids : List String) → (duplicate_errors ids ≡ []) ↔ (ids ≡ [])
unfolding duplicate_errors
duplicate_errors_iff [] = (λ e. refl, λ e. refl)
duplicate_errors_iff (id ∷ ids) = (λ e. cc, λ e. cc)

-- the errors that are found before the search
abbrev found_first : List TaskNode → List DagError
found_first tasks =
    duplicate_errors (duplicates [] (task_ids tasks)) ++ unknown_errors (task_ids tasks) tasks

abbrev start : List TaskNode → DagSearch
start tasks = record { visited = []; recursion_stack = []; errors = found_first tasks }

start-Inv : (tasks : List TaskNode) → Inv tasks [] (start tasks)
start-Inv tasks = record { ordered = tt; marks = λ id. refl; apart = λ id h. refl }

IsClosed-contains :
    (tasks : List TaskNode)
    → IsClosed tasks
    → (id : String) (ds : List String) → needs id tasks ≡ some ds
    → All (λ d. contains (task_ids tasks) d ≡ true) ds
IsClosed-contains tasks closed id ds e =
    All-map (λ d. (es : List String) × (needs d tasks ≡ some es))
      (λ d. contains (task_ids tasks) d ≡ true) (λ d (es, listed). needs-contains d tasks es listed)
      ds (closed id ds e)

found_first_iff :
    (tasks : List TaskNode) → (found_first tasks ≡ []) ↔ (HasUniqueIds tasks × IsClosed tasks)
unfolding duplicate_errors
found_first_iff tasks = (
  λ e.
      let (repeated, unknown) =
        (append-nil_iff (duplicate_errors (duplicates [] (task_ids tasks))) _).0 e in
      let (unique, _) =
        duplicates-HasUniqueIds [] tasks
          ((duplicate_errors_iff (duplicates [] (task_ids tasks))).0 repeated) in
      (
        unique,
        λ id ds listed.
            All-map (λ d. contains (task_ids tasks) d ≡ true)
              (λ d. (es : List String) × (needs d tasks ≡ some es))
              (λ d there. contains-needs d tasks there) ds
              (unknown_errors-closed (task_ids tasks) tasks unknown id ds listed),
      ),
  λ (unique, closed). (append-nil_iff (duplicate_errors (duplicates [] (task_ids tasks))) _).1 (
    (duplicate_errors_iff (duplicates [] (task_ids tasks))).1
        (duplicates_nil [] tasks unique (λ id h. cc)),
    closed-unknown_errors (task_ids tasks) tasks unique (IsClosed-contains tasks closed),
  ),
)

task_ids-known :
    (tasks all : List TaskNode)
    → ((id : String) → contains (task_ids tasks) id ≡ true → contains (task_ids all) id ≡ true)
    → All (λ id. (es : List String) × (needs id all ≡ some es)) (task_ids tasks)
task_ids-known [] all h = tt
task_ids-known (t ∷ ts) all h = (
  contains-needs t.task_id all (h t.task_id (ground (arith, (eq_iff t.task_id t.task_id).1 refl))),
  task_ids-known ts all (λ id there. h id (ground (arith, there))),
)

unmarked : (tasks : List TaskNode) → missing [] (task_ids tasks) ≡ length tasks
unmarked [] = refl
unmarked (t ∷ ts) = omega (arith, unmarked ts)

All-contains :
    (xs ys : List String)
    → All (λ x. contains ys x ≡ true) xs
    → (id : String) → contains xs id ≡ true
    → contains ys id ≡ true
All-contains [] ys h id found = cc
All-contains (x ∷ xs) ys h id found = elim (Bool-cases (str_eq x id)) [
  | inl same ↦ cc (h.0, (eq_iff x id).0 same)
  | inr other ↦ All-contains xs ys h.1 id (rw other at found)
]

All-both :
    (P Q : String → Type 0) (xs : List String) → All P xs → All Q xs → All (λ x. P x × Q x) xs
All-both P Q [] h k = tt
All-both P Q (x ∷ xs) h k = ((h.0, k.0), All-both P Q xs h.1 k.1)

-- A search without an error gives ranks.
IsAcyclic-position :
    (tasks : List TaskNode) (t : DagSearch)
    → IsClosed tasks
    → (h : Finishes tasks [] (task_ids tasks) (start tasks) t)
    → IsAcyclic (λ id. position id h.more) tasks
IsAcyclic-position tasks t closed h id ds e =
    let done = All-contains (task_ids tasks) h.more h.includes id (needs-contains id tasks ds e) in
    All-both (λ d. position d h.more < position id h.more)
      (λ d. (es : List String) × (needs d tasks ≡ some es)) ds
      (OrderedFrom-position tasks [] h.more h.inv.ordered id ds done e) (closed id ds e)

IsAcyclic-IsClosed :
    (rank : String → ℕ) (tasks : List TaskNode) → IsAcyclic rank tasks → IsClosed tasks
IsAcyclic-IsClosed rank tasks acyclic id ds e =
    All-map (λ d. (rank d < rank id) × ((es : List String) × (needs d tasks ≡ some es)))
      (λ d. (es : List String) × (needs d tasks ≡ some es)) (λ d both. both.1) ds (acyclic id ds e)

-- The ids are distinct, and the dependencies of each task are tasks of lower rank, for some ranks.
abbrev pub IsWellFounded : List TaskNode → Type 0
IsWellFounded tasks = HasUniqueIds tasks × ((rank : String → ℕ) × IsAcyclic rank tasks)

check_tasks_iff :
    (tasks : List TaskNode) (fuel : ℕ) (t : DagSearch)
    → check_tasks fuel tasks (task_ids tasks) (start tasks) ≡ some t
    → (t.errors ≡ []) ↔ IsWellFounded tasks
check_tasks_iff tasks fuel t e =
    let known = task_ids-known tasks tasks (λ id there. there) in
    (
      λ clean.
          let (unique, closed) =
            (found_first_iff tasks).0
              (check_tasks-Clean tasks fuel (task_ids tasks) (start tasks) t e clean) in
          let h =
            check_tasks-Finishes tasks closed fuel (task_ids tasks) known (start tasks) t []
              (start-Inv tasks) refl e clean in
          (unique, (λ id. position id h.more, IsAcyclic-position tasks t closed h)),
      λ (unique, (rank, acyclic)).
          check_tasks-quiet tasks rank acyclic fuel (task_ids tasks) known (start tasks) t refl e
          ∙ (found_first_iff tasks).1 (unique, IsAcyclic-IsClosed rank tasks acyclic),
    )

-- With recursion as deep as there are tasks and one level more, the validation of a plan returns, and finds
-- no error exactly if the ids of the tasks are distinct and each dependency is a task of lower rank, for some
-- ranks of the tasks: no task waits for itself, directly or through others.
pub validate_dag_iff :
    (tasks : List TaskNode) (fuel : ℕ)
    → length tasks + 1 ≤ fuel
    → (errors : List DagError) × (validate_dag fuel tasks ≡ some errors)
      × ((errors ≡ []) ↔ IsWellFounded tasks)
unfolding validate_dag
validate_dag_iff tasks fuel h =
    let (t, e) =
      check_tasks-returns tasks fuel (task_ids tasks) (start tasks)
        (omega (arith, h, unmarked tasks)) in
    (t.errors, rw (validate_dag, e) refl, check_tasks_iff tasks fuel t e)

-- The topological order of a plan that was found valid holds every task, when both have enough rounds.
pub compute_topological_order-validate_dag :
    (tasks : List TaskNode) (fuel rounds : ℕ)
    → length tasks + 1 ≤ fuel
    → enough tasks ≤ rounds
    → validate_dag fuel tasks ≡ some []
    → (r : TopologicalOrder) × (compute_topological_order rounds tasks ≡ some r)
      × All (λ id. contains r.order id ≡ true) (task_ids tasks)
compute_topological_order-validate_dag tasks fuel rounds h k valid =
    let (errors, returns, iff) = validate_dag_iff tasks fuel h in
    let (unique, (rank, acyclic)) = iff.0 (cc (returns, valid)) in
    let (r, e, whole) = compute_topological_order-IsAcyclic rank tasks rounds unique acyclic k in
    (
      r,
      e,
      All-map (λ id. (ds : List String) × (needs id tasks ≡ some ds))
          (λ id. contains r.order id ≡ true) (λ id (ds, listed). whole id ds listed)
          (task_ids tasks) (task_ids-known tasks tasks (λ id there. there)),
    )
