-- ===== src/Planner/Dag/Checks.antt =====
-- The checks of validateDAG for repeated ids and for dependencies that are no tasks.
use codemachine_pipeline.Prelude.{
  ◌≡◌, ◌↔◌, refl, sym, String, true, false, none, some, List, [], ◌∷◌, ◌++◌, All, contains, arith,
  Bool-cases, inl, inr, str_eq, eq_iff,
}
use codemachine_pipeline.Planner.{TaskNode}
use codemachine_pipeline.Planner.Order.{needs, HasUniqueIds}
use codemachine_pipeline.Planner.Dag.{task_ids, duplicates, unknown_in, unknown_errors}

pub contains-needs :
    (id : String) (tasks : List TaskNode)
    → contains (task_ids tasks) id ≡ true
    → (ds : List String) × (needs id tasks ≡ some ds)
contains-needs id [] h = cc
contains-needs id (t ∷ ts) h = elim (Bool-cases (str_eq t.task_id id)) [
  | inl same ↦ (t.dependencies, rw same refl)
  | inr other ↦ let (ds, e) = contains-needs id ts (rw other at h) in (ds, rw other e)
]

-- No id of `earlier` is the id of a task.
abbrev pub Misses : List String → List TaskNode → Type 0
Misses earlier tasks = (id : String) → contains earlier id ≡ true → needs id tasks ≡ none

pub duplicates-HasUniqueIds :
    (earlier : List String) (tasks : List TaskNode)
    → duplicates earlier (task_ids tasks) ≡ []
    → HasUniqueIds tasks × Misses earlier tasks
unfolding duplicates
duplicates-HasUniqueIds earlier [] h = (tt, λ id found. refl)
duplicates-HasUniqueIds earlier (t ∷ ts) h = elim (Bool-cases (contains earlier t.task_id)) [
  | inl twice ↦ absurd (cc (rw twice at h))
  | inr new ↦
      let (unique, misses) = duplicates-HasUniqueIds (t.task_id ∷ earlier) ts (rw new at h) in
      (
        (misses t.task_id (ground (arith, (eq_iff t.task_id t.task_id).1 refl)), unique),
        λ id found. ground (arith, misses id, found, new, eq_iff t.task_id id),
      )
]

pub duplicates_nil :
    (earlier : List String) (tasks : List TaskNode)
    → HasUniqueIds tasks
    → Misses earlier tasks
    → duplicates earlier (task_ids tasks) ≡ []
unfolding duplicates
duplicates_nil earlier [] unique misses = refl
duplicates_nil earlier (t ∷ ts) unique misses =
    let new : contains earlier t.task_id ≡ false =
      ground (arith, misses t.task_id, (eq_iff t.task_id t.task_id).1 refl) in
    rw new (
      duplicates_nil (t.task_id ∷ earlier) ts unique.1 λ id found.
        elim (Bool-cases (str_eq t.task_id id)) [
          | inl same ↦ cc ((eq_iff t.task_id id).0 same, unique.0)
          | inr other ↦ ground (arith, misses id (rw other at found), other)
        ])

pub append-nil_iff : {A : Type 0} (xs ys : List A) → ((xs ++ ys) ≡ []) ↔ ((xs ≡ []) × (ys ≡ []))
append-nil_iff [] ys = (λ e. (refl, e), λ e. e.1)
append-nil_iff (x ∷ xs) ys = (λ e. cc, λ e. cc)

unknown_in_iff :
    (ids : List String) (id : String) (ds : List String)
    → (unknown_in ids id ds ≡ []) ↔ All (λ d. contains ids d ≡ true) ds
unfolding unknown_in
unknown_in_iff ids id [] = (λ e. tt, λ h. refl)
unknown_in_iff ids id (d ∷ ds) = elim (Bool-cases (contains ids d)) [
  | inl known ↦
      let (to, from) = unknown_in_iff ids id ds in
      (λ e. (known, to (rw known at e)), λ h. rw known (from h.1))
  | inr unknown ↦ (λ e. absurd (cc (rw unknown at e)), λ h. absurd (cc (h.0, unknown)))
]

pub unknown_errors-closed :
    (ids : List String) (tasks : List TaskNode)
    → unknown_errors ids tasks ≡ []
    → (id : String) (ds : List String) → needs id tasks ≡ some ds
    → All (λ d. contains ids d ≡ true) ds
unfolding unknown_errors
unknown_errors-closed ids [] h id ds e = cc
unknown_errors-closed ids (t ∷ ts) h id ds e =
    let (first, rest) = (append-nil_iff (unknown_in ids t.task_id t.dependencies) _).0 h in
    elim (Bool-cases (str_eq t.task_id id)) [
      | inl same ↦
          let it : t.dependencies ≡ ds = cc (rw same at e) in
          rw (sym it) ((unknown_in_iff ids t.task_id t.dependencies).0 first)
      | inr other ↦ unknown_errors-closed ids ts rest id ds (rw other at e)
    ]

pub closed-unknown_errors :
    (ids : List String) (tasks : List TaskNode)
    → HasUniqueIds tasks
    → ((id : String) (ds : List String)
        → needs id tasks ≡ some ds
        → All (λ d. contains ids d ≡ true) ds)
    → unknown_errors ids tasks ≡ []
unfolding unknown_errors
closed-unknown_errors ids [] unique closed = refl
closed-unknown_errors ids (t ∷ ts) unique closed =
    (append-nil_iff (unknown_in ids t.task_id t.dependencies) _).1 (
      (unknown_in_iff ids t.task_id t.dependencies).1
          (closed t.task_id t.dependencies (ground (arith, (eq_iff t.task_id t.task_id).1 refl))),
      closed-unknown_errors ids ts unique.1
          λ id ds e. closed id ds (ground (arith, e, unique.0, eq_iff t.task_id id)),
    )
