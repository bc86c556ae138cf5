-- ===== src/Planner/Dag/Visits.antt =====
-- hasCycle returns: each call that goes deeper marks one more task.
use codemachine_pipeline.Prelude.{
  ℕ, zero, suc, ◌+◌, ◌≤◌, ◌≡◌, refl, String, Bool, true, false, Option, some, List, [], ◌∷◌,
  contains, arith, Bool-cases, Option-cases, inl, inr, eq_iff,
}
use codemachine_pipeline.Planner.{TaskNode}
use codemachine_pipeline.Planner.Order.{needs, missing}
use codemachine_pipeline.Planner.Dag.{
  task_ids, DagSearch, leave, report, enter, check_dependencies, has_cycle, check_tasks,
}

missing-cons : (id : String) (done ids : List String) → missing (id ∷ done) ids ≤ missing done ids
missing-cons id done [] = omega arith
missing-cons id done (x ∷ xs) = ground (arith, missing-cons id done xs)

missing-mark :
    (id : String) (done ids : List String)
    → contains done id ≡ false
    → contains ids id ≡ true
    → missing (id ∷ done) ids + 1 ≤ missing done ids
missing-mark id done [] new listed = cc
missing-mark id done (x ∷ xs) new listed =
    ground (arith, missing-cons id done xs, missing-mark id done xs new, eq_iff x id, eq_iff id x)

pub needs-contains :
    (id : String) (tasks : List TaskNode) (ds : List String)
    → needs id tasks ≡ some ds
    → contains (task_ids tasks) id ≡ true
needs-contains id [] ds e = cc
needs-contains id (t ∷ ts) ds e = ground (arith, needs-contains id ts ds)

-- A call returns, and leaves no more tasks unmarked than there were.
abbrev Returns : List TaskNode → DagSearch → Option (Bool × DagSearch) → Type 0
Returns tasks s o =
    (r : Bool × DagSearch) × (o ≡ some r)
    × (missing r.1.visited (task_ids tasks) ≤ missing s.visited (task_ids tasks))

module _ (tasks : List TaskNode) (n : ℕ) (visit : String → DagSearch → Option (Bool × DagSearch))
    (returns : (d : String) (s : DagSearch)
      → missing s.visited (task_ids tasks) ≤ n
      → Returns tasks s (visit d s))
    (id : String) where
  check_dependencies-Returns :
      (ds : List String) (s : DagSearch)
      → missing s.visited (task_ids tasks) ≤ n
      → Returns tasks s (check_dependencies visit id ds s)
  unfolding check_dependencies
  check_dependencies-Returns [] s h = ((false, leave id s), refl, omega arith)
  check_dependencies-Returns (d ∷ ds) s h =
      let ((cyclic, t), e, less) = returns d s h in
      elim (Bool-cases cyclic) [
        | inl c ↦ ((true, leave id (report id t)), rw (e, c) refl, less)
        | inr c ↦
            let (r, e2, less2) = check_dependencies-Returns ds t (omega (arith, less, h)) in
            (r, rw (e, c) e2, omega (arith, less, less2))
      ]

has_cycle-Returns :
    (tasks : List TaskNode) (fuel : ℕ) (id : String) (s : DagSearch)
    → missing s.visited (task_ids tasks) + 1 ≤ fuel
    → Returns tasks s (has_cycle fuel tasks id s)
unfolding has_cycle
has_cycle-Returns tasks zero id s h = absurd (omega (arith, h))
has_cycle-Returns tasks (suc fuel) id s h = elim (Bool-cases (contains s.recursion_stack id)) [
  | inl on ↦ ((true, s), rw on refl, omega arith)
  | inr off ↦ elim (Bool-cases (contains s.visited id)) [
    | inl seen ↦ ((false, s), rw (off, seen) refl, omega arith)
    | inr new ↦ elim (Option-cases (needs id tasks)) [
      | inl none_such ↦ (
        (false, leave id (enter id s)),
        rw (off, new, none_such, check_dependencies) refl,
        missing-cons id s.visited (task_ids tasks),
      )
      | inr (ds, listed) ↦
          let marked =
            missing-mark id s.visited (task_ids tasks) new (needs-contains id tasks ds listed) in
          let (r, e, less) =
            check_dependencies-Returns tasks (missing (id ∷ s.visited) (task_ids tasks))
              (has_cycle fuel tasks)
              (λ d t le. has_cycle-Returns tasks fuel d t (omega (arith, le, marked, h))) id ds
              (enter id s) (omega arith) in
          (r, rw (off, new, listed) e, omega (arith, less, marked))
    ]
  ]
]

pub check_tasks-returns :
    (tasks : List TaskNode) (fuel : ℕ) (ids : List String) (s : DagSearch)
    → missing s.visited (task_ids tasks) + 1 ≤ fuel
    → (t : DagSearch) × (check_tasks fuel tasks ids s ≡ some t)
unfolding check_tasks
check_tasks-returns tasks fuel [] s h = (s, refl)
check_tasks-returns tasks fuel (id ∷ ids) s h = elim (Bool-cases (contains s.visited id)) [
  | inl seen ↦ let (t, e) = check_tasks-returns tasks fuel ids s h in (t, rw seen e)
  | inr new ↦
      let (r, e, less) = has_cycle-Returns tasks fuel id s h in
      let (t, e2) = check_tasks-returns tasks fuel ids r.1 (omega (arith, less, h)) in
      (t, rw (new, e) e2)
]
