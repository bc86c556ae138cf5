-- ===== src/Planner/Dag/Errors.antt =====
-- An error that hasCycle reports stays.
use codemachine_pipeline.Prelude.{
  ℕ, zero, suc, ◌≡◌, String, Bool, true, Option, some, List, [], ◌∷◌, ◌++◌, contains, Bool-cases,
  Option-cases, inl, inr,
}
use codemachine_pipeline.Queue.Types.{or_else}
use codemachine_pipeline.Planner.{TaskNode}
use codemachine_pipeline.Planner.Order.{needs}
use codemachine_pipeline.Planner.Dag.{
  DagSearch, cycle_found, leave, report, enter, check_dependencies, has_cycle, check_tasks,
}

pub push-not-nil : {A : Type 0} (xs : List A) (x : A) → (xs ++ x ∷ []) ≡ [] → ⊥
push-not-nil [] x e = cc
push-not-nil (y ∷ ys) x e = cc

-- Errors stay.
abbrev pub Clean : DagSearch → Option (Bool × DagSearch) → Type 0
Clean s o = (r : Bool × DagSearch) → o ≡ some r → r.1.errors ≡ [] → s.errors ≡ []

pub check_dependencies-Clean :
    (visit : String → DagSearch → Option (Bool × DagSearch))
    → ((d : String) (s : DagSearch) → Clean s (visit d s))
    → (id : String) (ds : List String) (s : DagSearch) → Clean s (check_dependencies visit id ds s)
unfolding check_dependencies
check_dependencies-Clean visit clean id [] s r e none_left = cc
check_dependencies-Clean visit clean id (d ∷ ds) s r e none_left = elim (Option-cases (visit d s)) [
  | inl stuck ↦ absurd (cc (rw stuck at e))
  | inr ((cyclic, t), found) ↦ elim (Bool-cases cyclic) [
    | inl c ↦
        let same : r ≡ (true, leave id (report id t)) = cc (rw (found, c) at e) in
        absurd (push-not-nil t.errors (cycle_found id) (rw same at none_left))
    | inr c ↦
        clean d s (cyclic, t) found
          (check_dependencies-Clean visit clean id ds t r (rw (found, c) at e) none_left)
  ]
]

pub has_cycle-Clean :
    (fuel : ℕ) (tasks : List TaskNode) (id : String) (s : DagSearch)
    → Clean s (has_cycle fuel tasks id s)
unfolding has_cycle
has_cycle-Clean zero tasks id s r e none_left = cc
has_cycle-Clean (suc fuel) tasks id s r e none_left =
    elim (Bool-cases (contains s.recursion_stack id)) [
      | inl on ↦ cc (rw on at e, none_left)
      | inr off ↦ elim (Bool-cases (contains s.visited id)) [
        | inl seen ↦ cc (rw (off, seen) at e, none_left)
        | inr new ↦
            check_dependencies-Clean (has_cycle fuel tasks) (has_cycle-Clean fuel tasks) id
              (or_else (needs id tasks) []) (enter id s) r (rw (off, new) at e) none_left
      ]
    ]

pub check_tasks-Clean :
    (tasks : List TaskNode) (fuel : ℕ) (ids : List String) (s t : DagSearch)
    → check_tasks fuel tasks ids s ≡ some t
    → t.errors ≡ []
    → s.errors ≡ []
unfolding check_tasks
check_tasks-Clean tasks fuel [] s t e none_left = cc
check_tasks-Clean tasks fuel (id ∷ ids) s t e none_left =
    elim (Bool-cases (contains s.visited id)) [
      | inl seen ↦ check_tasks-Clean tasks fuel ids s t (rw seen at e) none_left
      | inr new ↦ elim (Option-cases (has_cycle fuel tasks id s)) [
        | inl stuck ↦ absurd (cc (rw (new, stuck) at e))
        | inr (r, found) ↦
            has_cycle-Clean fuel tasks id s r found
              (check_tasks-Clean tasks fuel ids r.1 t (rw (new, found) at e) none_left)
      ]
    ]
