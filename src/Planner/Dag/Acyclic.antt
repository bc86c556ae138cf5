-- ===== src/Planner/Dag/Acyclic.antt =====
-- A search of tasks whose dependencies have lower ranks reports nothing.
use codemachine_pipeline.Prelude.{
  ℕ, zero, suc, ◌<◌, ◌≡◌, refl, ap, ◌∙◌, String, Bool, false, Option, some, List, [], ◌∷◌, All,
  All-map, contains, arith, Bool-cases, Option-cases, inl, inr, str_eq, eq_iff,
}
use codemachine_pipeline.Planner.{TaskNode}
use codemachine_pipeline.Planner.Order.{needs}
use codemachine_pipeline.Planner.Order.Loop.{IsAcyclic}
use codemachine_pipeline.Planner.Dag.{
  DagSearch, leave, enter, delete_id, check_dependencies, has_cycle, check_tasks,
}

-- The tasks on the stack are of higher rank than `id`.
abbrev Above : (String → ℕ) → String → List String → Type 0
Above rank id stack = All (λ x. rank id < rank x) stack

Above-fresh :
    (rank : String → ℕ) (id : String) (stack : List String)
    → Above rank id stack
    → contains stack id ≡ false
Above-fresh rank id [] h = refl
Above-fresh rank id (x ∷ xs) h = elim (Bool-cases (str_eq x id)) [
  | inl same ↦ absurd (omega (arith, h.0, ap rank ((eq_iff x id).0 same)))
  | inr other ↦ rw other (Above-fresh rank id xs h.1)
]

Above-lower :
    (rank : String → ℕ) (d id : String) (stack : List String)
    → rank d < rank id
    → Above rank id stack
    → Above rank d stack
Above-lower rank d id stack less h =
    All-map (λ x. rank id < rank x) (λ x. rank d < rank x) (λ x above. omega (arith, less, above))
      stack h

-- A call answers false, and leaves the errors and the stack as they were.
record Quiet (s : DagSearch) (r : Bool × DagSearch) : Type 0 where
  answer : r.0 ≡ false
  errors : r.1.errors ≡ s.errors
  stack : r.1.recursion_stack ≡ s.recursion_stack

abbrev QuietCalls :
    List TaskNode → (String → ℕ) → (String → DagSearch → Option (Bool × DagSearch)) → Type 0
QuietCalls tasks rank visit =
    (id : String) (es : List String) (s : DagSearch) (r : Bool × DagSearch)
    → needs id tasks ≡ some es
    → Above rank id s.recursion_stack
    → visit id s ≡ some r
    → Quiet s r

module _ (tasks : List TaskNode) (rank : String → ℕ)
    (visit : String → DagSearch → Option (Bool × DagSearch)) (quiet : QuietCalls tasks rank visit)
    (id : String) (st : List String) (above : Above rank id st) where
  check_dependencies-quiet :
      (ds : List String) (s : DagSearch) (r : Bool × DagSearch)
      → All (λ d. (rank d < rank id) × ((es : List String) × (needs d tasks ≡ some es))) ds
      → s.recursion_stack ≡ id ∷ st
      → check_dependencies visit id ds s ≡ some r
      → (r.0 ≡ false) × (r.1.errors ≡ s.errors) × (r.1.recursion_stack ≡ st)
  unfolding check_dependencies
  check_dependencies-quiet [] s r lower on e =
      let same : r ≡ (false, leave id s) = cc e in
      let back : delete_id id s.recursion_stack ≡ st =
        ap (delete_id id) on ∙ ground (arith, (eq_iff id id).1 refl) in
      rw same (refl, refl, back)
  check_dependencies-quiet (d ∷ ds) s r lower on e = elim (Option-cases (visit d s)) [
    | inl stuck ↦ absurd (cc (rw stuck at e))
    | inr ((cyclic, t), found) ↦
        let (less, (es, listed)) = lower.0 in
        let first =
          quiet d es s (cyclic, t) listed (rw on (less, Above-lower rank d id st less above))
            found in
        let (answer, errors, stack) =
          check_dependencies-quiet ds t r lower.1 (first.stack ∙ on)
            (rw (found, first.answer) at e) in
        (answer, errors ∙ first.errors, stack)
  ]

has_cycle-QuietCalls :
    (tasks : List TaskNode) (rank : String → ℕ)
    → IsAcyclic rank tasks
    → (fuel : ℕ) → QuietCalls tasks rank (has_cycle fuel tasks)
unfolding has_cycle
has_cycle-QuietCalls tasks rank acyclic zero id es s r listed above e = cc
has_cycle-QuietCalls tasks rank acyclic (suc fuel) id es s r listed above e =
    let off = Above-fresh rank id s.recursion_stack above in
    elim (Bool-cases (contains s.visited id)) [
      | inl seen ↦
          let same : r ≡ (false, s) = cc (rw (off, seen) at e) in
          rw same (record { answer = refl; errors = refl; stack = refl })
      | inr new ↦
          let (answer, errors, stack) =
            check_dependencies-quiet tasks rank (has_cycle fuel tasks)
              (has_cycle-QuietCalls tasks rank acyclic fuel) id s.recursion_stack above es
              (enter id s) r (acyclic id es listed) refl (rw (off, new, listed) at e) in
          record { answer = answer; errors = errors; stack = stack }
    ]

pub check_tasks-quiet :
    (tasks : List TaskNode) (rank : String → ℕ)
    → IsAcyclic rank tasks
    → (fuel : ℕ) (ids : List String)
    → All (λ id. (es : List String) × (needs id tasks ≡ some es)) ids
    → (s t : DagSearch) → s.recursion_stack ≡ []
    → check_tasks fuel tasks ids s ≡ some t
    → t.errors ≡ s.errors
unfolding check_tasks
check_tasks-quiet tasks rank acyclic fuel [] known s t empty e = cc
check_tasks-quiet tasks rank acyclic fuel (id ∷ ids) known s t empty e =
    elim (Bool-cases (contains s.visited id)) [
      | inl seen ↦ check_tasks-quiet tasks rank acyclic fuel ids known.1 s t empty (rw seen at e)
      | inr new ↦ elim (Option-cases (has_cycle fuel tasks id s)) [
        | inl stuck ↦ absurd (cc (rw (new, stuck) at e))
        | inr ((cyclic, u), found) ↦
            let first =
              has_cycle-QuietCalls tasks rank acyclic fuel id known.0.0 s (cyclic, u) known.0.1
                (rw empty tt) found in
            check_tasks-quiet tasks rank acyclic fuel ids known.1 u t (first.stack ∙ empty)
              (rw (new, found) at e)
            ∙ first.errors
      ]
    ]
