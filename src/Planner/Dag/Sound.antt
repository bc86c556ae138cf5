-- ===== src/Planner/Dag/Sound.antt =====
-- A search that reports no error leaves the tasks in the order in which it left them, each after its
-- dependencies.
use codemachine_pipeline.Prelude.{
  ℕ, zero, suc, ◌≡◌, refl, sym, ap, ◌∙◌, String, Bool, true, false, ◌||◌, Option, some, List, [],
  ◌∷◌, ◌++◌, All, contains, arith, Bool-cases, Option-cases, ◌⊎◌, inl, inr, eq_iff,
}
use codemachine_pipeline.Planner.{TaskNode}
use codemachine_pipeline.Planner.Order.{needs, OrderedFrom, OrderedFrom-push, contains-push}
use codemachine_pipeline.Planner.Dag.{
  DagSearch, cycle_found, leave, report, enter, delete_id, check_dependencies, has_cycle,
  check_tasks,
}
use codemachine_pipeline.Planner.Dag.Errors.{
  push-not-nil, Clean, check_dependencies-Clean, has_cycle-Clean, check_tasks-Clean,
}

-- Each dependency of a task is a task.
abbrev pub IsClosed : List TaskNode → Type 0
IsClosed tasks =
    (id : String) (ds : List String)
    → needs id tasks ≡ some ds
    → All (λ d. (es : List String) × (needs d tasks ≡ some es)) ds

-- `finished` holds the tasks that were left, first to last.
pub record Inv (tasks : List TaskNode) (finished : List String) (s : DagSearch) : Type 0 where
  pub ordered : OrderedFrom tasks [] finished
  pub marks :
      (id : String)
      → contains s.visited id ≡ (contains finished id || contains s.recursion_stack id)
  pub apart : (id : String) → contains s.recursion_stack id ≡ true → contains finished id ≡ false

-- From `s` to `t` more tasks are finished, those of `ids` among them.
pub record Finishes (tasks : List TaskNode) (finished ids : List String) (s t : DagSearch)
    : Type 0 where
  pub more : List String
  pub inv : Inv tasks more t
  pub includes : All (λ id. contains more id ≡ true) ids
  pub keeps : (id : String) → contains finished id ≡ true → contains more id ≡ true
  pub stack : t.recursion_stack ≡ s.recursion_stack

-- First `id`, then `ids`.
Finishes-cons :
    (tasks : List TaskNode) (finished : List String) (id : String) (ids : List String)
    (s t u : DagSearch)
    → (first : Finishes tasks finished (id ∷ []) s t) → Finishes tasks first.more ids t u
    → Finishes tasks finished (id ∷ ids) s u
Finishes-cons tasks finished id ids s t u first rest = record {
  more = rest.more;
  inv = rest.inv;
  includes = (rest.keeps id first.includes.0, rest.includes);
  keeps = λ x h. rest.keeps x (first.keeps x h);
  stack = rest.stack ∙ first.stack;
}

-- The answer of a call, if no error was reported.
abbrev Answers : List TaskNode → List String → String → DagSearch → Bool × DagSearch → Type 0
Answers tasks finished id s (cyclic, t) =
    ((cyclic ≡ true) × (contains s.recursion_stack id ≡ true))
    ⊎ ((cyclic ≡ false) × Finishes tasks finished (id ∷ []) s t)

abbrev Visits : List TaskNode → (String → DagSearch → Option (Bool × DagSearch)) → Type 0
Visits tasks visit =
    (id : String) (es : List String) (s : DagSearch) (finished : List String) (r : Bool × DagSearch)
    → needs id tasks ≡ some es
    → Inv tasks finished s
    → visit id s ≡ some r
    → r.1.errors ≡ []
    → Answers tasks finished id s r

module _ (tasks : List TaskNode) (visit : String → DagSearch → Option (Bool × DagSearch))
    (visits : Visits tasks visit) (clean : (d : String) (s : DagSearch) → Clean s (visit d s))
    (id : String) where
  -- The loop ends without an answer of true, and takes the task off the stack.
  check_dependencies-Finishes :
      (ds : List String) (s : DagSearch) (finished : List String) (r : Bool × DagSearch)
      → All (λ d. (es : List String) × (needs d tasks ≡ some es)) ds
      → Inv tasks finished s
      → check_dependencies visit id ds s ≡ some r
      → r.1.errors ≡ []
      → (u : DagSearch) × (r ≡ (false, leave id u)) × Finishes tasks finished ds s u
  unfolding check_dependencies
  check_dependencies-Finishes [] s finished r known inv e none_left = (
    s,
    cc e,
    record { more = finished; inv = inv; includes = tt; keeps = λ x h. h; stack = refl },
  )
  check_dependencies-Finishes (d ∷ ds) s finished r known inv e none_left =
      elim (Option-cases (visit d s)) [
        | inl stuck ↦ absurd (cc (rw stuck at e))
        | inr ((cyclic, t), found) ↦ elim (Bool-cases cyclic) [
          | inl c ↦
              let same : r ≡ (true, leave id (report id t)) = cc (rw (found, c) at e) in
              absurd (push-not-nil t.errors (cycle_found id) (rw same at none_left))
          | inr c ↦
              let left =
                check_dependencies-Clean visit clean id ds t r (rw (found, c) at e) none_left in
              elim (visits d known.0.0 s finished (cyclic, t) known.0.1 inv found left) [
                | inl (yes_it_is, _) ↦ absurd (cc (yes_it_is, c))
                | inr (_, first) ↦
                    let (u, same, rest) =
                      check_dependencies-Finishes ds t first.more r known.1 first.inv
                        (rw (found, c) at e) none_left in
                    (u, same, Finishes-cons tasks finished d ds s t u first rest)
              ]
        ]
      ]

enter-Inv :
    (tasks : List TaskNode) (finished : List String) (id : String) (s : DagSearch)
    → contains s.visited id ≡ false
    → Inv tasks finished s
    → Inv tasks finished (enter id s)
enter-Inv tasks finished id s new inv = record {
  ordered = inv.ordered;
  marks = λ x. ground (arith, inv.marks x);
  apart = λ x h. ground (arith, inv.marks id, inv.apart x, new, h, eq_iff id x);
}

leave-Finishes :
    (tasks : List TaskNode) (finished : List String) (id : String) (es : List String)
    (s u : DagSearch)
    → contains s.recursion_stack id ≡ false
    → needs id tasks ≡ some es
    → Finishes tasks finished es (enter id s) u
    → Finishes tasks finished (id ∷ []) s (leave id u)
leave-Finishes tasks finished id es s u off listed h =
    let stack = ap (λ l. contains l id) h.stack in
    let under = λ (x : String). ap (λ l. contains l x) h.stack in
    let same = (eq_iff id id).1 refl in
    let fresh : contains h.more id ≡ false = h.inv.apart id (ground (arith, stack, same)) in
    let back : delete_id id u.recursion_stack ≡ s.recursion_stack =
      ap (delete_id id) h.stack ∙ ground (arith, same) in
    let below = λ (x : String). ap (λ l. contains l x) back in
    record {
      more = h.more ++ id ∷ [];
      inv = record {
        ordered =
            OrderedFrom-push tasks [] h.more id h.inv.ordered
              (record { fresh = fresh; dependencies = es; listed = listed; met = h.includes });
        marks = λ x. ground (arith, h.inv.marks x, under x, below x, contains-push h.more id x);
        apart = λ x on. ground (
          arith,
          h.inv.apart x,
          under x,
          below x,
          contains-push h.more id x,
          eq_iff id x,
          off,
          on,
        );
      };
      includes = (ground (arith, contains-push h.more id id, same), tt);
      keeps = λ x done. ground (arith, h.keeps x done, contains-push h.more id x);
      stack = back;
    }

has_cycle-Visits :
    (tasks : List TaskNode) → IsClosed tasks → (fuel : ℕ) → Visits tasks (has_cycle fuel tasks)
unfolding has_cycle
has_cycle-Visits tasks closed zero id es s finished r listed inv e none_left = cc
has_cycle-Visits tasks closed (suc fuel) id es s finished r listed inv e none_left =
    elim (Bool-cases (contains s.recursion_stack id)) [
      | inl on ↦ inl (cc (rw on at e), on)
      | inr off ↦ elim (Bool-cases (contains s.visited id)) [
        | inl seen ↦
            let same : r ≡ (false, s) = cc (rw (off, seen) at e) in
            rw same (
              inr (
                refl,
                record {
                  more = finished;
                  inv = inv;
                  includes = (ground (arith, inv.marks id, seen, off), tt);
                  keeps = λ x h. h;
                  stack = refl;
                },
              ))
        | inr new ↦
            let (u, same, loop) =
              check_dependencies-Finishes tasks (has_cycle fuel tasks)
                (has_cycle-Visits tasks closed fuel) (has_cycle-Clean fuel tasks) id es (enter id s)
                finished r (closed id es listed) (enter-Inv tasks finished id s new inv)
                (rw (off, new, listed) at e) none_left in
            rw same (inr (refl, leave-Finishes tasks finished id es s u off listed loop))
      ]
    ]

-- After the loop over the tasks every one of them is finished.
pub check_tasks-Finishes :
    (tasks : List TaskNode)
    → IsClosed tasks
    → (fuel : ℕ) (ids : List String)
    → All (λ id. (es : List String) × (needs id tasks ≡ some es)) ids
    → (s t : DagSearch) (finished : List String) → Inv tasks finished s
    → s.recursion_stack ≡ []
    → check_tasks fuel tasks ids s ≡ some t
    → t.errors ≡ []
    → Finishes tasks finished ids s t
unfolding check_tasks
check_tasks-Finishes tasks closed fuel [] known s t finished inv empty e none_left =
    let same : s ≡ t = cc e in
    rw (sym same)
      (record { more = finished; inv = inv; includes = tt; keeps = λ x h. h; stack = refl })
check_tasks-Finishes tasks closed fuel (id ∷ ids) known s t finished inv empty e none_left =
    elim (Bool-cases (contains s.visited id)) [
      | inl seen ↦
          let first : Finishes tasks finished (id ∷ []) s s = record {
            more = finished;
            inv = inv;
            includes = (ground (arith, inv.marks id, seen, ap (λ l. contains l id) empty), tt);
            keeps = λ x h. h;
            stack = refl;
          } in
          Finishes-cons tasks finished id ids s s t first (
            check_tasks-Finishes tasks closed fuel ids known.1 s t finished inv empty (rw seen at e)
              none_left)
      | inr new ↦ elim (Option-cases (has_cycle fuel tasks id s)) [
        | inl stuck ↦ absurd (cc (rw (new, stuck) at e))
        | inr ((cyclic, u), found) ↦
            let left = check_tasks-Clean tasks fuel ids u t (rw (new, found) at e) none_left in
            elim (has_cycle-Visits tasks closed fuel id known.0.0 s finished (cyclic, u) known.0.1
              inv found left) [
                | inl (_, on) ↦ absurd (ground (arith, on, ap (λ l. contains l id) empty))
                | inr (_, first) ↦ Finishes-cons tasks finished id ids s u t first (
                    check_tasks-Finishes tasks closed fuel ids known.1 u t first.more first.inv
                      (first.stack ∙ empty) (rw (new, found) at e) none_left)
              ]
      ]
    ]
