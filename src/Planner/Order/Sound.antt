-- ===== src/Planner/Order/Sound.antt =====
-- What a round of the loop of the topological order keeps: the in-degrees count the dependencies that are
-- not in the order, and a task is queued once, when there is none left.
use codemachine_pipeline.Prelude.{
  ℕ, suc, ◌+◌, ◌≡◌, refl, sym, ap, ◌∙◌, String, Bool, true, false, none, some, List, [], ◌∷◌, ◌++◌,
  ◌==◌, if◌then◌else◌, arith, Bool-cases, Option-cases, inl, inr, str_eq, eq_iff,
}
use codemachine_pipeline.Prelude.Int.{pos, dec, int_eq}
use codemachine_pipeline.Prelude.OrderedMap
use codemachine_pipeline.Prelude.OrderedMap.{OrderedMap, get-set, values}
use codemachine_pipeline.Queue.Types.{or_else}
use codemachine_pipeline.Planner.{TaskNode, Traversal, unlock, unlock_all, take_first}
use codemachine_pipeline.Planner.Order.{
  needs, IsNext, OrderedFrom, OrderedFrom-push, occurrences, missing, occurrences-append,
  contains-occurrences, missing-push, missing-met,
}

-- how often an id was queued
abbrev pub queued : String → Traversal → ℕ
queued id s = occurrences id s.order + occurrences id s.queue

-- `ids` are the tasks that the current one still unlocks.
pub record Inv (tasks : List TaskNode) (ids : List String) (s : Traversal) : Type 0 where
  pub unknown : (id : String) → needs id tasks ≡ none → queued id s + occurrences id ids ≡ 0
  pub degree :
      (id : String) (ds : List String)
      → needs id tasks ≡ some ds
      → or_else (OrderedMap.get id s.in_degree) (pos 0)
        ≡ pos (missing s.order ds + occurrences id ids)
  pub once :
      (id : String) (ds : List String)
      → needs id tasks ≡ some ds
      → queued id s ≡ (if missing s.order ds + occurrences id ids == 0 then 1 else 0)

occurrences-if :
    (id x : String) (test : Bool) (queue : List String)
    → occurrences id (if test then queue ++ x ∷ [] else queue)
      ≡ occurrences id queue + (if test then if str_eq x id then 1 else 0 else 0)
occurrences-if id x true queue = omega (arith, occurrences-append id queue (x ∷ []))
occurrences-if id x false queue = omega arith

dec_zero : (n : ℕ) → int_eq (dec (pos (suc n))) (pos 0) ≡ (n == 0)
unfolding dec int_eq
dec_zero n = refl

dec-suc : (n : ℕ) → dec (pos (suc n)) ≡ pos n
unfolding dec
dec-suc n = refl

module _ (tasks : List TaskNode) (d : ℕ) (x : String) (ids : List String) (s : Traversal)
    (inv : Inv tasks (x ∷ ids) s) where
  pub unlocked_known : (ds : List String) × (needs x tasks ≡ some ds)
  unlocked_known = elim (Option-cases (needs x tasks)) [
    | inl e ↦ absurd (ground (arith, inv.unknown x e, (eq_iff x x).1 refl))
    | inr known ↦ known
  ]

  met : ℕ
  met = missing s.order unlocked_known.0 + occurrences x ids

  in_degree_before : or_else (OrderedMap.get x s.in_degree) (pos 0) ≡ pos (suc met)
  unfolding met
  in_degree_before =
      inv.degree x unlocked_known.0 unlocked_known.1 ∙ ap pos (ground (arith, (eq_iff x x).1 refl))

  ends : int_eq (dec (or_else (OrderedMap.get x s.in_degree) (pos 0))) (pos 0) ≡ (met == 0)
  ends = ap (λ z. int_eq (dec z) (pos 0)) in_degree_before ∙ dec_zero met

  degree_here :
      or_else (OrderedMap.get x (unlock d x s).in_degree) (pos 0)
      ≡ pos (missing s.order unlocked_known.0 + occurrences x ids)
  unfolding unlock met
  degree_here = ground (
    arith,
    get-set x x (dec (or_else (OrderedMap.get x s.in_degree) (pos 0))) s.in_degree,
    ap dec in_degree_before ∙ dec-suc met,
    (eq_iff x x).1 refl,
  )

  once_here : queued x (unlock d x s) ≡ (if met == 0 then 1 else 0)
  unfolding unlock met
  once_here = ground (
    arith,
    ends,
    inv.once x unlocked_known.0 unlocked_known.1,
    (eq_iff x x).1 refl,
    occurrences-if x x (met == 0) s.queue,
  )

  pub unlock-Inv : Inv tasks ids (unlock d x s)
  unfolding unlock met
  unlock-Inv = record {
    unknown = λ id e. ground (
      arith,
      ends,
      inv.unknown id e,
      eq_iff x id,
      unlocked_known.1,
      e,
      occurrences-if id x (met == 0) s.queue,
    );
    degree = λ id ds e. elim (Bool-cases (str_eq x id)) [
      | inl b ↦
          let same : x ≡ id = (eq_iff x id).0 b in
          let ds_same : ds ≡ unlocked_known.0 = cc (e, unlocked_known.1, same) in
          rw (sym same, ds_same) degree_here
      | inr b ↦ ground (
        arith,
        inv.degree id ds e,
        get-set x id (dec (or_else (OrderedMap.get x s.in_degree) (pos 0))) s.in_degree,
      )
    ];
    once = λ id ds e. elim (Bool-cases (str_eq x id)) [
      | inl b ↦
          let same : x ≡ id = (eq_iff x id).0 b in
          let ds_same : ds ≡ unlocked_known.0 = cc (e, unlocked_known.1, same) in
          rw (sym same, ds_same) once_here
      | inr b ↦ ground (arith, ends, inv.once id ds e, occurrences-if id x (met == 0) s.queue)
    ];
  }

pub unlock_all-Inv :
    (tasks : List TaskNode) (d : ℕ) (ids : List String) (s : Traversal)
    → Inv tasks ids s
    → Inv tasks [] (unlock_all d ids s)
unfolding unlock_all
unlock_all-Inv tasks d [] s inv = inv
unlock_all-Inv tasks d (x ∷ ids) s inv =
    unlock_all-Inv tasks d ids (unlock d x s) (unlock-Inv tasks d x ids s inv)

-- The inner loop leaves the order alone.
pub unlock_all-order :
    (d : ℕ) (ids : List String) (s : Traversal) → (unlock_all d ids s).order ≡ s.order
unfolding unlock_all unlock
unlock_all-order d [] s = refl
unlock_all-order d (x ∷ ids) s = unlock_all-order d ids (unlock d x s)

-- the tasks that wait for another one, each as often as it names that one
abbrev pub Waits : List TaskNode → OrderedMap (List String) → Type 0
Waits tasks adj =
    (x d : String)
    → occurrences x (or_else (OrderedMap.get d adj) [])
      ≡ elim (needs x tasks) [ none ↦ 0 | some ds ↦ occurrences d ds ]

module _ (tasks : List TaskNode) (adj : OrderedMap (List String)) (waits : Waits tasks adj)
    (current : String) (rest : List String) (s : Traversal) (inv : Inv tasks [] s)
    (busy : s.queue ≡ current ∷ rest) where
  counted :
      (id : String)
      → occurrences id s.queue ≡ (if str_eq current id then 1 else 0) + occurrences id rest
  counted id = ap (occurrences id) busy

  pub current_known : (ds : List String) × (needs current tasks ≡ some ds)
  current_known = elim (Option-cases (needs current tasks)) [
    | inl e ↦
        absurd
          (ground (arith, inv.unknown current e, counted current, (eq_iff current current).1 refl))
    | inr known ↦ known
  ]

  pub current-IsNext : IsNext tasks s.order current
  current-IsNext =
      let counts = inv.once current current_known.0 current_known.1 in
      let one = (eq_iff current current).1 refl in
      let many = counted current in
      record {
        fresh = ground (arith, contains-occurrences current s.order, counts, one, many);
        dependencies = current_known.0;
        listed = current_known.1;
        met = missing-met s.order current_known.0 (ground (arith, counts, one, many));
      }

  pub taken-Inv :
      Inv tasks
        (or_else (OrderedMap.get current adj) [])
        (record s { queue = rest; order = s.order ++ current ∷ [] })
  taken-Inv =
      let fresh = current-IsNext.fresh in
      let pushed = λ (id : String). occurrences-append id s.order (current ∷ []) in
      record {
        unknown =
            λ id e. ground (arith, inv.unknown id e, counted id, pushed id, waits id current, e);
        degree = λ id ds e.
            ground (
              arith,
              inv.degree id ds e,
              missing-push s.order current fresh ds,
              waits id current,
              e,
            );
        once = λ id ds e. ground (
          arith,
          inv.once id ds e,
          counted id,
          pushed id,
          missing-push s.order current fresh ds,
          waits id current,
          e,
        );
      }

  pub take_first-Inv : Inv tasks [] (take_first adj current rest s)
  unfolding take_first
  take_first-Inv =
      unlock_all-Inv tasks (or_else (OrderedMap.get current s.depths) 0)
        (or_else (OrderedMap.get current adj) [])
        (record s { queue = rest; order = s.order ++ current ∷ [] }) taken-Inv

  pub take_first-order : (take_first adj current rest s).order ≡ s.order ++ current ∷ []
  unfolding take_first
  take_first-order =
      unlock_all-order (or_else (OrderedMap.get current s.depths) 0)
        (or_else (OrderedMap.get current adj) [])
        (record s { queue = rest; order = s.order ++ current ∷ [] })

  pub take_first-OrderedFrom :
      OrderedFrom tasks [] s.order → OrderedFrom tasks [] (take_first adj current rest s).order
  take_first-OrderedFrom h =
      rw take_first-order (OrderedFrom-push tasks [] s.order current h current-IsNext)
