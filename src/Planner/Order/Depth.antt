-- ===== src/Planner/Order/Depth.antt =====
-- The depths of the topological order: levels.
use codemachine_pipeline.Prelude.{
  ℕ, ◌+◌, max, ◌≡◌, refl, String, false, some, List, [], ◌∷◌, ◌++◌, ◌==◌, if◌then◌else◌, contains,
  arith, eq_iff,
}
use codemachine_pipeline.Prelude.OrderedMap
use codemachine_pipeline.Prelude.OrderedMap.{OrderedMap, get-set, values}
use codemachine_pipeline.Queue.Types.{or_else}
use codemachine_pipeline.Planner.{TaskNode, Traversal, unlock, unlock_all, take_first}
use codemachine_pipeline.Planner.Order.{needs, occurrences, contains-occurrences, contains-push}
use codemachine_pipeline.Planner.Order.Sound.{Inv, Waits, taken-Inv, unlock-Inv, unlocked_known}

abbrev pub depth_of : OrderedMap ℕ → String → ℕ
depth_of depths id = or_else (OrderedMap.get id depths) 0

-- one more than the greatest depth of those that are done, and 0 without any
abbrev pub level : List String → OrderedMap ℕ → List String → ℕ
level done depths [] = 0
level done depths (d ∷ ds) =
    max (if contains done d then depth_of depths d + 1 else 0) (level done depths ds)

-- `ids` are the tasks that the current one, of depth `d`, still raises.
pub record Levels (tasks : List TaskNode) (d : ℕ) (ids : List String) (s : Traversal) : Type 0 where
  pub depth :
      (id : String) (ds : List String)
      → needs id tasks ≡ some ds
      → max (depth_of s.depths id) (if occurrences id ids == 0 then 0 else d + 1)
        ≡ level s.order s.depths ds

level-set :
    (done : List String) (depths : OrderedMap ℕ) (x : String) (v : ℕ)
    → contains done x ≡ false
    → (ds : List String) → level done (OrderedMap.set x v depths) ds ≡ level done depths ds
level-set done depths x v new [] = refl
level-set done depths x v new (d ∷ ds) =
    ground (arith, level-set done depths x v new ds, get-set x d v depths, eq_iff x d)

level-push :
    (done : List String) (depths : OrderedMap ℕ) (c : String) (ds : List String)
    → level (done ++ c ∷ []) depths ds
      ≡ max (level done depths ds) (if occurrences c ds == 0 then 0 else depth_of depths c + 1)
level-push done depths c [] = omega arith
level-push done depths c (d ∷ ds) =
    ground (arith, level-push done depths c ds, contains-push done c d, eq_iff c d, eq_iff d c)

module _ (tasks : List TaskNode) (d : ℕ) (x : String) (ids : List String) (s : Traversal)
    (inv : Inv tasks (x ∷ ids) s) where
  waiting-fresh : contains s.order x ≡ false
  waiting-fresh =
      let (es, known) = unlocked_known tasks d x ids s inv in
      ground (arith, contains-occurrences x s.order, inv.once x es known, (eq_iff x x).1 refl)

  unlock-Levels : Levels tasks d (x ∷ ids) s → Levels tasks d ids (unlock d x s)
  unfolding unlock
  unlock-Levels h = record {
    depth = λ id ds e.
        let v = max (depth_of s.depths x) (d + 1) in
        ground (
          arith,
          h.depth id ds e,
          level-set s.order s.depths x v waiting-fresh ds,
          get-set x id v s.depths,
          eq_iff x id,
        );
  }

unlock_all-Levels :
    (tasks : List TaskNode) (d : ℕ) (ids : List String) (s : Traversal)
    → Inv tasks ids s
    → Levels tasks d ids s
    → Levels tasks d [] (unlock_all d ids s)
unfolding unlock_all
unlock_all-Levels tasks d [] s inv h = h
unlock_all-Levels tasks d (x ∷ ids) s inv h =
    unlock_all-Levels tasks d ids (unlock d x s) (unlock-Inv tasks d x ids s inv)
      (unlock-Levels tasks d x ids s inv h)

module _ (tasks : List TaskNode) (adj : OrderedMap (List String)) (waits : Waits tasks adj)
    (current : String) (rest : List String) (s : Traversal) (inv : Inv tasks [] s)
    (busy : s.queue ≡ current ∷ rest) where
  taken-Levels :
      (d : ℕ)
      → Levels tasks d [] s
      → Levels tasks
          (depth_of s.depths current)
          (or_else (OrderedMap.get current adj) [])
          (record s { queue = rest; order = s.order ++ current ∷ [] })
  taken-Levels d h = record {
    depth = λ id ds e.
        ground
          (arith, h.depth id ds e, level-push s.order s.depths current ds, waits id current, e);
  }

  pub take_first-Levels :
      (d : ℕ)
      → Levels tasks d [] s
      → Levels tasks (depth_of s.depths current) [] (take_first adj current rest s)
  unfolding take_first
  take_first-Levels d h =
      unlock_all-Levels tasks (depth_of s.depths current) (or_else (OrderedMap.get current adj) [])
        (record s { queue = rest; order = s.order ++ current ∷ [] })
        (taken-Inv tasks adj waits current rest s inv busy) (taken-Levels d h)
