-- ===== src/WriteActions/Chosen.antt =====
-- The actions that a drain takes: each is in the queue as it was read and pending, and none stands twice.
use codemachine_pipeline.Prelude.{
  All-filter, ℕ, zero, suc, ◌≡◌, sym, subst, String, Bool, false, none, some, List, [], ◌∷◌, arith,
  Bool-cases, inl, inr, str_eq, eq_iff, filter, take, All, All-map,
}
use codemachine_pipeline.Prelude.OrderedMap
use codemachine_pipeline.Prelude.OrderedMap.{OrderedMap, values, get-set}
use codemachine_pipeline.WriteActions.{
  WriteAction, pending, WriteActionStore, load_queue, status_eq,
}
use codemachine_pipeline.WriteActions.Execute.{
  insert_by_date, sort_by_date, with_status_of, actions_to_execute, pending_actions,
}
use codemachine_pipeline.WriteActions.Lines.{IsKeyed, load_queue-IsKeyed}
use codemachine_pipeline.WriteActions.Counts.{status_eq_iff}
use codemachine_pipeline.WriteActions.Entries.{Stands}

-- Each id stands once.
abbrev pub IsDistinct : List WriteAction → Type 0
IsDistinct [] = Unit
IsDistinct (a ∷ bs) = All (λ b. str_eq a.action_id b.action_id ≡ false) bs × IsDistinct bs

-- The action is in the queue as it was read, and pending.
abbrev pub IsReady : WriteActionStore → WriteAction → Type 0
IsReady s a = Stands a.action_id a s × (a.status ≡ pending)

-- What holds of every action and what is distinct stays so in the actions that are taken.
module _ {ℓ} (P : WriteAction → Type ℓ) where
  All-take : (n : ℕ) (bs : List WriteAction) → All P bs → All P (take n bs)
  All-take zero bs h = tt
  All-take (suc n) [] h = tt
  All-take (suc n) (b ∷ bs) h = (h.0, All-take n bs h.1)

  All-insert_by_date :
      (not_after : String → String → Bool) (a : WriteAction) (bs : List WriteAction)
      → P a
      → All P bs
      → All P (insert_by_date not_after a bs)
  unfolding insert_by_date
  All-insert_by_date not_after a [] h k = (h, tt)
  All-insert_by_date not_after a (b ∷ bs) h k =
      elim (Bool-cases (not_after a.created_at b.created_at)) [
        | inl first ↦ rw first (h, k)
        | inr later ↦ rw later (k.0, All-insert_by_date not_after a bs h k.1)
      ]

  All-sort_by_date :
      (not_after : String → String → Bool) (bs : List WriteAction)
      → All P bs
      → All P (sort_by_date not_after bs)
  unfolding sort_by_date
  All-sort_by_date not_after [] h = tt
  All-sort_by_date not_after (b ∷ bs) h =
      All-insert_by_date not_after b (sort_by_date not_after bs) h.0
        (All-sort_by_date not_after bs h.1)

take-IsDistinct : (n : ℕ) (bs : List WriteAction) → IsDistinct bs → IsDistinct (take n bs)
take-IsDistinct zero bs h = tt
take-IsDistinct (suc n) [] h = tt
take-IsDistinct (suc n) (b ∷ bs) h = (All-take _ n bs h.0, take-IsDistinct n bs h.1)

filter-IsDistinct :
    (p : WriteAction → Bool) (bs : List WriteAction) → IsDistinct bs → IsDistinct (filter p bs)
filter-IsDistinct p [] h = tt
filter-IsDistinct p (b ∷ bs) h = elim (Bool-cases (p b)) [
  | inl chosen ↦
      rw chosen (All-map _ _ (λ c k. k.0) _ (All-filter _ p bs h.0), filter-IsDistinct p bs h.1)
  | inr left ↦ rw left (filter-IsDistinct p bs h.1)
]

insert_by_date-IsDistinct :
    (not_after : String → String → Bool) (a : WriteAction) (bs : List WriteAction)
    → All (λ b. str_eq a.action_id b.action_id ≡ false) bs
    → IsDistinct bs
    → IsDistinct (insert_by_date not_after a bs)
unfolding insert_by_date
insert_by_date-IsDistinct not_after a [] h k = (tt, tt)
insert_by_date-IsDistinct not_after a (b ∷ bs) h k =
    elim (Bool-cases (not_after a.created_at b.created_at)) [
      | inl first ↦ rw first (h, k)
      | inr later ↦ rw later (
        All-insert_by_date _ not_after a bs ground
            (arith, h.0, eq_iff a.action_id b.action_id, eq_iff b.action_id a.action_id) k.0,
        insert_by_date-IsDistinct not_after a bs h.1 k.1,
      )
    ]

sort_by_date-IsDistinct :
    (not_after : String → String → Bool) (bs : List WriteAction)
    → IsDistinct bs
    → IsDistinct (sort_by_date not_after bs)
unfolding sort_by_date
sort_by_date-IsDistinct not_after [] h = tt
sort_by_date-IsDistinct not_after (b ∷ bs) h =
    insert_by_date-IsDistinct not_after b (sort_by_date not_after bs)
      (All-sort_by_date _ not_after bs h.0) (sort_by_date-IsDistinct not_after bs h.1)

others :
    (id : String) (m : OrderedMap WriteAction)
    → IsKeyed m
    → OrderedMap.get id m ≡ none
    → All (λ b. str_eq id b.action_id ≡ false) (values m)
unfolding OrderedMap.get
others id [] k h = tt
others id ((j, b) ∷ m) k h = (
  ground (arith, h, k.0, eq_iff id j, eq_iff j id, eq_iff id b.action_id),
  others id m k.2 ground (arith, h),
)

values-IsDistinct : (m : OrderedMap WriteAction) → IsKeyed m → IsDistinct (values m)
values-IsDistinct [] k = tt
values-IsDistinct ((id, a) ∷ m) k = (
  subst (λ i. All (λ b. str_eq i b.action_id ≡ false) (values m)) (sym k.0) (others id m k.2 k.1),
  values-IsDistinct m k.2,
)

stand_below :
    (id : String) (a : WriteAction) (m : OrderedMap WriteAction) (bs : List WriteAction)
    → All (λ b. str_eq id b.action_id ≡ false) bs
    → All (λ b. OrderedMap.get b.action_id m ≡ some b) bs
    → All (λ b. OrderedMap.get b.action_id ((id, a) ∷ m) ≡ some b) bs
unfolding OrderedMap.get
stand_below id a m [] d h = tt
stand_below id a m (b ∷ bs) d h = (rw d.0 h.0, stand_below id a m bs d.1 h.1)

values_stand :
    (m : OrderedMap WriteAction)
    → IsKeyed m
    → All (λ b. OrderedMap.get b.action_id m ≡ some b) (values m)
unfolding OrderedMap.get
values_stand [] k = tt
values_stand ((id, a) ∷ m) k = (
  ground (arith, k.0, eq_iff id a.action_id),
  stand_below id a m (values m) (others id m k.2 k.1) (values_stand m k.2),
)

pub actions_to_execute-IsDistinct :
    (not_after : String → String → Bool) (limit : ℕ) (s : WriteActionStore)
    → IsDistinct (actions_to_execute not_after limit (load_queue s))
unfolding actions_to_execute pending_actions with_status_of
actions_to_execute-IsDistinct not_after limit s = take-IsDistinct _ _ (
    sort_by_date-IsDistinct not_after _
      (filter-IsDistinct _ _ (values-IsDistinct (load_queue s) (load_queue-IsKeyed s))))

pub actions_to_execute-IsReady :
    (not_after : String → String → Bool) (limit : ℕ) (s : WriteActionStore)
    → All (IsReady s) (actions_to_execute not_after limit (load_queue s))
unfolding actions_to_execute pending_actions with_status_of
actions_to_execute-IsReady not_after limit s = All-take _ _ _ (
    All-sort_by_date _ not_after _ (
      All-map _ _ (λ b h. (h.0, (status_eq_iff b.status pending).0 h.1)) _
        (All-filter _ (λ a. status_eq a.status pending) (values (load_queue s))
          (values_stand (load_queue s) (load_queue-IsKeyed s)))))
