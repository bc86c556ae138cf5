-- ===== src/Resume/Tasks/Seen.antt =====
-- Tasks that have been seen, and those that a loop adds.
use codemachine_pipeline.Prelude.{
  ◌≡◌, refl, sym, subst, ◌∙◌, String, Bool, true, false, ◌||◌, List, [], ◌∷◌, ◌++◌, filter,
  contains, All, arith, Bool-cases, inl, inr, append-nil, append_assoc, str_eq, eq_iff,
}
use codemachine_pipeline.Queue.Types.{ExecutionTask}
use codemachine_pipeline.Resume.Tasks.{add_unseen, add_all}

abbrev pub ids : List ExecutionTask → List String
ids [] = []
ids (t ∷ ts) = t.task_id ∷ ids ts

-- No two tasks have one id.
abbrev pub IsDistinct : List ExecutionTask → Type 0
IsDistinct [] = Unit
IsDistinct (t ∷ ts) = All (λ u. str_eq t.task_id u.task_id ≡ false) ts × IsDistinct ts

-- The tasks that a test takes have not been seen.
abbrev pub AreNew : (ExecutionTask → Bool) → List String → List ExecutionTask → Type 0
AreNew test seen = All (λ t. test t ≡ true → contains seen t.task_id ≡ false)

contains-append :
    (xs : List String) (x y : String) → contains (xs ++ y ∷ []) x ≡ contains xs x || str_eq y x
contains-append [] x y = ground arith
contains-append (z ∷ xs) x y = ground (arith, contains-append xs x y)

still_new :
    (test : ExecutionTask → Bool) (seen : List String) (id : String) (ts : List ExecutionTask)
    → All (λ u. str_eq id u.task_id ≡ false) ts
    → AreNew test seen ts
    → AreNew test (seen ++ id ∷ []) ts
still_new test seen id [] d n = tt
still_new test seen id (t ∷ ts) d n = (
  λ h. contains-append seen t.task_id id ∙ rw (n.0 h, d.0) refl,
  still_new test seen id ts d.1 n.1,
)

pub add_all_lem :
    (test : ExecutionTask → Bool) (ts ready : List ExecutionTask) (seen : List String)
    → IsDistinct ts
    → AreNew test seen ts
    → add_all test ts (ready, seen) ≡ (ready ++ filter test ts, seen ++ ids (filter test ts))
unfolding add_all add_unseen
add_all_lem test [] ready seen d n = rw (append-nil ready, append-nil seen)
add_all_lem test (t ∷ ts) ready seen d n = elim (Bool-cases (test t)) [
  | inr left ↦ rw (add_all, left) (add_all_lem test ts ready seen d.1 n.1)
  | inl taken ↦
      rw (add_all, taken, n.0 taken)
        (add_all_lem test ts (ready ++ t ∷ []) (seen ++ t.task_id ∷ []) d.1
            (still_new test seen t.task_id ts d.0 n.1)
          ∙ rw (
            append_assoc ready (t ∷ []) (filter test ts),
            append_assoc seen (t.task_id ∷ []) (ids (filter test ts)),
          ))
]

not_among :
    (test : ExecutionTask → Bool) (id : String) (ts : List ExecutionTask)
    → All (λ u. str_eq id u.task_id ≡ false) ts
    → contains (ids (filter test ts)) id ≡ false
not_among test id [] d = refl
not_among test id (t ∷ ts) d = elim (Bool-cases (test t)) [
  | inl taken ↦
      rw (taken, not_among test id ts d.1)
        (ground (arith, d.0, eq_iff id t.task_id, eq_iff t.task_id id))
  | inr left ↦ rw left (not_among test id ts d.1)
]

-- A task that a test leaves is not among the tasks that it takes.
pub left_out :
    (test : ExecutionTask → Bool) (ts : List ExecutionTask)
    → IsDistinct ts
    → All (λ t. test t ≡ false → contains (ids (filter test ts)) t.task_id ≡ false) ts
left_out test [] d = tt
left_out test (t ∷ ts) d = (
  λ left. rw left (not_among test t.task_id ts d.0),
  elim (Bool-cases (test t)) [
    | inr left ↦
        let same : filter test (t ∷ ts) ≡ filter test ts = rw left refl in
        subst (Left ts) (sym same) (left_out test ts d.1)
    | inl taken ↦
        let more : filter test (t ∷ ts) ≡ t ∷ filter test ts = rw taken refl in
        subst (Left ts) (sym more) (others ts d.0 (left_out test ts d.1))
  ],
)
  where
    Left : List ExecutionTask → List ExecutionTask → Type 0
    Left us zs = All (λ u. test u ≡ false → contains (ids zs) u.task_id ≡ false) us

    others :
        (us : List ExecutionTask)
        → All (λ u. str_eq t.task_id u.task_id ≡ false) us
        → All (λ u. test u ≡ false → contains (ids (filter test ts)) u.task_id ≡ false) us
        → All
            (λ u.
              test u ≡ false
              → str_eq t.task_id u.task_id || contains (ids (filter test ts)) u.task_id ≡ false)
            us
    others [] a b = tt
    others (u ∷ us) a b = (λ h. rw (a.0, b.0 h) refl, others us a.1 b.1)

pub contains-append_list :
    (xs ys : List String) (x : String) → contains (xs ++ ys) x ≡ contains xs x || contains ys x
contains-append_list [] ys x = ground arith
contains-append_list (z ∷ xs) ys x = ground (arith, contains-append_list xs ys x)

pub nothing_seen : (test : ExecutionTask → Bool) (ts : List ExecutionTask) → AreNew test [] ts
nothing_seen test [] = tt
nothing_seen test (t ∷ ts) = (λ h. refl, nothing_seen test ts)
