-- ===== src/WriteActions/Lines.antt =====
-- The file's lines and the map that is loaded from them.
use codemachine_pipeline.Prelude.{
  ◌≡◌, refl, sym, ap, ◌∙◌, String, false, none, List, [], ◌∷◌, ◌++◌, append-nil, append_assoc,
  arith, Bool-cases, inl, inr, str_eq, eq_iff,
}
use codemachine_pipeline.Prelude.OrderedMap
use codemachine_pipeline.Prelude.OrderedMap.{OrderedMap, values, get-set}
use codemachine_pipeline.WriteActions.{
  WriteAction, WriteActionStore, load_lines, load_queue, save_queue, append_action,
}

-- Each action stands under its id, and once.
abbrev pub IsKeyed : OrderedMap WriteAction → Type 0
IsKeyed [] = Unit
IsKeyed ((id, a) ∷ actions) =
    (a.action_id ≡ id) × (OrderedMap.get id actions ≡ none) × IsKeyed actions

pub set-IsKeyed :
    (id : String) (a : WriteAction) (m : OrderedMap WriteAction)
    → a.action_id ≡ id
    → IsKeyed m
    → IsKeyed (OrderedMap.set id a m)
unfolding OrderedMap.set OrderedMap.get
set-IsKeyed id a [] e h = (e, refl, tt)
set-IsKeyed id a ((j, b) ∷ m) e h = elim (Bool-cases (str_eq j id)) [
  | inl same ↦ ground (arith, same, eq_iff j id, h.1, h.2)
  | inr other ↦ rw other (
    h.0,
    get-set id j a m ∙ ground (arith, other, eq_iff j id, eq_iff id j, h.1),
    set-IsKeyed id a m e h.2,
  )
]

load_lines-IsKeyed :
    (lines : List WriteAction) (m : OrderedMap WriteAction)
    → IsKeyed m
    → IsKeyed (load_lines lines m)
unfolding load_lines
load_lines-IsKeyed [] m h = h
load_lines-IsKeyed (a ∷ lines) m h =
    load_lines-IsKeyed lines (OrderedMap.set a.action_id a m) (set-IsKeyed a.action_id a m refl h)

pub load_queue-IsKeyed : (s : WriteActionStore) → IsKeyed (load_queue s)
unfolding load_queue
load_queue-IsKeyed s = load_lines-IsKeyed s.lines [] tt

pub set_new :
    (id : String) (a : WriteAction) (m : OrderedMap WriteAction)
    → OrderedMap.get id m ≡ none
    → OrderedMap.set id a m ≡ m ++ (id, a) ∷ []
unfolding OrderedMap.set OrderedMap.get
set_new id a [] h = refl
set_new id a ((j, b) ∷ m) h = ground (arith, set_new id a m)

pub get_append_new :
    (id j : String) (a : WriteAction) (m : OrderedMap WriteAction)
    → str_eq id j ≡ false
    → OrderedMap.get j (m ++ (id, a) ∷ []) ≡ OrderedMap.get j m
unfolding OrderedMap.get
get_append_new id j a [] h = ground (arith, h)
get_append_new id j a ((k, b) ∷ m) h = ground (arith, get_append_new id j a m h)

-- The keys of the second map are not in the first.
abbrev Apart : OrderedMap WriteAction → OrderedMap WriteAction → Type 0
Apart m [] = Unit
Apart m ((id, a) ∷ n) = (OrderedMap.get id m ≡ none) × Apart m n

Apart-append :
    (m n : OrderedMap WriteAction) (id : String) (a : WriteAction)
    → OrderedMap.get id n ≡ none
    → Apart m n
    → Apart (m ++ (id, a) ∷ []) n
unfolding OrderedMap.get
Apart-append m [] id a h k = tt
Apart-append m ((j, b) ∷ n) id a h k = elim (Bool-cases (str_eq j id)) [
  | inl same ↦ ground (arith, h, same)
  | inr other ↦ (
    get_append_new id j a m ground (arith, other, eq_iff j id, eq_iff id j) ∙ k.0,
    Apart-append m n id a ground (arith, h, other) k.1,
  )
]

load_lines-values :
    (m n : OrderedMap WriteAction) → IsKeyed n → Apart m n → load_lines (values n) m ≡ m ++ n
unfolding load_lines
load_lines-values m [] h k = sym (append-nil m)
load_lines-values m ((id, a) ∷ n) h k =
    ap (λ key. load_lines (values n) (OrderedMap.set key a m)) h.0
    ∙ ap (load_lines (values n)) (set_new id a m k.0)
    ∙ load_lines-values (m ++ (id, a) ∷ []) n h.2 (Apart-append m n id a h.1 k.1)
    ∙ append_assoc m ((id, a) ∷ []) n

load_lines-append :
    (xs ys : List WriteAction) (m : OrderedMap WriteAction)
    → load_lines (xs ++ ys) m ≡ load_lines ys (load_lines xs m)
unfolding load_lines
load_lines-append [] ys m = refl
load_lines-append (x ∷ xs) ys m = load_lines-append xs ys (OrderedMap.set x.action_id x m)

Apart-nil : (n : OrderedMap WriteAction) → Apart [] n
unfolding OrderedMap.get
Apart-nil [] = tt
Apart-nil ((id, a) ∷ n) = (refl, Apart-nil n)

-- A map in which each action stands under its own id, and once, is loaded as it was saved.
pub load_queue-save_queue :
    (m : OrderedMap WriteAction) (now : String) (s : WriteActionStore)
    → IsKeyed m
    → load_queue (save_queue m now s) ≡ m
unfolding load_queue save_queue
load_queue-save_queue m now s h = load_lines-values [] m h (Apart-nil m)

pub load_queue-append_action :
    (a : WriteAction) (s : WriteActionStore)
    → load_queue (append_action a s) ≡ OrderedMap.set a.action_id a (load_queue s)
unfolding load_queue append_action load_lines
load_queue-append_action a s = load_lines-append s.lines (a ∷ []) []
