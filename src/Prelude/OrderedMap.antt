-- ===== src/Prelude/OrderedMap.antt =====
-- JavaScript's `Map<string, V>` (and an object used as a dictionary): entries in insertion order.
-- Setting a key that is there keeps its place; the entry of a deleted key is taken out.
use mathlib.Core.Path.{◌≡◌, refl}
use mathlib.Core.Bool.{Bool, true, false}
use mathlib.Core.Option.{Option, none, some}
use mathlib.Core.List.{List, [], ◌∷◌}
use Prim.Native.String.{String}
use native.Mathlib.Omega.{arith}
use text.Mathlib.Text.{◌==◌ as str_eq}
use text.Mathlib.TextEquality.{eq_iff}
use codemachine_pipeline.Prelude.Tests.{if◌then◌else◌}

abbrev pub OrderedMap {ℓ} : Type ℓ → Type ℓ
OrderedMap V = List (String × V)

module _ {ℓ} {V : Type ℓ} where
  -- m.get(k)
  unfoldable pub get : String → OrderedMap V → Option V
  get k [] = none
  get k ((j, v) ∷ m) = if str_eq j k then some v else get k m

  -- m.set(k, v)
  unfoldable pub set : String → V → OrderedMap V → OrderedMap V
  set k v [] = (k, v) ∷ []
  set k v ((j, w) ∷ m) = if str_eq j k then (j, v) ∷ m else (j, w) ∷ set k v m

  -- m.delete(k)
  unfoldable pub delete : String → OrderedMap V → OrderedMap V
  delete k [] = []
  delete k ((j, w) ∷ m) = if str_eq j k then m else (j, w) ∷ delete k m

  -- m.has(k)
  unfoldable pub has : String → OrderedMap V → Bool
  unfolding get
  has k m = elim (get k m) [ none ↦ false | some v ↦ true ]

  abbrev pub values : OrderedMap V → List V
  values [] = []
  values ((k, v) ∷ m) = v ∷ values m

  abbrev pub keys : OrderedMap V → List String
  keys [] = []
  keys ((k, v) ∷ m) = k ∷ keys m

  pub get-set :
      (k j : String) (v : V) (m : OrderedMap V)
      → get j (set k v m) ≡ (if str_eq k j then some v else get j m)
  unfolding get set
  get-set k j v [] = refl
  get-set k j v ((i, w) ∷ m) = ground (arith, eq_iff k j, eq_iff i k, eq_iff i j, get-set k j v m)

  pub get-delete_ne :
      (k j : String) (m : OrderedMap V) → str_eq k j ≡ false → get j (delete k m) ≡ get j m
  unfolding get delete
  get-delete_ne k j [] h = refl
  get-delete_ne k j ((i, w) ∷ m) h =
      ground (arith, eq_iff k j, eq_iff i k, eq_iff i j, get-delete_ne k j m h)

  pub set-set : (k : String) (v w : V) (m : OrderedMap V) → set k w (set k v m) ≡ set k w m
  unfolding set
  set-set k v w [] = ground (arith, (eq_iff k k).1 refl)
  set-set k v w ((i, x) ∷ m) = ground (arith, (eq_iff k k).1 refl, eq_iff i k, set-set k v w m)
