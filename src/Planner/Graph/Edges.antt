-- ===== src/Planner/Graph/Edges.antt =====
-- The edges of the dependency graph, and tasks that differ in their dependencies only.
use codemachine_pipeline.Prelude.{
  ◌≡◌, refl, sym, ap, ◌∙◌, String, Bool, false, ◌&&◌, ◌||◌, none, List, [], ◌∷◌, if◌then◌else◌,
  filter, contains, arith, Bool-cases, inl, inr, str_eq, eq_iff,
}
use codemachine_pipeline.Queue.Types.{or_else}
use codemachine_pipeline.Planner.{TaskNode}
use codemachine_pipeline.Planner.Order.{needs, HasUniqueIds, contains-push}
use codemachine_pipeline.Planner.Dag.{task_ids}
use codemachine_pipeline.Planner.Graph.{indexed_needs, push_dependency}

-- the task with an id, when it has one that meets a test
abbrev pub task_is : (TaskNode → Bool) → String → List TaskNode → Bool
task_is p x [] = false
task_is p x (t ∷ ts) = if str_eq t.task_id x then p t else task_is p x ts

-- the task `x` depends on `d`
abbrev pub has_edge : String → String → List TaskNode → Bool
has_edge x d = task_is (λ t. contains t.dependencies d) x

abbrev pub is_known : String → List TaskNode → Bool
is_known x tasks = contains (task_ids tasks) x

-- The tasks differ in their dependencies only.
pub data SameTasks : List TaskNode → List TaskNode → Type 0 where
  nil : SameTasks [] []
  cons :
      {t u : TaskNode} {ts us : List TaskNode}
      → t.task_id ≡ u.task_id
      → t.task_type ≡ u.task_type
      → t.test_type ≡ u.test_type
      → SameTasks ts us
      → SameTasks (t ∷ ts) (u ∷ us)

pub SameTasks-refl : (ts : List TaskNode) → SameTasks ts ts
SameTasks-refl [] = nil
SameTasks-refl (t ∷ ts) = cons refl refl refl (SameTasks-refl ts)

pub SameTasks-trans :
    {ts us vs : List TaskNode} → SameTasks ts us → SameTasks us vs → SameTasks ts vs
SameTasks-trans nil nil = nil
SameTasks-trans (cons a b c h) (cons a2 b2 c2 k) =
    cons (a ∙ a2) (b ∙ b2) (c ∙ c2) (SameTasks-trans h k)

pub task_ids-same : {ts us : List TaskNode} → SameTasks ts us → task_ids ts ≡ task_ids us
task_ids-same nil = refl
task_ids-same (cons a b c h) = cc (a, task_ids-same h)

-- A test of the type of a task.
abbrev pub IsTypeTest : (TaskNode → Bool) → Type 0
IsTypeTest p = (t u : TaskNode) → t.task_type ≡ u.task_type → t.test_type ≡ u.test_type → p t ≡ p u

pub filter-same :
    (p : TaskNode → Bool)
    → IsTypeTest p
    → {ts us : List TaskNode} → SameTasks ts us
    → task_ids (filter p ts) ≡ task_ids (filter p us)
filter-same p type_test nil = refl
filter-same p type_test (cons {t = t} {u = u} a b c h) =
    ground (arith, type_test t u b c, filter-same p type_test h, a)

pub task_is-same :
    (p : TaskNode → Bool)
    → IsTypeTest p
    → (x : String) {ts us : List TaskNode} → SameTasks ts us
    → task_is p x ts ≡ task_is p x us
task_is-same p type_test x nil = refl
task_is-same p type_test x (cons {t = t} {u = u} a b c h) =
    ground (arith, type_test t u b c, task_is-same p type_test x h, a)

needs-known : (x : String) (ts : List TaskNode) → is_known x ts ≡ false → needs x ts ≡ none
needs-known x [] h = refl
needs-known x (t ∷ ts) h = ground (arith, needs-known x ts, h)

pub unknown_of_needs : (x : String) (ts : List TaskNode) → needs x ts ≡ none → is_known x ts ≡ false
unknown_of_needs x [] h = refl
unknown_of_needs x (t ∷ ts) h = ground (arith, unknown_of_needs x ts, h)

pub SameTasks-HasUniqueIds :
    {ts us : List TaskNode} → SameTasks ts us → HasUniqueIds ts → HasUniqueIds us
SameTasks-HasUniqueIds nil unique = tt
SameTasks-HasUniqueIds (cons {t = t} {u = u} {ts = ts} {us = us} a b c h) unique = (
  needs-known u.task_id us (
      ap (λ ids. contains ids u.task_id) (sym (task_ids-same h))
      ∙ ap (λ x. is_known x ts) (sym a)
      ∙ unknown_of_needs t.task_id ts unique.0),
  SameTasks-HasUniqueIds h unique.1,
)

pub push_dependency-same :
    (id d : String) (ts : List TaskNode) → SameTasks ts (push_dependency id d ts)
unfolding push_dependency
push_dependency-same id d [] = nil
push_dependency-same id d (t ∷ ts) = elim (Bool-cases (is_known id ts)) [
  | inl further ↦ rw further (cons refl refl refl (push_dependency-same id d ts))
  | inr last ↦ elim (Bool-cases (str_eq t.task_id id)) [
    | inl here ↦ rw (last, here) (cons refl refl refl (SameTasks-refl ts))
    | inr other ↦ rw (last, other) (cons refl refl refl (SameTasks-refl ts))
  ]
]

pub indexed_needs-unknown :
    (id : String) (ts : List TaskNode) → is_known id ts ≡ false → indexed_needs id ts ≡ none
unfolding indexed_needs
indexed_needs-unknown id [] h = refl
indexed_needs-unknown id (t ∷ ts) h = ground (arith, indexed_needs-unknown id ts, h)

pub edge-unknown :
    (p : TaskNode → Bool) (x : String) (ts : List TaskNode)
    → is_known x ts ≡ false
    → task_is p x ts ≡ false
edge-unknown p x [] h = refl
edge-unknown p x (t ∷ ts) h = ground (arith, edge-unknown p x ts, h)

pub indexed_needs-edge :
    (id d : String) (ts : List TaskNode)
    → HasUniqueIds ts
    → contains (or_else (indexed_needs id ts) []) d ≡ has_edge id d ts
unfolding indexed_needs
indexed_needs-edge id d [] unique = refl
indexed_needs-edge id d (t ∷ ts) unique =
    let absent = unknown_of_needs t.task_id ts unique.0 in
    ground (
      arith,
      indexed_needs-unknown t.task_id ts absent,
      indexed_needs-edge id d ts unique.1,
      eq_iff t.task_id id,
    )

pub edge-push_dependency :
    (x d id e : String) (ts : List TaskNode)
    → HasUniqueIds ts
    → has_edge x d (push_dependency id e ts)
      ≡ (has_edge x d ts || (is_known x ts && str_eq id x && str_eq e d))
unfolding push_dependency
edge-push_dependency x d id e [] unique = refl
edge-push_dependency x d id e (t ∷ ts) unique =
    let absent = unknown_of_needs t.task_id ts unique.0 in
    ground (
      arith,
      edge-push_dependency x d id e ts unique.1,
      contains-push t.dependencies e d,
      absent,
      eq_iff t.task_id id,
      eq_iff t.task_id x,
      eq_iff id x,
    )
