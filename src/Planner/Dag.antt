-- ===== src/Planner/Dag.antt =====
-- validateDAG of src/core/models/PlanArtifact.ts. The sets `visited` and `recursionStack` are lists without
-- order; the recursion of `hasCycle` is on fuel, and none is a recursion that goes deeper.
pub mod Visits
pub mod Checks
pub mod Errors
pub mod Sound
mod Acyclic
pub mod Valid
use codemachine_pipeline.Prelude.{
  ℕ, zero, suc, ◌+◌, String, Bool, true, false, Option, none, some, List, [], ◌∷◌, ◌++◌,
  if◌then◌else◌, ◌>>=◌, length, contains, map, str_eq,
}
use codemachine_pipeline.Queue.Types.{or_else}
use codemachine_pipeline.Planner.{TaskNode}
use codemachine_pipeline.Planner.Order.{needs}

-- the messages that validateDAG pushes
pub data DagError : Type 0 where
  duplicate_ids : List String → DagError
  unknown_dependency : String → String → DagError
  cycle_found : String → DagError

-- `ids.filter((id, index, arr) => arr.indexOf(id) !== index)`, after the ids of `earlier`
unfoldable pub duplicates : List String → List String → List String
duplicates earlier [] = []
duplicates earlier (id ∷ ids) =
    let rest = duplicates (id ∷ earlier) ids in if contains earlier id then id ∷ rest else rest

abbrev pub task_ids : List TaskNode → List String
task_ids [] = []
task_ids (t ∷ ts) = t.task_id ∷ task_ids ts

unfoldable pub duplicate_errors : List String → List DagError
duplicate_errors [] = []
duplicate_errors (id ∷ ids) = duplicate_ids (id ∷ ids) ∷ []

-- the dependencies of one task that name no task
unfoldable pub unknown_in : List String → String → List String → List DagError
unknown_in ids id [] = []
unknown_in ids id (d ∷ ds) =
    let rest = unknown_in ids id ds in
    if contains ids d then rest else unknown_dependency id d ∷ rest

unfoldable pub unknown_errors : List String → List TaskNode → List DagError
unfolding unknown_in
unknown_errors ids [] = []
unknown_errors ids (t ∷ ts) = unknown_in ids t.task_id t.dependencies ++ unknown_errors ids ts

-- what `hasCycle` changes
pub record DagSearch : Type 0 where
  pub visited : List String
  pub recursion_stack : List String
  pub errors : List DagError

abbrev pub delete_id : String → List String → List String
delete_id id [] = []
delete_id id (x ∷ xs) = if str_eq x id then xs else x ∷ delete_id id xs

abbrev pub leave : String → DagSearch → DagSearch
leave id s = record s { recursion_stack = delete_id id s.recursion_stack }

abbrev pub report : String → DagSearch → DagSearch
report id s = record s { errors = s.errors ++ cycle_found id ∷ [] }

abbrev pub enter : String → DagSearch → DagSearch
enter id s = record s { visited = id ∷ s.visited; recursion_stack = id ∷ s.recursion_stack }

-- the loop over the dependencies of `id`; `visit` is the recursive call
unfoldable pub check_dependencies :
    (String → DagSearch → Option (Bool × DagSearch))
    → String
    → List String
    → DagSearch
    → Option (Bool × DagSearch)
check_dependencies visit id [] s = some (false, leave id s)
check_dependencies visit id (d ∷ ds) s = do
  (cyclic, t) ← visit d s
  if cyclic then some (true, leave id (report id t)) else check_dependencies visit id ds t

unfoldable pub has_cycle : ℕ → List TaskNode → String → DagSearch → Option (Bool × DagSearch)
unfolding check_dependencies
has_cycle zero tasks id s = none
has_cycle (suc fuel) tasks id s =
    if contains s.recursion_stack id
    then some (true, s)
    else if contains s.visited id
    then some (false, s)
    else check_dependencies (has_cycle fuel tasks) id (or_else (needs id tasks) []) (enter id s)

-- the loop over the tasks, which drops the answers
unfoldable pub check_tasks : ℕ → List TaskNode → List String → DagSearch → Option DagSearch
unfolding has_cycle
check_tasks fuel tasks [] s = some s
check_tasks fuel tasks (id ∷ ids) s =
    if contains s.visited id
    then check_tasks fuel tasks ids s
    else (do (cyclic, t) ← has_cycle fuel tasks id s; check_tasks fuel tasks ids t)

-- the errors; the plan is valid without any
unfoldable pub validate_dag : ℕ → List TaskNode → Option (List DagError)
unfolding duplicates duplicate_errors unknown_errors check_tasks
validate_dag fuel tasks = do
  let ids = task_ids tasks
  let found = duplicate_errors (duplicates [] ids) ++ unknown_errors ids tasks
  s ← check_tasks fuel tasks ids (record { visited = []; recursion_stack = []; errors = found })
  some s.errors
