-- ===== src/TaskGraph/Validate.antt =====
-- src/taskGraph.ts, `validateTaskGraph`. The search recurs on fuel: `out_of_fuel` stands for a call
-- that the model cannot follow, and is shown never to be returned.
pub mod Search
pub mod Rank
pub mod Acyclic
pub mod Total
pub mod Outcome
use charterion.Prelude.{
  ℕ, zero, suc, Text, Option, none, some, List, [], ◌∷◌, ◌++◌, Bool, true, false, not, ◌||◌, ◌&&◌,
  if◌then◌else◌, same, trim, truthy, includes, without, text_eq, get, put, length, is_some, ◌==◌,
  Result, ok, err, ◌>>=◌, ◌>>◌, throw_if, for_each, map,
}
use charterion.Contracts.{AgentTask}
use charterion.Tasks.Policy.{PolicyError, validate_task_policy}

pub data GraphError : Type 0 where
  ids_not_unique title_or_instruction_missing depends_on_itself dependency_missing not_a_dag
        out_of_fuel :
      GraphError
  policy : PolicyError → GraphError

abbrev pub TaskMap : Type 0
TaskMap = List (Text × AgentTask)

-- `for (const task of tasks) byId.set(task.id, task)`.
unfoldable pub index_tasks : List AgentTask → TaskMap → TaskMap
index_tasks [] m = m
index_tasks (t ∷ ts) m = index_tasks ts (put m t.id t)

-- `byId.get(taskId)?.dependsOn ?? []`.
abbrev pub dependencies_of : Option AgentTask → List Text
dependencies_of none = []
dependencies_of (some t) = t.depends_on

unfoldable pub dependencies : TaskMap → Text → List Text
dependencies by_id id = dependencies_of (get by_id id)

abbrev with_policy_error : Result PolicyError (Unit {0}) → Result GraphError (Unit {0})
with_policy_error (ok u) = ok u
with_policy_error (err e) = err (policy e)

unfoldable pub check_dependencies : TaskMap → AgentTask → List Text → Result GraphError (Unit {0})
check_dependencies by_id t [] = ok tt
check_dependencies by_id t (d ∷ ds) = do
  throw_if (same d t.id) depends_on_itself
  throw_if (not (is_some (get by_id d))) dependency_missing
  check_dependencies by_id t ds

unfoldable pub check_task : TaskMap → AgentTask → Result GraphError (Unit {0})
check_task by_id t = do
  throw_if (not (truthy (trim t.title)) || not (truthy (trim t.instruction)))
      title_or_instruction_missing
  with_policy_error (validate_task_policy t)
  check_dependencies by_id t t.depends_on

unfoldable pub check_tasks : TaskMap → List AgentTask → Result GraphError (Unit {0})
unfolding check_task
check_tasks by_id [] = ok tt
check_tasks by_id (t ∷ ts) = do check_task by_id t; check_tasks by_id ts

-- The sets `visiting` and `visited`, the newest item first.
pub record Marks : Type 0 where
  pub visiting : List Text
  pub visited : List Text

abbrev pub enter : Text → Marks → Marks
enter id m = record m { visiting = id ∷ m.visiting }

abbrev pub leave : Text → Marks → Marks
leave id m = record { visiting = without m.visiting id; visited = id ∷ m.visited }

unfoldable pub visit : TaskMap → ℕ → Text → Marks → Result GraphError Marks
visit by_id zero id m = err out_of_fuel
visit by_id (suc fuel) id m =
    if includes m.visited id
    then ok m
    else if includes m.visiting id
    then err not_a_dag
    else (for_each (visit by_id fuel) (dependencies by_id id) (enter id m) >>= λ after.
        ok (leave id after))

abbrev pub no_marks : Marks
no_marks = record { visiting = []; visited = [] }

abbrev pub task_ids : List AgentTask → List Text
task_ids = map (λ t. t.id)

-- `for (const task of tasks) visit(task.id)`.
unfoldable pub visit_all : List AgentTask → Result GraphError Marks
visit_all tasks =
    for_each (visit (index_tasks tasks []) (suc (length tasks))) (task_ids tasks) no_marks

unfoldable pub validate_task_graph : List AgentTask → Result GraphError (Unit {0})
validate_task_graph tasks = do
  throw_if (not (length (index_tasks tasks []) == length tasks)) ids_not_unique
  check_tasks (index_tasks tasks []) tasks
  marks ← visit_all tasks
  ok tt
