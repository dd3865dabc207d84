-- ===== src/TaskGraph/Validate/Outcome.antt =====
-- src/taskGraph.ts: what the checks of a task graph may answer.
use charterion.Prelude.{
  ℕ, suc, ◌<◌, ◌≡◌, ◌≢◌, refl, sym, subst, ◌∙◌, Text, Option, none, some, List, [], ◌∷◌, Bool, true,
  false, not, ◌||◌, arith, if◌then◌else◌, same, same_iff, includes, text_eq, get, get-put, put,
  length, length-map, is_some, Result, ok, err, ◌>>◌, >>=-eq-ok, throw_if, throw_if-ok, trim,
  truthy, All, All-of_All, All-self, Bool-cases, inl, inr, ◌⊎◌,
}
use charterion.Contracts.{AgentTask}
use charterion.Tasks.Policy.{validate_task_policy}
use charterion.TaskGraph.Validate.{
  TaskMap, GraphError, not_a_dag, out_of_fuel, title_or_instruction_missing, depends_on_itself,
  dependency_missing, no_marks, visit, visit_all, dependencies, dependencies_of, index_tasks,
  task_ids, check_dependencies, check_task, check_tasks, with_policy_error, validate_task_graph,
}
use charterion.TaskGraph.Validate.Search.{AllIn}
use charterion.TaskGraph.Validate.Total.{
  IsClosed, unentered, unentered-le, unentered-same, visit-restores, visit-ne-out_of_fuel,
  visit-ne-not_a_dag, for_each-avoids,
}

-- The ids of the index are ids of the tasks.
pub index-includes :
    (ts : List AgentTask) (m : TaskMap) (k : Text)
    → is_some (get (index_tasks ts m) k) ≡ true
    → (includes (task_ids ts) k || is_some (get m k)) ≡ true
unfolding index_tasks includes
index-includes [] m k h = h
index-includes (t ∷ ts) m k h =
    ground (arith, index-includes ts (put m t.id t) k, get-put m t.id k t)

-- What the index finds for an id is a task with that id, of which all holds that holds of every task.
pub index-All :
    (P : AgentTask → Type 0) (ts : List AgentTask) (m : TaskMap) (k : Text) (v : AgentTask)
    → All P ts
    → ((u : AgentTask) → get m k ≡ some u → P u × (u.id ≡ k))
    → get (index_tasks ts m) k ≡ some v
    → P v × (v.id ≡ k)
unfolding index_tasks
index-All P [] m k v all start h = start v h
index-All P (t ∷ ts) m k v all start h =
    index-All P ts (put m t.id t) k v all.1
      (λ u e. newest u (Bool-cases (same t.id k)) (sym (get-put m t.id k t) ∙ e)) h
  where
    newest :
        (u : AgentTask)
        → (same t.id k ≡ true) ⊎ (same t.id k ≡ false)
        → (if same t.id k then some t else get m k) ≡ some u
        → P u × (u.id ≡ k)
    newest u (inl e) f =
        let is_t : t ≡ u = ground arith in
        subst (λ w. P w × (w.id ≡ k)) is_t (all.0, (same_iff t.id k).0 e)
    newest u (inr e) f = start u (rw e at f)

dependencies_known :
    (tasks : List AgentTask) (t : AgentTask) (ds : List Text)
    → check_dependencies (index_tasks tasks []) t ds ≡ ok tt
    → AllIn (task_ids tasks) ds
unfolding check_dependencies
dependencies_known tasks t [] h = tt
dependencies_known tasks t (d ∷ ds) h =
    let by_id = index_tasks tasks [] in
    let rest = check_dependencies by_id t ds in
    let (_, h₁) =
      throw_if-ok (same d t.id) depends_on_itself
        (throw_if (not (is_some (get by_id d))) dependency_missing >> rest) h in
    let (found, h₂) = throw_if-ok (not (is_some (get by_id d))) dependency_missing rest h₁ in
    (unfold get in ground (arith, index-includes tasks [] d), dependencies_known tasks t ds h₂)

tasks_known :
    (tasks ts : List AgentTask)
    → check_tasks (index_tasks tasks []) ts ≡ ok tt
    → All (λ t. AllIn (task_ids tasks) t.depends_on) ts
unfolding check_tasks check_task
tasks_known tasks [] h = tt
tasks_known tasks (t ∷ ts) h =
    let by_id = index_tasks tasks [] in
    let (u, one, more) = >>=-eq-ok (check_task by_id t) (λ _. check_tasks by_id ts) h in
    let untitled = not (truthy (trim t.title)) || not (truthy (trim t.instruction)) in
    let deps = check_dependencies by_id t t.depends_on in
    let checked = with_policy_error (validate_task_policy t) in
    let (_, h₁) = throw_if-ok untitled title_or_instruction_missing (checked >> deps) one in
    let (_, _, h₂) = >>=-eq-ok checked (λ _. deps) h₁ in
    (dependencies_known tasks t t.depends_on h₂, tasks_known tasks ts more)

-- The errors that only the search throws.
abbrev is_search_error : GraphError → Bool
is_search_error not_a_dag = true
is_search_error out_of_fuel = true
is_search_error _ = false

check_dependencies-error :
    (by_id : TaskMap) (t : AgentTask) (ds : List Text) (e : GraphError)
    → check_dependencies by_id t ds ≡ err e
    → is_search_error e ≡ false
unfolding check_dependencies
check_dependencies-error by_id t [] e h = cc
check_dependencies-error by_id t (d ∷ ds) e h =
    ground (arith, check_dependencies-error by_id t ds e)

check_tasks-error :
    (by_id : TaskMap) (ts : List AgentTask) (e : GraphError)
    → check_tasks by_id ts ≡ err e
    → is_search_error e ≡ false
unfolding check_tasks check_task
check_tasks-error by_id [] e h = cc
check_tasks-error by_id (t ∷ ts) e h =
    ground (arith, check_tasks-error by_id ts e, check_dependencies-error by_id t t.depends_on e)

-- A search error of the validation is one of the search, after checks that passed.
search_error :
    (tasks : List AgentTask) (e : GraphError)
    → is_search_error e ≡ true
    → validate_task_graph tasks ≡ err e
    → (check_tasks (index_tasks tasks []) tasks ≡ ok tt) × (visit_all tasks ≡ err e)
unfolding validate_task_graph
search_error tasks e s h = go (check_tasks (index_tasks tasks []) tasks) refl
  where
    go :
        (r : Result GraphError (Unit {0}))
        → check_tasks (index_tasks tasks []) tasks ≡ r
        → (check_tasks (index_tasks tasks []) tasks ≡ ok tt) × (visit_all tasks ≡ err e)
    go (ok u) k = (k, ground arith)
    go (err e') k = absurd (ground (arith, check_tasks-error (index_tasks tasks []) tasks e'))

IsClosed-graph :
    (tasks : List AgentTask)
    → check_tasks (index_tasks tasks []) tasks ≡ ok tt
    → IsClosed (task_ids tasks) (index_tasks tasks [])
unfolding dependencies
IsClosed-graph tasks h k known = go (get (index_tasks tasks []) k) refl
  where
    go :
        (o : Option AgentTask)
        → get (index_tasks tasks []) k ≡ o
        → AllIn (task_ids tasks) (dependencies_of o)
    go none e = tt
    go (some t) e =
        (index-All (λ u. AllIn (task_ids tasks) u.depends_on) tasks [] k t
          (tasks_known tasks tasks h) (λ u absent. absurd (unfold get in cc)) e).0

index_falls :
    (tasks : List AgentTask) (r : Text → ℕ)
    → All (λ t. All (λ d. r d < r t.id) t.depends_on) tasks
    → (k : Text) → All (λ d. r d < r k) (dependencies (index_tasks tasks []) k)
unfolding dependencies
index_falls tasks r falls k = go (get (index_tasks tasks []) k) refl
  where
    go :
        (o : Option AgentTask)
        → get (index_tasks tasks []) k ≡ o
        → All (λ d. r d < r k) (dependencies_of o)
    go none e = tt
    go (some t) e =
        let (h, own) =
          index-All (λ u. All (λ d. r d < r u.id) u.depends_on) tasks [] k t falls
            (λ u absent. absurd (unfold get in cc)) e in
        subst (λ j. All (λ d. r d < r j) t.depends_on) own h

-- The checks end for every list of tasks: the search never runs out of the fuel that the model gives
-- it, one more than there are tasks.
pub validate-ne-out_of_fuel : (tasks : List AgentTask) → validate_task_graph tasks ≢ err out_of_fuel
unfolding visit_all
validate-ne-out_of_fuel tasks h =
    let ids = task_ids tasks in
    let by_id = index_tasks tasks [] in
    let (checked, thrown) = search_error tasks out_of_fuel refl h in
    for_each-avoids (λ n. unentered ids n.visiting < suc (length tasks))
      (λ d. includes ids d ≡ true) out_of_fuel (visit by_id (suc (length tasks)))
      (visit-ne-out_of_fuel ids by_id (IsClosed-graph tasks checked) (suc (length tasks)))
      (λ d n n' e below.
        subst (λ u. u < suc (length tasks))
          (unentered-same ids n n' (visit-restores by_id (suc (length tasks)) d n n' e)) below)
      ids no_marks (All-self ids)
      (omega (arith, length-map tasks (λ (t : AgentTask). t.id), unentered-le ids [])) thrown

-- Where some number falls along the dependencies of every task, no cycle is reported: a graph is
-- refused as cyclic only if no such number exists.
pub validate-ne-not_a_dag :
    (tasks : List AgentTask) (r : Text → ℕ)
    → All (λ t. All (λ d. r d < r t.id) t.depends_on) tasks
    → validate_task_graph tasks ≢ err not_a_dag
unfolding visit_all
validate-ne-not_a_dag tasks r falls h =
    let by_id = index_tasks tasks [] in
    let (checked, thrown) = search_error tasks not_a_dag refl h in
    for_each-avoids (λ n. (k : Text) → includes n.visiting k ≡ true → ⊥) (λ d. Unit {0}) not_a_dag
      (visit by_id (suc (length tasks)))
      (λ d n _ none_in.
        visit-ne-not_a_dag by_id r (index_falls tasks r falls) (suc (length tasks)) d n
          (λ k e. absurd (none_in k e)))
      (λ d n n' e none_in k k_in.
        none_in k (sym (visit-restores by_id (suc (length tasks)) d n n' e k) ∙ k_in))
      (task_ids tasks) no_marks (All-of_All (task_ids tasks) (λ _. tt))
      (λ k e. unfold includes in cc) thrown
