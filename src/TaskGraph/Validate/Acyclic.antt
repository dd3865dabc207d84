-- ===== src/TaskGraph/Validate/Acyclic.antt =====
-- src/taskGraph.ts: a task graph that passes the checks has no cycle.
use charterion.Prelude.{
  ℕ, suc, ◌<◌, ◌≡◌, subst, ap, Text, some, List, [], ◌∷◌, Bool, true, not, ◌&&◌, arith, same,
  same_iff, includes, text_eq, get, length, ok, ◌>>=◌, >>=-eq-ok, throw_if-ok, any, Bool-cases, inl,
  inr, All, All-map, All-at, ◌==◌, ◌>>◌,
}
use charterion.Contracts.{AgentTask}
use charterion.TaskGraph.Validate.{
  Marks, no_marks, visit, visit_all, dependencies, dependencies_of, index_tasks, task_ids,
  check_tasks, validate_task_graph, ids_not_unique,
}
use charterion.TaskGraph.Validate.Search.{AllIn, Topological, visit-Visited, for_each-Visited}
use charterion.TaskGraph.Validate.Rank.{rank, dependencies_ranked, index_own}

-- Some task with id `a` lists `b` as a dependency.
unfoldable pub depends_on : List AgentTask → Text → Text → Bool
depends_on tasks a b = any (λ t. same t.id a && includes t.depends_on b) tasks

-- Chains of one or more dependencies.
pub data Chain (tasks : List AgentTask) : Text → Text → Type 0 where
  one : {a b : Text} → depends_on tasks a b ≡ true → Chain tasks a b
  more : {a b c : Text} → depends_on tasks a b ≡ true → Chain tasks b c → Chain tasks a c

-- A number for each id, below some bound, which falls along every dependency.
pub record IsRanked (tasks : List AgentTask) (bound : ℕ) (r : Text → ℕ) : Type 0 where
  pub falls : All (λ t. All (λ d. r d < r t.id) t.depends_on) tasks
  pub bounded : All (λ t. r t.id < bound) tasks

-- The parts of a successful validation.
pub record IsValidated (tasks : List AgentTask) : Type 0 where
  pub indexed : All (λ t. get (index_tasks tasks []) t.id ≡ some t) tasks
  pub checked : check_tasks (index_tasks tasks []) tasks ≡ ok tt
  pub marks : Marks
  pub ordered : Topological (index_tasks tasks []) marks.visited
  pub complete : AllIn marks.visited (task_ids tasks)

pub IsValidated-parts :
    (tasks : List AgentTask) → validate_task_graph tasks ≡ ok tt → IsValidated tasks
unfolding validate_task_graph visit_all
IsValidated-parts tasks h =
    let by_id = index_tasks tasks [] in
    let searched = visit_all tasks >>= λ m. ok tt in
    let (unique, h₁) =
      throw_if-ok (not (length by_id == length tasks)) ids_not_unique
        (check_tasks by_id tasks >> searched) h in
    let (u, checked, h₂) = >>=-eq-ok (check_tasks by_id tasks) (λ _. searched) h₁ in
    let (m, found, _) = >>=-eq-ok (visit_all tasks) (λ m. ok tt) h₂ in
    let (v, all_found) =
      for_each-Visited by_id (visit by_id (suc (length tasks)))
        (visit-Visited by_id (suc (length tasks))) (task_ids tasks) no_marks m tt found in
    record {
      indexed = index_own tasks [] (ground arith);
      checked = checked;
      marks = m;
      ordered = v.ordered;
      complete = all_found;
    }

-- The order of completion falls along the dependencies of every task.
pub completion_falls :
    (tasks : List AgentTask) (v : IsValidated tasks)
    → All (λ t. All (λ d. rank v.marks.visited d < rank v.marks.visited t.id) t.depends_on) tasks
completion_falls tasks v = each tasks v.indexed v.complete
  where
    each :
        (ts : List AgentTask)
        → All (λ t. get (index_tasks tasks []) t.id ≡ some t) ts
        → AllIn v.marks.visited (task_ids ts)
        → All (λ t. All (λ d. rank v.marks.visited d < rank v.marks.visited t.id) t.depends_on) ts
    each [] own found = tt
    each (t ∷ ts) own found = (
      subst (All (λ d. rank v.marks.visited d < rank v.marks.visited t.id))
          (ap dependencies_of own.0)
          (All-map _
            (λ d
                (h : (includes v.marks.visited d ≡ true)
                  × (rank v.marks.visited d < rank v.marks.visited t.id)).
              h.1)
            (unfold dependencies in
              dependencies_ranked (index_tasks tasks []) v.marks.visited t.id v.ordered found.0)),
      each ts own.1 found.1,
    )

depends_on-lt :
    (tasks : List AgentTask) (r : Text → ℕ) (a b : Text)
    → All (λ t. All (λ d. r d < r t.id) t.depends_on) tasks
    → depends_on tasks a b ≡ true
    → r b < r a
unfolding depends_on any
depends_on-lt [] r a b h e = cc
depends_on-lt (t ∷ ts) r a b h e = elim (Bool-cases (same t.id a && includes t.depends_on b)) [
  | inl here ↦
      let is_a : t.id ≡ a = (same_iff t.id a).0 (ground arith) in
      subst (λ k. r b < r k) is_a (All-at (λ d. r d < r t.id) t.depends_on b h.0 (ground arith))
  | inr there ↦ depends_on-lt ts r a b h.1 (ground arith)
]

Chain-lt :
    {tasks : List AgentTask} {a b : Text} (r : Text → ℕ)
    → All (λ t. All (λ d. r d < r t.id) t.depends_on) tasks
    → Chain tasks a b
    → r b < r a
Chain-lt {tasks} {a} {b} r h (one e) = depends_on-lt tasks r a b h e
Chain-lt {tasks} {a} r h (more {b = m} e c) =
    omega (arith, depends_on-lt tasks r a m h e, Chain-lt r h c)

-- In a task graph that passes the checks no task depends on itself, directly or through others.
pub validate-acyclic :
    (tasks : List AgentTask) → validate_task_graph tasks ≡ ok tt → (a : Text) → ¬ Chain tasks a a
validate-acyclic tasks h a c =
    let v = IsValidated-parts tasks h in
    absurd (omega (arith, Chain-lt (rank v.marks.visited) (completion_falls tasks v) c))
