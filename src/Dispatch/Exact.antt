-- ===== src/Dispatch/Exact.antt =====
-- src/exactTaskDispatch.ts: the plan for dispatching one task by its id. The texts of the errors are
-- left out: each belongs to one reason.
use charterion.Prelude.{
  Text, ◌≡◌, ◌↔◌, sym, subst, ap, ◌∙◌, List, [], ◌∷◌, Bool, true, false, not, ◌||◌, ◌&&◌,
  if◌then◌else◌, arith, same, filter, trim, truthy, is_some, Result, ok, err, ok-injective,
  Bool-cases, inl, inr, ◌⊎◌,
}
use charterion.Contracts.{
  ManagedTask, TaskCompletionPolicy, TaskDisplayStatus, is_human, completed, skipped, rejected,
  cancelled, ready,
}

pub record ExactTaskDispatchRequest : Type 0 where
  pub task_id : Text
  pub project : Text

pub data ExactTaskDispatchRejection : Type 0 where
  invalid_request task_not_found ambiguous_task_id project_mismatch human_task cancelled_task
        terminal_task task_not_ready :
      ExactTaskDispatchRejection

pub record ExactTaskDispatchSuccess : Type 0 where
  pub task_id : Text
  pub project : Text
  pub managed_task : ManagedTask
  pub completion_policy : TaskCompletionPolicy

-- `TERMINAL_STATUSES.has(status)`.
abbrev is_terminal_status : TaskDisplayStatus → Bool
is_terminal_status completed = true
is_terminal_status skipped = true
is_terminal_status rejected = true
is_terminal_status _ = false

abbrev is_cancelled : TaskDisplayStatus → Bool
is_cancelled cancelled = true
is_cancelled _ = false

abbrev is_ready : TaskDisplayStatus → Bool
is_ready ready = true
is_ready _ = false

abbrev Plan : Type 0
Plan = Result ExactTaskDispatchRejection ExactTaskDispatchSuccess

-- The checks on the one task with the id.
unfoldable pub plan_match :
    ExactTaskDispatchRequest
    → ManagedTask
    → Result ExactTaskDispatchRejection ExactTaskDispatchSuccess
plan_match request managed =
    let task = managed.task in
    if not (same task.project request.project)
    then err project_mismatch
    else if is_human task.kind
    then err human_task
    else if is_some task.cancelled_at || is_cancelled managed.status
    then err cancelled_task
    else if is_some task.skipped_at
        || is_some task.machine_completion
        || is_terminal_status managed.status
    then err terminal_task
    else if not (is_ready managed.status)
    then err task_not_ready
    else ok (record {
      task_id = task.id;
      project = task.project;
      managed_task = managed;
      completion_policy = task.completion_policy;
    })

abbrev plan_matches :
    ExactTaskDispatchRequest
    → List ManagedTask
    → Result ExactTaskDispatchRejection ExactTaskDispatchSuccess
plan_matches request [] = err task_not_found
plan_matches request (m ∷ []) = plan_match request m
plan_matches request (m ∷ n ∷ ms) = err ambiguous_task_id

unfoldable pub plan_exact_task_dispatch :
    List ManagedTask
    → ExactTaskDispatchRequest
    → Result ExactTaskDispatchRejection ExactTaskDispatchSuccess
plan_exact_task_dispatch tasks request =
    if not (truthy (trim request.task_id)) || not (truthy (trim request.project))
    then err invalid_request
    else plan_matches request (filter (λ managed. same managed.task.id request.task_id) tasks)

-- A task that the request may dispatch.
unfoldable pub is_dispatchable : ExactTaskDispatchRequest → ManagedTask → Bool
is_dispatchable request m =
    truthy (trim request.task_id)
    && truthy (trim request.project)
    && same m.task.project request.project
    && not (is_human m.task.kind)
    && not (is_some m.task.cancelled_at)
    && not (is_some m.task.skipped_at)
    && not (is_some m.task.machine_completion)
    && is_ready m.status

abbrev pub success : ManagedTask → ExactTaskDispatchSuccess
success m = record {
  task_id = m.task.id;
  project = m.task.project;
  managed_task = m;
  completion_policy = m.task.completion_policy;
}

plan_match-cases :
    (request : ExactTaskDispatchRequest) (m : ManagedTask)
    → truthy (trim request.task_id) ≡ true
    → truthy (trim request.project) ≡ true
    → (plan_match request m ≡ ok (success m)) ↔ (is_dispatchable request m ≡ true)
unfolding plan_match is_dispatchable
plan_match-cases request m h k = ground arith

plan_match-refuses :
    (request : ExactTaskDispatchRequest) (m : ManagedTask) (s : ExactTaskDispatchSuccess)
    → truthy (trim request.task_id) ≡ true
    → truthy (trim request.project) ≡ true
    → is_dispatchable request m ≡ false
    → plan_match request m ≡ ok s
    → ⊥
unfolding plan_match is_dispatchable
plan_match-refuses request m s h k no_task e = ground arith

dispatchable_named :
    (request : ExactTaskDispatchRequest) (m : ManagedTask)
    → (truthy (trim request.task_id) && truthy (trim request.project)) ≡ false
    → is_dispatchable request m ≡ true
    → ⊥
unfolding is_dispatchable
dispatchable_named request m blank h = ground arith

plan_matches_iff :
    (request : ExactTaskDispatchRequest) (found : List ManagedTask) (m : ManagedTask)
    → truthy (trim request.task_id) ≡ true
    → truthy (trim request.project) ≡ true
    → (plan_matches request found ≡ ok (success m))
      ↔ ((found ≡ m ∷ []) × (is_dispatchable request m ≡ true))
plan_matches_iff request [] m h k = (λ e. cc, λ e. cc)
plan_matches_iff request (n ∷ []) m h k = (
  λ e.
      let is_m : n ≡ m = planned e (Bool-cases (is_dispatchable request n)) in
      (
        ap (λ x. x ∷ []) is_m,
        (plan_match-cases request m h k).0
            (subst (λ x. plan_match request x ≡ ok (success m)) is_m e),
      ),
  λ e.
      let is_m : n ≡ m = cc in
      subst (λ x. plan_match request x ≡ ok (success m)) (sym is_m)
        ((plan_match-cases request m h k).1 e.1),
)
  where
    planned :
        plan_match request n ≡ ok (success m)
        → (is_dispatchable request n ≡ true) ⊎ (is_dispatchable request n ≡ false)
        → n ≡ m
    planned e (inl fits) =
        ap (λ s. s.managed_task) (ok-injective (sym ((plan_match-cases request n h k).1 fits) ∙ e))
    planned e (inr unfit) = absurd (plan_match-refuses request n (success m) h k unfit e)
plan_matches_iff request (n ∷ n' ∷ ns) m h k = (λ e. cc, λ e. cc)

-- A plan is made exactly when the tasks with the requested id are one task, with the request's
-- project, that is not a human task, has no cancellation, skip or machine completion on it, and is
-- ready, and the request's id and project are not blank; the plan is for that task.
pub plan_exact_iff :
    (tasks : List ManagedTask) (request : ExactTaskDispatchRequest) (m : ManagedTask)
    → (plan_exact_task_dispatch tasks request ≡ ok (success m)) ↔ (
        (filter (λ n. same n.task.id request.task_id) tasks ≡ m ∷ [])
        × (is_dispatchable request m ≡ true))
unfolding plan_exact_task_dispatch
plan_exact_iff tasks request m =
    elim (Bool-cases (truthy (trim request.task_id) && truthy (trim request.project))) [
      | inl named ↦
          let go =
            plan_matches_iff request (filter (λ n. same n.task.id request.task_id) tasks) m
              (ground arith) (ground arith) in
          (λ e. go.0 (ground arith), λ e. (let f = go.1 e in ground arith))
      | inr blank ↦
          (λ e. absurd (ground arith), λ e. absurd (dispatchable_named request m blank e.1))
    ]
