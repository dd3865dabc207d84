-- ===== src/TaskGraph/Derive.antt =====
-- src/taskGraph.ts, `deriveManagedTasks`: the status that each task is shown with. The recursion over
-- dependencies, which shares its results in the map `result`, takes fuel; `none` means that it ran
-- out.
pub mod Total
pub mod Rules
pub mod Steps
pub mod Shared
pub mod Managed
use charterion.Prelude.{
  ℕ, zero, suc, Text, Option, none, some, List, [], ◌∷◌, Bool, true, false, not, ◌||◌, ◌&&◌,
  if◌then◌else◌, same_option, is_some, present, length, get, put, get_last?, text_eq, map,
}
use charterion.Prelude.Json.{Json}
use charterion.Contracts.{
  AgentTask, ManagedTask, SendAttemptRecord, HumanDecision, HumanDecisionRecord, TaskDisplayStatus,
  is_review, is_human, is_completed, is_skipped, pending, ready, running, waiting_human, completed,
  skipped, cancelled, rejected, blocked, error, attention,
}
use charterion.TaskGraph.Validate.{TaskMap, index_tasks}
use charterion.TaskGraph.Evaluate.{
  AttemptEvaluation, no_evaluation, evaluate_attempt, review_attempts_exhausted,
  is_retryable_evaluated_attempt, is_review_revision_retry, index_attempts_by_id, attempt_history,
}

-- `BLOCKING_DEPENDENCY_STATES.has(status)`.
abbrev pub is_blocking : TaskDisplayStatus → Bool
is_blocking error = true
is_blocking attention = true
is_blocking blocked = true
is_blocking cancelled = true
is_blocking rejected = true
is_blocking _ = false

abbrev pub is_terminal : TaskDisplayStatus → Bool
is_terminal s = is_completed s || is_skipped s

abbrev is_attention : Option TaskDisplayStatus → Bool
is_attention (some attention) = true
is_attention _ = false

-- What the task's attempts alone say, before its dependencies are looked at.
pub record Facts : Type 0 where
  pub history : List SendAttemptRecord
  pub last_attempt : Option SendAttemptRecord
  pub observed : AttemptEvaluation
  pub evaluation : AttemptEvaluation
  pub review_loop_exhausted : Bool

unfoldable pub retry_requested :
    AgentTask → Option SendAttemptRecord → AttemptEvaluation → Bool → Bool
retry_requested t none observed exhausted = false
retry_requested t (some a) observed exhausted =
    same_option t.retry_after_attempt_id (some a.attempt_id)
    && (is_retryable_evaluated_attempt t (some a) observed exhausted
        || is_review_revision_retry t (some a))

unfoldable pub facts_of : (Text → Option Json) → List (Text × SendAttemptRecord) → AgentTask → Facts
facts_of json_parse attempts_by_id t =
    let history = attempt_history t.attempt_ids attempts_by_id in
    let last = get_last? history in
    let observed = evaluate_attempt json_parse t last in
    let exhausted = review_attempts_exhausted t in
    let evaluation =
      (if retry_requested t last observed exhausted then no_evaluation else observed) in
    record {
      history = history;
      last_attempt = last;
      observed = observed;
      evaluation = evaluation;
      review_loop_exhausted = is_review t.kind && is_attention evaluation.status && exhausted;
    }

-- The status that the task has whatever its dependencies: none if they decide.
unfoldable pub own_status : AgentTask → Facts → Option TaskDisplayStatus
own_status t f =
    if is_some t.cancelled_at
    then some cancelled
    else if is_some t.skipped_at
    then some skipped
    else if is_some f.evaluation.status && not f.review_loop_exhausted
    then f.evaluation.status
    else if f.review_loop_exhausted
    then some error
    else none

-- What the loop over the dependencies found.
pub record Dependencies : Type 0 where
  pub dependency_blocked : Bool
  pub dependencies_terminal : Bool

unfoldable pub human_status : Option HumanDecisionRecord → TaskDisplayStatus
human_status none = waiting_human
human_status (some d) = elim d.decision [
  | HumanDecision.approve ↦ completed
  | HumanDecision.reject ↦ rejected
]

abbrev is_empty : List Text → Bool
is_empty [] = true
is_empty (x ∷ xs) = false

unfoldable pub status_after : AgentTask → Dependencies → TaskDisplayStatus
unfolding human_status
status_after t d =
    if d.dependency_blocked
    then blocked
    else if not d.dependencies_terminal
    then (if is_empty t.depends_on then ready else pending)
    else if is_human t.kind
    then human_status t.human_decision
    else ready

-- `if (message) managed.error = message`.
abbrev non_empty : Option Text → Option Text
non_empty o = if present o then o else none

unfoldable pub managed_task : AgentTask → Facts → TaskDisplayStatus → ManagedTask
managed_task t f status = record {
  task = t;
  status = status;
  last_attempt = f.last_attempt;
  attempt_history = f.history;
  review_result = f.observed.review_result;
  review_error = non_empty f.observed.review_error;
  structured_result = f.observed.structured_result;
  structured_result_error = non_empty f.observed.structured_result_error;
  review_round = if is_review t.kind then some (length f.history) else none;
  review_loop_exhausted = if is_review t.kind then some f.review_loop_exhausted else none;
}

abbrev pub Cache : Type 0
Cache = List (Text × ManagedTask)

-- The loop over `task.dependsOn`, which stops at the first blocking dependency. `derive` is the
-- recursive call.
unfoldable pub derive_dependencies :
    TaskMap
    → (AgentTask → Cache → Option (ManagedTask × Cache))
    → List Text
    → Bool
    → Cache
    → Option (Dependencies × Cache)
derive_dependencies by_id derive [] terminal cache =
    some (record { dependency_blocked = false; dependencies_terminal = terminal }, cache)
derive_dependencies by_id derive (id ∷ ids) terminal cache = elim (get by_id id) [
  | none ↦ derive_dependencies by_id derive ids terminal cache
  | some dependency ↦ elim (derive dependency cache) [
    | none ↦ none
    | some (m, cache') ↦ elim (is_blocking m.status) [
      | true ↦ some (record { dependency_blocked = true; dependencies_terminal = terminal }, cache')
      | false ↦ derive_dependencies by_id derive ids (terminal && is_terminal m.status) cache'
    ]
  ]
]

module _ (json_parse : Text → Option Json) (by_id : TaskMap)
    (attempts_by_id : List (Text × SendAttemptRecord)) where
  -- The entry for a task whose status is known, and the map with it.
  unfoldable pub store : AgentTask → TaskDisplayStatus → Cache → ManagedTask × Cache
  store t status cache =
      let m = managed_task t (facts_of json_parse attempts_by_id t) status in (m, put cache t.id m)

  unfoldable pub derive : ℕ → AgentTask → Cache → Option (ManagedTask × Cache)
  derive zero t cache = none
  derive (suc fuel) t cache = elim (get cache t.id) [
    | some m ↦ some (m, cache)
    | none ↦ elim (own_status t (facts_of json_parse attempts_by_id t)) [
      | some status ↦ some (store t status cache)
      | none ↦ elim (derive_dependencies by_id (derive fuel) t.depends_on true cache) [
        | none ↦ none
        | some (d, cache') ↦ some (store t (status_after t d) cache')
      ]
    ]
  ]

  -- `tasks.map(derive)`.
  unfoldable pub derive_each : ℕ → List AgentTask → Cache → Option (List ManagedTask × Cache)
  derive_each fuel [] cache = some ([], cache)
  derive_each fuel (t ∷ ts) cache = elim (derive fuel t cache) [
    | none ↦ none
    | some (m, cache') ↦ elim (derive_each fuel ts cache') [
      | none ↦ none
      | some (ms, final) ↦ some (m ∷ ms, final)
    ]
  ]

-- The managed tasks, with the map of results that they were read from.
unfoldable pub derive_managed_tasks :
    (Text → Option Json)
    → List AgentTask
    → List SendAttemptRecord
    → Option (List ManagedTask × Cache)
unfolding derive_each
derive_managed_tasks json_parse tasks attempts =
    derive_each json_parse (index_tasks tasks []) (index_attempts_by_id attempts [])
      (suc (length tasks)) tasks []
