-- ===== src/Tasks/Policy.antt =====
-- src/taskPolicy.ts: which completion policy and review settings a task of each kind may have.
pub mod Valid
use charterion.Prelude.Json.{Number}
use charterion.Prelude.{
  ℕ, Text, Option, none, some, List, [], ◌∷◌, Bool, true, false, not, ◌||◌, ◌&&◌, if◌then◌else◌,
  is_some, or_else, present, trim, truthy, includes, text_eq, ltb, Result, ok, err, ◌>>=◌, ◌>>◌,
  throw_if,
}
use charterion.Contracts.{
  AgentTask, TaskKind, TaskCompletionPolicy, work, review, human, reply, structured_result,
  verified_claim, review_pass, human_approval,
}

abbrev pub default_max_review_rounds : Number
default_max_review_rounds = Number.natural 3

abbrev pub max_review_rounds : ℕ
max_review_rounds = 10

pub data PolicyError : Type 0 where
  work_policy_invalid policy_required human_with_role human_with_review_settings role_required
        review_target_required target_not_dependency rounds_out_of_range work_with_review_settings :
      PolicyError

unfoldable pub default_completion_policy : TaskKind → TaskCompletionPolicy
default_completion_policy review = review_pass
default_completion_policy human = human_approval
default_completion_policy work = structured_result

-- `['reply', 'structured-result', 'verified-claim'].includes(policy)`.
abbrev is_work_policy : TaskCompletionPolicy → Bool
is_work_policy reply = true
is_work_policy structured_result = true
is_work_policy verified_claim = true
is_work_policy _ = false

-- `task.completionPolicy !== expected`, for the kinds with one policy.
abbrev is_expected : TaskKind → TaskCompletionPolicy → Bool
is_expected review review_pass = true
is_expected human human_approval = true
is_expected work structured_result = true
is_expected _ _ = false

abbrev blank : Text → Bool
blank t = not (truthy (trim t))

unfoldable pub check_policy : TaskKind → TaskCompletionPolicy → Result PolicyError (Unit {0})
check_policy work p = throw_if (not (is_work_policy p)) PolicyError.work_policy_invalid
check_policy kind p = throw_if (not (is_expected kind p)) PolicyError.policy_required

abbrev has_review_settings : AgentTask → Bool
has_review_settings t = is_some t.review_target_task_id || is_some t.max_review_rounds

-- `!Number.isInteger(rounds) || rounds < 1 || rounds > MAX_REVIEW_ROUNDS`.
unfoldable pub rounds_invalid : Number → Bool
rounds_invalid (Number.natural n) = ltb n 1 || ltb max_review_rounds n
rounds_invalid _ = true

unfoldable pub target_listed : AgentTask → Option Text → Bool
target_listed t none = false
target_listed t (some id) = includes t.depends_on id

-- What remains to be checked of a task of each kind.
unfoldable pub check_kind : TaskKind → AgentTask → Result PolicyError (Unit {0})
unfolding rounds_invalid target_listed
check_kind human t = do
  throw_if (not (blank t.target_role)) PolicyError.human_with_role
  throw_if (has_review_settings t) PolicyError.human_with_review_settings
check_kind review t = do
  throw_if (blank t.target_role) PolicyError.role_required
  throw_if (not (present t.review_target_task_id)) PolicyError.review_target_required
  throw_if (not (target_listed t t.review_target_task_id)) PolicyError.target_not_dependency
  throw_if (rounds_invalid (or_else t.max_review_rounds default_max_review_rounds))
      PolicyError.rounds_out_of_range
check_kind work t = do
  throw_if (blank t.target_role) PolicyError.role_required
  throw_if (has_review_settings t) PolicyError.work_with_review_settings

unfoldable pub validate_task_policy : AgentTask → Result PolicyError (Unit {0})
unfolding check_policy check_kind
validate_task_policy t = do check_policy t.kind t.completion_policy; check_kind t.kind t

-- `dependsOn[0]` of a task with one dependency.
unfoldable pub only_dependency : List Text → Option Text
only_dependency (d ∷ []) = some d
only_dependency _ = none

-- `if (onlyDependency) next.reviewTargetTaskId = onlyDependency`, where no target is set.
unfoldable pub default_target : Option Text → List Text → Option Text
default_target target deps =
    if present target
    then target
    else if present (only_dependency deps)
    then only_dependency deps
    else target

unfoldable pub normalize_review : TaskKind → AgentTask → AgentTask
unfolding default_target only_dependency
normalize_review review t = record t {
  review_target_task_id = default_target t.review_target_task_id t.depends_on;
  max_review_rounds = some (or_else t.max_review_rounds default_max_review_rounds);
}
normalize_review _ t = t

-- A stored task may be older than the completion policies: its policy is given apart.
unfoldable pub normalize_task : AgentTask → Option TaskCompletionPolicy → AgentTask
unfolding normalize_review default_completion_policy
normalize_task t stored_policy =
    normalize_review t.kind
      (record t { completion_policy = or_else stored_policy (default_completion_policy t.kind) })
