-- ===== src/TaskGraph/Evaluate.antt =====
-- src/taskGraph.ts: what a task's last attempt means for it, and which attempts may be retried.
-- `JSON.parse` is the parameter of the reply parsers (Protocol).
pub mod Reviewed
use charterion.Prelude.Json.{at_least}
use charterion.Prelude.{
  ℕ, Text, Option, none, some, List, [], ◌∷◌, Bool, true, false, not, ◌||◌, ◌&&◌, if◌then◌else◌,
  same, same_option, is_some, or_else, present, leb, length, get, get_last?, text_eq, Result, ok,
  err, put,
}
use charterion.Prelude.Json.{Json}
use charterion.Contracts.{
  AgentTask, SendAttemptRecord, SendAttemptState, ReviewResult, ReviewDecision,
  StructuredTaskResult, TaskDisplayStatus, TaskCompletionPolicy, TaskKind, work, is_review,
  verified_claim, structured_result, completed, running, error, attention, prepared, dispatched,
  acknowledged, reply_observed, failed, uncertain,
}
use charterion.Protocol.Review.{parse_review_result, review_message}
use charterion.Protocol.Structured.{parse_structured_task_result, structured_message}
use charterion.Tasks.Policy.{default_max_review_rounds}

pub record AttemptEvaluation : Type 0 where
  pub status : Option TaskDisplayStatus
  pub review_result : Option ReviewResult
  pub review_error : Option Text
  pub structured_result : Option StructuredTaskResult
  pub structured_result_error : Option Text

-- `{}` and `{ status }`.
abbrev pub no_evaluation : AttemptEvaluation
no_evaluation = record {
  status = none;
  review_result = none;
  review_error = none;
  structured_result = none;
  structured_result_error = none;
}

abbrev pub only_status : TaskDisplayStatus → AttemptEvaluation
only_status s = record no_evaluation { status = some s }

abbrev pub is_verified_claim : TaskCompletionPolicy → Bool
is_verified_claim verified_claim = true
is_verified_claim _ = false

abbrev pub is_structured : TaskCompletionPolicy → Bool
is_structured TaskCompletionPolicy.structured_result = true
is_structured _ = false

abbrev pub is_work : TaskKind → Bool
is_work work = true
is_work _ = false

abbrev pub is_observed : SendAttemptState → Bool
is_observed reply_observed = true
is_observed _ = false

abbrev pub is_open : SendAttemptState → Bool
is_open failed = true
is_open uncertain = true
is_open _ = false

module _ (json_parse : Text → Option Json) where
  structured_reply : Text → AttemptEvaluation
  structured_reply reply = elim (parse_structured_task_result json_parse reply) [
    | ok r ↦ record (only_status completed) { structured_result = some r }
    | err e ↦ record (only_status attention) {
      structured_result_error = some (structured_message e);
    }
  ]

  pub reviewed : ReviewDecision → ReviewResult → AttemptEvaluation
  reviewed ReviewDecision.fail r = record (only_status attention) { review_result = some r }
  reviewed ReviewDecision.pass r = record (only_status completed) { review_result = some r }

  pub review_reply : Text → AttemptEvaluation
  unfolding reviewed
  review_reply reply = elim (parse_review_result json_parse reply) [
    | ok r ↦ reviewed r.decision r
    | err e ↦ record (only_status attention) { review_error = some (review_message e) }
  ]

  pub evaluate_state : SendAttemptState → AgentTask → SendAttemptRecord → AttemptEvaluation
  unfolding structured_reply review_reply
  evaluate_state reply_observed t a =
      if is_verified_claim t.completion_policy
      then only_status running
      else if is_structured t.completion_policy
      then structured_reply (or_else a.reply_text_tail [])
      else if not (is_review t.kind)
      then only_status completed
      else review_reply (or_else a.reply_text_tail [])
  evaluate_state prepared t a = only_status running
  evaluate_state dispatched t a = only_status running
  evaluate_state acknowledged t a = only_status running
  evaluate_state failed t a = only_status error
  evaluate_state uncertain t a = only_status attention

  pub evaluate_last : AgentTask → Option SendAttemptRecord → AttemptEvaluation
  unfolding evaluate_state
  evaluate_last t none = no_evaluation
  evaluate_last t (some a) = evaluate_state a.state t a

  unfoldable pub evaluate_attempt : AgentTask → Option SendAttemptRecord → AttemptEvaluation
  unfolding evaluate_last
  evaluate_attempt t a =
      if is_verified_claim t.completion_policy && is_some t.machine_completion
      then only_status completed
      else evaluate_last t a

unfoldable pub review_attempts_exhausted : AgentTask → Bool
review_attempts_exhausted t =
    is_review t.kind
    && at_least (length t.attempt_ids) (or_else t.max_review_rounds default_max_review_rounds)

abbrev pub failed_review : Option ReviewResult → Bool
failed_review none = false
failed_review (some r) = elim r.decision [
  | ReviewDecision.fail ↦ true
  | ReviewDecision.pass ↦ false
]

unfoldable pub is_retryable_evaluated_attempt :
    AgentTask → Option SendAttemptRecord → AttemptEvaluation → Bool → Bool
is_retryable_evaluated_attempt t none evaluation exhausted = false
is_retryable_evaluated_attempt t (some a) evaluation exhausted =
    if is_open a.state
    then not (is_review t.kind) || not exhausted
    else if is_observed a.state && is_structured t.completion_policy
    then is_some evaluation.structured_result_error
    else if not (is_review t.kind) || not (is_observed a.state) || exhausted
    then false
    else is_some evaluation.review_error || failed_review evaluation.review_result

unfoldable pub is_retryable_task_attempt :
    (Text → Option Json) → AgentTask → Option SendAttemptRecord → Bool
is_retryable_task_attempt json_parse t a =
    is_retryable_evaluated_attempt t a (evaluate_attempt json_parse t a)
      (review_attempts_exhausted t)

unfoldable pub is_review_revision_retry : AgentTask → Option SendAttemptRecord → Bool
is_review_revision_retry t none = false
is_review_revision_retry t (some a) =
    is_work t.kind
    && is_observed a.state
    && same_option t.retry_after_attempt_id (some a.attempt_id)
    && present t.revision_from_review_attempt_id

unfoldable pub index_attempts_by_id :
    List SendAttemptRecord → List (Text × SendAttemptRecord) → List (Text × SendAttemptRecord)
index_attempts_by_id [] m = m
index_attempts_by_id (a ∷ rest) m = index_attempts_by_id rest (put m a.attempt_id a)

-- The attempts of the task that the ledger still has, in the task's order.
unfoldable pub attempt_history :
    List Text → List (Text × SendAttemptRecord) → List SendAttemptRecord
attempt_history [] by_id = []
attempt_history (id ∷ ids) by_id = elim (get by_id id) [
  | none ↦ attempt_history ids by_id
  | some a ↦ a ∷ attempt_history ids by_id
]
