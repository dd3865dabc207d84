-- ===== src/Tasks/Remediation.antt =====
-- src/reviewLoop.ts: a failed review sends the reviewed task and the review itself round again.
pub mod Reopened
use charterion.Prelude.Json.{at_least}
use charterion.Prelude.{
  ℕ, Text, Option, none, some, List, [], ◌∷◌, Bool, true, false, not, ◌||◌, ◌&&◌, same_option,
  get_last?, length, leb, or_else, Result, ok, err, ◌>>=◌, ◌>>◌, throw_if,
}
use charterion.Prelude.Json.{Json}
use charterion.Contracts.{
  AgentTask, SendAttemptRecord, SendAttemptState, ReviewResult, ReviewDecision, is_review,
  reply_observed,
}
use charterion.Protocol.Review.{ReviewError, parse_review_result}
use charterion.Tasks.Policy.{default_max_review_rounds}

pub record ReviewLoopUpdate : Type 0 where
  pub review_task : AgentTask
  pub target_task : AgentTask

pub data RemediationError : Type 0 where
  not_a_review wrong_target review_unanswered target_unanswered stale_review stale_target not_failed
        out_of_rounds :
      RemediationError

abbrev pub is_answered : SendAttemptState → Bool
is_answered reply_observed = true
is_answered _ = false

abbrev pub failed_result : ReviewResult → Result RemediationError ReviewResult
failed_result r = elim r.decision [
  | ReviewDecision.fail ↦ ok r
  | ReviewDecision.pass ↦ err not_failed
]

abbrev pub explicit_failure : Result ReviewError ReviewResult → Result RemediationError ReviewResult
explicit_failure (ok r) = failed_result r
explicit_failure (err e) = err not_failed

-- The two tasks as they are returned.
abbrev pub update :
    AgentTask
    → AgentTask
    → SendAttemptRecord
    → SendAttemptRecord
    → ℕ
    → ReviewResult
    → ReviewLoopUpdate
update review target review_attempt target_attempt now result = record {
  review_task = record review {
    retry_after_attempt_id = some review_attempt.attempt_id;
    updated_at = now;
  };
  target_task = record target {
    retry_after_attempt_id = some target_attempt.attempt_id;
    revision_instruction = some result.next_instruction;
    revision_from_review_attempt_id = some review_attempt.attempt_id;
    updated_at = now;
  };
}

-- The last check and the update, with the parsed review.
unfoldable pub remediate :
    AgentTask
    → AgentTask
    → SendAttemptRecord
    → SendAttemptRecord
    → ℕ
    → ReviewResult
    → Result RemediationError ReviewLoopUpdate
remediate review target review_attempt target_attempt now result = do
  throw_if
      (at_least (length review.attempt_ids)
        (or_else review.max_review_rounds default_max_review_rounds))
      out_of_rounds
  ok (update review target review_attempt target_attempt now result)

unfoldable pub apply_review_remediation :
    (Text → Option Json)
    → AgentTask
    → AgentTask
    → SendAttemptRecord
    → SendAttemptRecord
    → ℕ
    → Result RemediationError ReviewLoopUpdate
apply_review_remediation json_parse review target review_attempt target_attempt now = do
  throw_if (not (is_review review.kind)) not_a_review
  throw_if (not (same_option review.review_target_task_id (some target.id))) wrong_target
  throw_if (not (is_answered review_attempt.state)) review_unanswered
  throw_if (not (is_answered target_attempt.state)) target_unanswered
  throw_if (not (same_option (get_last? review.attempt_ids) (some review_attempt.attempt_id)))
      stale_review
  throw_if (not (same_option (get_last? target.attempt_ids) (some target_attempt.attempt_id)))
      stale_target
  result ←
      explicit_failure (parse_review_result json_parse (or_else review_attempt.reply_text_tail []))
  remediate review target review_attempt target_attempt now result
