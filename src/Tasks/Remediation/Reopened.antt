-- ===== src/Tasks/Remediation/Reopened.antt =====
-- src/reviewLoop.ts with src/taskGraph.ts: the graph takes up both tasks of a remediation again.
use charterion.Prelude.Json.{at_least}
use charterion.Prelude.{ℕ, Text, ◌≡◌, Option, [], true, false, length, or_else, ok, arith}
use charterion.Prelude.Json.{Json}
use charterion.Contracts.{AgentTask, SendAttemptRecord, ReviewResult, ReviewDecision, is_review}
use charterion.Protocol.Review.{parse_review_result}
use charterion.Tasks.Policy.{default_max_review_rounds}
use charterion.Tasks.Remediation.{
  ReviewLoopUpdate, update, is_answered, explicit_failure, failed_result,
}

-- What a remediation that succeeds has found, and what it makes of the tasks.
record Remediated (json_parse : Text → Option Json) (review target : AgentTask)
    (review_attempt target_attempt : SendAttemptRecord) (now : ℕ) (u : ReviewLoopUpdate)
    : Type 0 where
  reviews : is_review review.kind ≡ true
  review_answered : is_answered review_attempt.state ≡ true
  target_answered : is_answered target_attempt.state ≡ true
  result : ReviewResult
  failing :
      explicit_failure (parse_review_result json_parse (or_else review_attempt.reply_text_tail []))
      ≡ ok result
  rounds_left :
      at_least
        (length review.attempt_ids)
        (or_else review.max_review_rounds default_max_review_rounds)
      ≡ false
  updated : update review target review_attempt target_attempt now result ≡ u

failing : (x : ReviewResult) → x.decision ≡ ReviewDecision.fail → failed_result x ≡ ok x
failing x e = ground arith
