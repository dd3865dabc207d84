-- ===== src/TaskGraph/Evaluate/Reviewed.antt =====
-- src/taskGraph.ts, `evaluateAttempt`: what an answered review shows.
use charterion.Prelude.{Text, ◌≡◌, refl, ap, ◌∙◌, Option, some, [], true, false, or_else, ok, arith}
use charterion.Prelude.Json.{Json}
use charterion.Contracts.{AgentTask, SendAttemptRecord, ReviewResult, ReviewDecision, is_review}
use charterion.Protocol.Review.{parse_review_result}
use charterion.TaskGraph.Evaluate.{
  evaluate_attempt, evaluate_last, evaluate_state, review_reply, reviewed, is_structured,
  is_verified_claim, is_observed,
}

evaluate-observed :
    (json_parse : Text → Option Json) (t : AgentTask) (a : SendAttemptRecord)
    → is_observed a.state ≡ true
    → is_review t.kind ≡ true
    → is_structured t.completion_policy ≡ false
    → is_verified_claim t.completion_policy ≡ false
    → evaluate_attempt json_parse t (some a)
      ≡ review_reply json_parse (or_else a.reply_text_tail [])
unfolding evaluate_attempt evaluate_last evaluate_state
evaluate-observed json_parse t a h₁ h₂ h₃ h₄ = ground arith

review_reply-ok :
    (json_parse : Text → Option Json) (reply : Text) (r : ReviewResult)
    → parse_review_result json_parse reply ≡ ok r
    → review_reply json_parse reply ≡ reviewed json_parse r.decision r
unfolding review_reply
review_reply-ok json_parse reply r h = ground arith

reviewed-fail :
    (json_parse : Text → Option Json) (d : ReviewDecision) (r : ReviewResult)
    → (reviewed json_parse d r).review_result ≡ some r
unfolding reviewed
reviewed-fail json_parse ReviewDecision.fail r = refl
reviewed-fail json_parse ReviewDecision.pass r = refl

-- The result of an answered review is the review that its reply holds.
pub evaluate-review_result :
    (json_parse : Text → Option Json) (t : AgentTask) (a : SendAttemptRecord) (r : ReviewResult)
    → is_observed a.state ≡ true
    → is_review t.kind ≡ true
    → is_structured t.completion_policy ≡ false
    → is_verified_claim t.completion_policy ≡ false
    → parse_review_result json_parse (or_else a.reply_text_tail []) ≡ ok r
    → (evaluate_attempt json_parse t (some a)).review_result ≡ some r
evaluate-review_result json_parse t a r h₁ h₂ h₃ h₄ h =
    ap (λ e. e.review_result)
      (evaluate-observed json_parse t a h₁ h₂ h₃ h₄
        ∙ review_reply-ok json_parse (or_else a.reply_text_tail []) r h)
    ∙ reviewed-fail json_parse r.decision r
