-- ===== src/Protocol/Review.antt =====
-- src/review.ts: the parser of a review reply.
pub mod Sound
use charterion.Prelude.{
  ℕ, Text, codes, Option, none, some, List, [], ◌∷◌, ◌++◌, Bool, true, false, not, ◌||◌, ◌&&◌,
  if◌then◌else◌, same, trim, truthy, ◌≡◌, ◌⊎◌, arith, Result, ok, err, ◌>>=◌, ◌>>◌, throw_if,
}
use charterion.Prelude.Json.{Json, Items, Fields, keys, member, as_text}
use charterion.Contracts.{ReviewResult, ReviewDecision}
use charterion.Protocol.Block.{Block, find_block}
use charterion.Protocol.Keys.{sorted_keys}

abbrev pub review_open : Text
review_open = codes "<GAM_REVIEW>"

abbrev pub review_close : Text
review_close = codes "</GAM_REVIEW>"

pub data ReviewError : Type 0 where
  must_end_with_block not_one_block not_json not_an_object wrong_keys wrong_decision empty_reason
        instruction_not_text instruction_required instruction_not_empty :
      ReviewError

-- `object.decision === 'pass' || object.decision === 'fail'`.
unfoldable pub decision_of : Json → Option ReviewDecision
decision_of (Json.str t) =
    if same t (codes "pass")
    then some ReviewDecision.pass
    else if same t (codes "fail")
    then some ReviewDecision.fail
    else none
decision_of _ = none

abbrev pub or_throw : {E A : Type 0} → Option A → E → Result E A
or_throw none e = err e
or_throw (some a) e = ok a

-- A text that is not blank.
abbrev pub named : Option Text → Option Text
named none = none
named (some t) = if truthy (trim t) then some (trim t) else none

unfoldable pub check_instruction : ReviewDecision → Text → Result ReviewError (Unit {0})
check_instruction ReviewDecision.fail t = throw_if (not (truthy t)) ReviewError.instruction_required
check_instruction ReviewDecision.pass t = throw_if (truthy t) ReviewError.instruction_not_empty

unfoldable pub review_fields : Fields → Result ReviewError ReviewResult
unfolding decision_of check_instruction
review_fields fs = do
  throw_if (not (same (sorted_keys fs) (codes "decision,nextInstruction,reason")))
      ReviewError.wrong_keys
  decision ← or_throw (decision_of (member fs (codes "decision"))) ReviewError.wrong_decision
  reason ← or_throw (named (as_text (member fs (codes "reason")))) ReviewError.empty_reason
  next ← or_throw (as_text (member fs (codes "nextInstruction"))) ReviewError.instruction_not_text
  check_instruction decision (trim next)
  ok (record { decision = decision; reason = reason; next_instruction = trim next })

unfoldable pub review_value : Option Json → Result ReviewError ReviewResult
unfolding review_fields
review_value none = err ReviewError.not_json
review_value (some (Json.obj fs)) = review_fields fs
review_value (some _) = err ReviewError.not_an_object

unfoldable pub review_block : (Text → Option Json) → Block → Result ReviewError ReviewResult
unfolding review_value
review_block json_parse Block.missing = err ReviewError.must_end_with_block
review_block json_parse Block.repeated = err ReviewError.not_one_block
review_block json_parse (Block.found raw) = review_value (json_parse raw)

unfoldable pub parse_review_result : (Text → Option Json) → Text → Result ReviewError ReviewResult
unfolding review_block
parse_review_result json_parse text =
    review_block json_parse (find_block review_open review_close (trim text))

-- The messages of the errors, as the task view shows them.
unfoldable pub review_message : ReviewError → Text
review_message ReviewError.must_end_with_block =
    codes "Review reply must end with one <GAM_REVIEW> JSON block"
review_message ReviewError.not_one_block =
    codes "Review reply must contain exactly one review block"
review_message ReviewError.not_json = codes "Review block is not valid JSON"
review_message ReviewError.not_an_object = codes "Review block must be a JSON object"
review_message ReviewError.wrong_keys =
    codes "Review block must contain exactly decision, reason, and nextInstruction"
review_message ReviewError.wrong_decision = codes "Review decision must be pass or fail"
review_message ReviewError.empty_reason = codes "Review reason must be a non-empty string"
review_message ReviewError.instruction_not_text = codes "Review nextInstruction must be a string"
review_message ReviewError.instruction_required =
    codes "Failed review requires a remediation instruction"
review_message ReviewError.instruction_not_empty =
    codes "Passed review must use an empty nextInstruction"
