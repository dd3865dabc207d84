-- ===== src/Samples/Graph.antt =====
-- Runs of the task graph, the reply parsers, the task policy, the exact dispatch and the remediation.
use charterion.Protocol.Keys.{sorted_keys}
use charterion.Prelude.{
  ℕ, ◌≡◌, ◌≢◌, ◌↔◌, refl, Text, codes, Option, none, some, List, [], ◌∷◌, true, if◌then◌else◌,
  arith, ok, err, filter, same, trim, text_eq, nat_eq, get, put, includes, for_each, starts_with,
}
use charterion.Prelude.Json.{Json, Fields, Items, member, keys, items}
use charterion.Contracts.{
  AgentTask, ManagedTask, SendAttemptRecord, SendAttemptState, TaskDisplayStatus, ReviewDecision,
  ReviewResult,
}
use charterion.TaskGraph.Validate.{
  validate_task_graph, index_tasks, dependencies, visit, visit_all, check_tasks, check_task,
  check_dependencies, out_of_fuel, not_a_dag,
}
use charterion.TaskGraph.Validate.Acyclic.{Chain, validate-acyclic}
use charterion.TaskGraph.Validate.Outcome.{validate-ne-out_of_fuel, validate-ne-not_a_dag}
use charterion.TaskGraph.Evaluate.{index_attempts_by_id}
use charterion.TaskGraph.Derive.{derive_managed_tasks, Cache}
use charterion.TaskGraph.Derive.Managed.{FollowsRules, derive_managed-FollowsRules}
use charterion.Tasks.Policy.{check_policy, check_kind, validate_task_policy}
use charterion.Tasks.Policy.Valid.{validate-iff_valid, HasKindFor}
use charterion.Dispatch.Exact.{
  ExactTaskDispatchRequest, plan_exact_task_dispatch, success, is_dispatchable, plan_exact_iff,
}
use charterion.Protocol.Block.Once.{HasBlock}
use charterion.Protocol.Block.{index_of, last_index_of, find_block}
use charterion.Protocol.Review.{parse_review_result, review_open, review_close}
use charterion.Protocol.Review.Sound.{IsAccepted, parse_review-IsAccepted}
use charterion.Protocol.Structured.{is_placeholder, is_substantive, parse_structured_task_result}
use charterion.Protocol.Structured.Sound.{IsSubstantive, parse_structured-IsSubstantive}
use charterion.Samples.{attempt, work_task, review_task}

-- Two tasks, the second of which depends on the first.
abbrev chain : List AgentTask
chain = work_task (codes "b") (codes "a" ∷ []) [] ∷ work_task (codes "a") [] (codes "x" ∷ []) ∷ []

abbrev no_json : Text → Option Json
no_json t = none

validate-acyclic_example : ¬ Chain chain (codes "b") (codes "b")
unfolding validate_task_graph index_tasks put same check_tasks check_task check_dependencies
    validate_task_policy check_policy check_kind trim get visit_all visit for_each dependencies
    includes
validate-acyclic_example = validate-acyclic chain refl (codes "b")

validate-ne-out_of_fuel_example : validate_task_graph chain ≢ err out_of_fuel
validate-ne-out_of_fuel_example = validate-ne-out_of_fuel chain

abbrev height : Text → ℕ
height t = if same t (codes "b") then 1 else 0

validate-ne-not_a_dag_example : validate_task_graph chain ≢ err not_a_dag
unfolding same
validate-ne-not_a_dag_example = validate-ne-not_a_dag chain height ((omega arith, tt), (tt, tt))

-- The first task waits while the other one runs.
derive_managed-FollowsRules_example :
    (ms : List ManagedTask) × (results : Cache) × (derive_managed_tasks no_json chain
        (attempt (codes "x") SendAttemptState.dispatched ∷ [])
      ≡ some (ms, results))
    × FollowsRules no_json
        (index_tasks chain [])
        (index_attempts_by_id (attempt (codes "x") SendAttemptState.dispatched ∷ []) [])
        results
        chain
        ms
unfolding validate_task_graph index_tasks put same check_tasks check_task check_dependencies
    validate_task_policy check_policy check_kind trim get visit_all visit for_each dependencies
    includes
derive_managed-FollowsRules_example =
    derive_managed-FollowsRules no_json chain (attempt (codes "x") SendAttemptState.dispatched ∷ [])
      refl

validate-iff_valid_example :
    (validate_task_policy (review_task (codes "r") (codes "a") []) ≡ ok tt)
    ↔ HasKindFor
        (review_task (codes "r") (codes "a") []).kind
        (review_task (codes "r") (codes "a") [])
validate-iff_valid_example = validate-iff_valid (review_task (codes "r") (codes "a") [])

-- A failed review.
abbrev failing : Fields
failing = Fields.field (codes "decision") (Json.str (codes "fail")) (
    Fields.field (codes "reason") (Json.str (codes "bad"))
      (Fields.field (codes "nextInstruction") (Json.str (codes "mend")) Fields.end))

abbrev review_json : Text → Option Json
review_json t = some (Json.obj failing)

abbrev review_text : Text
review_text = codes "<GAM_REVIEW>{}</GAM_REVIEW>"

abbrev failing_result : ReviewResult
failing_result = record {
  decision = ReviewDecision.fail;
  reason = codes "bad";
  next_instruction = codes "mend";
}

parse_review-IsAccepted_example :
    (raw : Text) × (fs : Fields) × HasBlock review_open review_close (trim review_text) raw
    × (review_json raw ≡ some (Json.obj fs))
    × IsAccepted fs failing_result
unfolding parse_review_result find_block last_index_of trim starts_with index_of same sorted_keys
    keys member
parse_review-IsAccepted_example =
    parse_review-IsAccepted review_json review_text failing_result refl

-- A result with one item of evidence.
abbrev result_fields_sample : Fields
result_fields_sample = Fields.field (codes "status") (Json.str (codes "completed")) (
    Fields.field (codes "summary") (Json.str (codes "built")) (
      Fields.field (codes "evidence") (Json.arr (Items.cons (Json.str (codes "log")) Items.nil))
        Fields.end))

abbrev result_json : Text → Option Json
result_json t = some (Json.obj result_fields_sample)

parse_structured-IsSubstantive_example :
    IsSubstantive (record { summary = codes "built"; evidence = codes "log" ∷ [] })
unfolding parse_structured_task_result find_block last_index_of trim starts_with index_of same
    sorted_keys keys member is_substantive is_placeholder includes items
parse_structured-IsSubstantive_example =
    parse_structured-IsSubstantive result_json (codes "<GAM_RESULT>{}</GAM_RESULT>")
      (record { summary = codes "built"; evidence = codes "log" ∷ [] }) refl

-- A review that failed the work of task `a`.
abbrev reviewing : AgentTask
reviewing = review_task (codes "r") (codes "a") (codes "y" ∷ [])

abbrev reviewed : AgentTask
reviewed = work_task (codes "a") [] (codes "x" ∷ [])

abbrev review_reply : SendAttemptRecord
review_reply = record (attempt (codes "y") SendAttemptState.reply_observed) {
  reply_text_tail = some review_text;
}

abbrev work_reply : SendAttemptRecord
work_reply = attempt (codes "x") SendAttemptState.reply_observed

abbrev shown : ManagedTask
shown = record {
  task = reviewed;
  status = TaskDisplayStatus.ready;
  last_attempt = none;
  attempt_history = [];
  review_result = none;
  review_error = none;
  structured_result = none;
  structured_result_error = none;
  review_round = none;
  review_loop_exhausted = none;
}

abbrev request : ExactTaskDispatchRequest
request = record { task_id = codes "a"; project = codes "p" }

plan_exact_iff_example : (plan_exact_task_dispatch (shown ∷ []) request ≡ ok (success shown)) ↔ (
    (filter (λ n. same n.task.id request.task_id) (shown ∷ []) ≡ shown ∷ [])
    × (is_dispatchable request shown ≡ true))
plan_exact_iff_example = plan_exact_iff (shown ∷ []) request shown
