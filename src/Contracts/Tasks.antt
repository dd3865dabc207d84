-- ===== src/Contracts/Tasks.antt =====
-- src/contracts.ts: tasks, the decisions recorded on them, and the task as it is shown.
use charterion.Prelude.{ℕ, Text, Option, List, Bool, true, false}
use charterion.Prelude.Json.{Number}
use charterion.Contracts.Chat.{SendAttemptRecord}

pub data TaskKind : Type 0 where
  work review human : TaskKind

pub data TaskCompletionPolicy : Type 0 where
  reply structured_result verified_claim review_pass human_approval : TaskCompletionPolicy

-- The claim that completes a task with policy `verified-claim`.
pub record VerifiedTaskCompletion : Type 0 where
  pub claim_id : Text
  pub verification_id : Text
  pub completed_at : ℕ
  pub commit_sha : Option Text

-- Its `status` is always `completed`.
pub record StructuredTaskResult : Type 0 where
  pub summary : Text
  pub evidence : List Text

pub data TaskDisplayStatus : Type 0 where
  pending ready running waiting_human completed skipped cancelled rejected blocked error attention :
      TaskDisplayStatus

pub data ReviewDecision : Type 0 where
  pass fail : ReviewDecision

pub record ReviewResult : Type 0 where
  pub decision : ReviewDecision
  pub reason : Text
  pub next_instruction : Text

pub data HumanDecision : Type 0 where
  approve reject : HumanDecision

pub record HumanDecisionRecord : Type 0 where
  pub decision : HumanDecision
  pub reason : Text
  pub decided_at : ℕ

pub record AgentTask : Type 0 where
  pub id : Text
  pub kind : TaskKind
  pub completion_policy : TaskCompletionPolicy
  pub title : Text
  pub project : Text
  pub instruction : Text
  pub target_role : Text
  pub depends_on : List Text
  pub attempt_ids : List Text
  pub retry_after_attempt_id : Option Text
  pub revision_instruction : Option Text
  pub revision_from_review_attempt_id : Option Text
  pub review_target_task_id : Option Text
  pub max_review_rounds : Option Number
  pub human_decision : Option HumanDecisionRecord
  pub machine_completion : Option VerifiedTaskCompletion
  pub skipped_at : Option ℕ
  pub skip_reason : Option Text
  pub cancelled_at : Option ℕ
  pub cancel_reason : Option Text
  pub created_at : ℕ
  pub updated_at : ℕ

pub record ManagedTask : Type 0 where
  pub task : AgentTask
  pub status : TaskDisplayStatus
  pub last_attempt : Option SendAttemptRecord
  pub attempt_history : List SendAttemptRecord
  pub review_result : Option ReviewResult
  pub review_error : Option Text
  pub structured_result : Option StructuredTaskResult
  pub structured_result_error : Option Text
  pub review_round : Option ℕ
  pub review_loop_exhausted : Option Bool

abbrev pub is_review : TaskKind → Bool
is_review review = true
is_review _ = false

abbrev pub is_human : TaskKind → Bool
is_human human = true
is_human _ = false

abbrev pub is_completed : TaskDisplayStatus → Bool
is_completed completed = true
is_completed _ = false

abbrev pub is_skipped : TaskDisplayStatus → Bool
is_skipped skipped = true
is_skipped _ = false
