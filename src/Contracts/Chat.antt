-- ===== src/Contracts/Chat.antt =====
-- src/contracts.ts: what is observed of a ChatGPT page, and the ledger entry of one sent prompt.
use charterion.Prelude.{ℕ, Text, Option, List, Bool, true, false}

pub data AgentStatus : Type 0 where
  idle generating blocked unauthorized error unknown unavailable : AgentStatus

pub record ChatSnapshot : Type 0 where
  pub conversation_key : Text
  pub conversation_id : Option Text
  pub status : AgentStatus
  pub assistant_message_count : ℕ
  pub latest_assistant_message_id : Option Text
  pub latest_assistant_text : Text

pub record ContentObservationIdentity : Type 0 where
  pub content_epoch : Text
  pub revision : ℕ
  pub semantic_signature : Text
  pub observed_at : ℕ

pub record RoleBinding : Type 0 where
  pub role : Text
  pub project : Text
  pub notes : Text
  pub agent_slot_id : Option Text

pub data SendAttemptState : Type 0 where
  prepared dispatched acknowledged reply_observed failed uncertain : SendAttemptState

pub record SendAttemptRecord : Type 0 where
  pub attempt_id : Text
  pub batch_id : Text
  pub tab_id : ℕ
  pub conversation_key : Text
  pub content_epoch : Text
  pub task_id : Option Text
  pub message_id : Option Text
  pub retry_of_attempt_id : Option Text
  pub state : SendAttemptState
  pub text_length : ℕ
  pub baseline_assistant_message_count : ℕ
  pub baseline_assistant_message_id : Option Text
  pub reply_message_id : Option Text
  pub reply_text_tail : Option Text
  pub reply_observed_at : Option ℕ
  pub created_at : ℕ
  pub updated_at : ℕ
  pub error : Option Text

pub record ManagedTab : Type 0 where
  pub tab_id : ℕ
  pub snapshot : ChatSnapshot
  pub binding : RoleBinding
  pub last_attempt : Option SendAttemptRecord

pub record PendingPromptEvidence : Type 0 where
  pub attempt_id : Text
  pub content_epoch : Text
  pub baseline_assistant_message_count : ℕ
  pub baseline_assistant_message_id : Option Text
  pub started_at : ℕ

pub record ContentRecoveryState : Type 0 where
  pub observation : ContentObservationIdentity
  pub snapshot : ChatSnapshot
  pub delivered_attempt_ids : List Text
  pub pending_attempt : Option PendingPromptEvidence

-- `status === 'idle'` and `status === 'generating'`.
abbrev pub is_idle : AgentStatus → Bool
is_idle AgentStatus.idle = true
is_idle _ = false

abbrev pub is_generating : AgentStatus → Bool
is_generating AgentStatus.generating = true
is_generating _ = false

-- `left === right` on attempt states.
abbrev pub same_state : SendAttemptState → SendAttemptState → Bool
same_state prepared prepared = true
same_state dispatched dispatched = true
same_state acknowledged acknowledged = true
same_state reply_observed reply_observed = true
same_state failed failed = true
same_state uncertain uncertain = true
same_state _ _ = false
