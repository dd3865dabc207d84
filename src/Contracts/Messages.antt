-- ===== src/Contracts/Messages.antt =====
-- src/contracts.ts: messages between agents.
use charterion.Prelude.{ℕ, Text, Option, List}

pub data AgentMessageType : Type 0 where
  result blocker question answer review_request review_result announcement : AgentMessageType

pub data AgentMessageTarget : Type 0 where
  role : Text → AgentMessageTarget
  project : AgentMessageTarget

pub record AgentMessage : Type 0 where
  pub id : Text
  pub project : Text
  pub from_role : Text
  pub target : AgentMessageTarget
  pub type : AgentMessageType
  pub content : Text
  pub task_id : Option Text
  pub attempt_ids : List Text
  pub recipient_conversation_keys : Option (List Text)
  pub created_at : ℕ
  pub updated_at : ℕ

pub record CreateAgentMessageInput : Type 0 where
  pub project : Text
  pub from_role : Text
  pub target : AgentMessageTarget
  pub type : AgentMessageType
  pub content : Text
  pub task_id : Option Text
