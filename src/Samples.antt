-- ===== src/Samples.antt =====
-- Concrete tasks, attempts, messages, pages and states, on which the theorems are run.
mod Authorities
mod Graph
mod Ledgers
mod Paces
mod Pages
mod Reviews
mod Inboxes
mod Team
use charterion.Prelude.{ℕ, Text, codes, Option, none, some, List, [], ◌∷◌}
use charterion.Contracts.{
  AgentTask, SendAttemptRecord, SendAttemptState, TaskKind, TaskCompletionPolicy, ChatSnapshot,
  AgentStatus, RoleBinding, ContentObservationIdentity, ContentRecoveryState, PendingPromptEvidence,
  ManagedTab, AgentMessage, AgentMessageTarget, AgentMessageType,
}

abbrev pub attempt : Text → SendAttemptState → SendAttemptRecord
attempt id state = record {
  attempt_id = id;
  batch_id = codes "b";
  tab_id = 1;
  conversation_key = codes "c";
  content_epoch = codes "e";
  task_id = none;
  message_id = none;
  retry_of_attempt_id = none;
  state = state;
  text_length = 4;
  baseline_assistant_message_count = 0;
  baseline_assistant_message_id = none;
  reply_message_id = none;
  reply_text_tail = none;
  reply_observed_at = none;
  created_at = 1;
  updated_at = 1;
  error = none;
}

abbrev pub work_task : Text → List Text → List Text → AgentTask
work_task id dependencies attempts = record {
  id = id;
  kind = TaskKind.work;
  completion_policy = TaskCompletionPolicy.reply;
  title = codes "t";
  project = codes "p";
  instruction = codes "i";
  target_role = codes "r";
  depends_on = dependencies;
  attempt_ids = attempts;
  retry_after_attempt_id = none;
  revision_instruction = none;
  revision_from_review_attempt_id = none;
  review_target_task_id = none;
  max_review_rounds = none;
  human_decision = none;
  machine_completion = none;
  skipped_at = none;
  skip_reason = none;
  cancelled_at = none;
  cancel_reason = none;
  created_at = 1;
  updated_at = 1;
}

abbrev pub review_task : Text → Text → List Text → AgentTask
review_task id target attempts = record (work_task id (target ∷ []) attempts) {
  kind = TaskKind.review;
  completion_policy = TaskCompletionPolicy.review_pass;
  review_target_task_id = some target;
}

abbrev pub snapshot : ChatSnapshot
snapshot = record {
  conversation_key = codes "c";
  conversation_id = some (codes "c");
  status = AgentStatus.idle;
  assistant_message_count = 0;
  latest_assistant_message_id = none;
  latest_assistant_text = [];
}

abbrev pub binding : RoleBinding
binding = record { role = codes "r"; project = codes "p"; notes = []; agent_slot_id = none }

abbrev pub tab : ManagedTab
tab = record { tab_id = 1; snapshot = snapshot; binding = binding; last_attempt = none }

abbrev pub message : AgentMessage
message = record {
  id = codes "m";
  project = codes "p";
  from_role = codes "s";
  target = AgentMessageTarget.role (codes "r");
  type = AgentMessageType.answer;
  content = codes "x";
  task_id = none;
  attempt_ids = [];
  recipient_conversation_keys = none;
  created_at = 1;
  updated_at = 1;
}

abbrev pub observation : Text → ℕ → ContentObservationIdentity
observation epoch revision = record {
  content_epoch = epoch;
  revision = revision;
  semantic_signature = codes "s";
  observed_at = 1;
}
