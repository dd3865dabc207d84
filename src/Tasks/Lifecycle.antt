-- ===== src/Tasks/Lifecycle.antt =====
-- src/taskLifecycle.ts: skipping and cancelling a task, and deciding a human task. The status is the
-- one that the task is shown with when the operation is asked for.
pub mod Shown
use charterion.Prelude.{
  ℕ, Text, Option, some, Bool, true, false, not, if◌then◌else◌, trim, truthy, Result, ok, ◌>>◌,
  throw_if,
}
use charterion.Contracts.{
  AgentTask, HumanDecision, TaskDisplayStatus, is_human, running, waiting_human, completed, skipped,
  cancelled, rejected,
}

pub data TaskDispositionAction : Type 0 where
  skip cancel : TaskDispositionAction

pub data LifecycleError : Type 0 where
  cannot_skip cannot_cancel not_a_human_task not_waiting : LifecycleError

unfoldable pub can_skip_task : TaskDisplayStatus → Bool
can_skip_task running = false
can_skip_task completed = false
can_skip_task skipped = false
can_skip_task cancelled = false
can_skip_task rejected = false
can_skip_task _ = true

unfoldable pub can_cancel_task : TaskDisplayStatus → Bool
can_cancel_task completed = false
can_cancel_task skipped = false
can_cancel_task cancelled = false
can_cancel_task rejected = false
can_cancel_task _ = true

-- `if (normalizedReason) next.reason = normalizedReason`.
abbrev pub reason_or : Text → Option Text → Option Text
reason_or reason old = if truthy reason then some reason else old

unfoldable pub apply_task_disposition :
    AgentTask
    → TaskDisplayStatus
    → TaskDispositionAction
    → ℕ
    → Text
    → Result LifecycleError AgentTask
unfolding can_skip_task can_cancel_task
apply_task_disposition t status skip now reason = do
  throw_if (not (can_skip_task status)) LifecycleError.cannot_skip
  ok (record t {
    skipped_at = some now;
    updated_at = now;
    skip_reason = reason_or (trim reason) t.skip_reason;
  })
apply_task_disposition t status cancel now reason = do
  throw_if (not (can_cancel_task status)) LifecycleError.cannot_cancel
  ok (record t {
    cancelled_at = some now;
    updated_at = now;
    cancel_reason = reason_or (trim reason) t.cancel_reason;
  })

abbrev is_waiting : TaskDisplayStatus → Bool
is_waiting waiting_human = true
is_waiting _ = false

unfoldable pub apply_human_decision :
    AgentTask → TaskDisplayStatus → HumanDecision → ℕ → Text → Result LifecycleError AgentTask
apply_human_decision t status decision now reason = do
  throw_if (not (is_human t.kind)) LifecycleError.not_a_human_task
  throw_if (not (is_waiting status)) LifecycleError.not_waiting
  ok (record t {
    human_decision = some (record { decision = decision; reason = trim reason; decided_at = now });
    updated_at = now;
  })
