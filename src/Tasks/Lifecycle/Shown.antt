-- ===== src/Tasks/Lifecycle/Shown.antt =====
-- src/taskLifecycle.ts with src/taskGraph.ts: what the graph shows of a task that was skipped or cancelled.
use charterion.Prelude.{
  ℕ, Text, ◌≡◌, refl, subst, some, Bool, true, not, if◌then◌else◌, arith, is_some, ok, throw_if-ok,
  ok-injective, trim,
}
use charterion.Contracts.{AgentTask, TaskDisplayStatus, cancelled, skipped}
use charterion.Tasks.Lifecycle.{
  TaskDispositionAction, skip, cancel, cannot_skip, cannot_cancel, can_skip_task, can_cancel_task,
  apply_task_disposition, reason_or,
}
use charterion.TaskGraph.Derive.{Facts, own_status}

-- The status that a disposition asks for: a task that was cancelled before stays cancelled.
abbrev pub disposed : TaskDispositionAction → AgentTask → TaskDisplayStatus
disposed cancel t = cancelled
disposed skip t = if is_some t.cancelled_at then cancelled else skipped

-- The test that an action has to pass.
abbrev pub can_dispose : TaskDispositionAction → TaskDisplayStatus → Bool
can_dispose skip status = can_skip_task status
can_dispose cancel status = can_cancel_task status

-- A disposition that is accepted was allowed in the status that the task was shown with, and from then
-- on the graph shows the task as cancelled, or as skipped, whatever its attempts and dependencies are.
pub dispose-own_status :
    (t u : AgentTask) (status : TaskDisplayStatus) (action : TaskDispositionAction) (now : ℕ)
    (reason : Text) (f : Facts)
    → apply_task_disposition t status action now reason ≡ ok u
    → (can_dispose action status ≡ true) × (own_status u f ≡ some (disposed action t))
unfolding apply_task_disposition own_status
dispose-own_status t u status skip now reason f h =
    let next : AgentTask = record t {
      skipped_at = some now;
      updated_at = now;
      skip_reason = reason_or (trim reason) t.skip_reason;
    } in
    let (may, made) = throw_if-ok (not (can_skip_task status)) cannot_skip (ok next) h in
    (
      ground arith,
      subst (λ v. own_status v f ≡ some (disposed skip t)) (ok-injective made) (ground arith),
    )
dispose-own_status t u status cancel now reason f h =
    let next : AgentTask = record t {
      cancelled_at = some now;
      updated_at = now;
      cancel_reason = reason_or (trim reason) t.cancel_reason;
    } in
    let (may, made) = throw_if-ok (not (can_cancel_task status)) cannot_cancel (ok next) h in
    (ground arith, subst (λ v. own_status v f ≡ some cancelled) (ok-injective made) refl)
