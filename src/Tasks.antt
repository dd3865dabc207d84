-- ===== src/Tasks.antt =====
-- The life of a task: its policy (src/taskPolicy.ts), the operator's dispositions and human
-- decisions (src/taskLifecycle.ts).
pub mod Policy
pub mod Lifecycle
pub mod Remediation
