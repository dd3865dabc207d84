-- ===== src/TaskGraph.antt =====
-- src/taskGraph.ts: the graph of tasks and their dependencies. TaskGraph/Validate has the checks on
-- import (with the depth-first search for cycles), TaskGraph/Evaluate what a task's last attempt
-- means, TaskGraph/Derive the status that each task is shown with.
pub mod Validate
pub mod Evaluate
pub mod Derive
