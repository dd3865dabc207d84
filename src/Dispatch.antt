-- ===== src/Dispatch.antt =====
-- What may be sent to ChatGPT, and when: one task by its exact id (src/exactTaskDispatch.ts, in
-- Dispatch/Exact), and the pace of all prompts (src/promptDispatchGovernor.ts, in Dispatch/Governor).
pub mod Exact
pub mod Governor
