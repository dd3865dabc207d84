-- ===== src/Content.antt =====
-- The observations that content scripts report: which are current (src/contentRuntimeFence.ts, in
-- Content/Fence) and which show a new reply (src/replyCorrelation.ts, in Content/Reply).
pub mod Fence
pub mod Reply
