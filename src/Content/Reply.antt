-- ===== src/Content/Reply.antt =====
-- src/replyCorrelation.ts: whether a page shows a reply that the baseline did not have.
use charterion.Prelude.{
  ℕ, Text, Option, some, Bool, true, false, not, ◌||◌, ◌&&◌, trim, truthy, same, ltb, if◌then◌else◌,
}
use charterion.Contracts.{ChatSnapshot, is_idle}

pub record ReplyBaseline : Type 0 where
  pub assistant_message_count : ℕ
  pub latest_assistant_message_id : Option Text

-- Both ids are present, not empty, and they differ.
abbrev pub ids_differ : Option Text → Option Text → Bool
ids_differ (some a) (some b) = truthy a && truthy b && not (same a b)
ids_differ _ _ = false

unfoldable pub has_new_assistant_reply : ChatSnapshot → ReplyBaseline → Bool
has_new_assistant_reply s b =
    if not (is_idle s.status) || not (truthy (trim s.latest_assistant_text))
    then false
    else if ids_differ s.latest_assistant_message_id b.latest_assistant_message_id
    then true
    else ltb b.assistant_message_count s.assistant_message_count
