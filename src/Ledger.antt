-- ===== src/Ledger.antt =====
-- src/attemptLedger.ts and src/attemptLedgerIndex.ts: which attempts the ledger keeps, and the index
-- by which the latest attempt of a tab or conversation is found.

pub mod Index
pub mod Retention
use charterion.Prelude.{
  ℕ, suc, ◌+◌, ◌-◌, Text, Option, none, some, List, [], ◌∷◌, ◌++◌, Bool, true, false, ◌||◌, ◌&&◌,
  reverse, if◌then◌else◌, present, truthy, includes, filter, ltb, ◌==◌, get, put, nat_eq, text_eq,
}
use charterion.Contracts.{SendAttemptRecord, AgentTask, AgentMessage, ChatSnapshot}

abbrev pub max_unlinked_send_attempts : ℕ
max_unlinked_send_attempts = 500

unfoldable pub task_links : List AgentTask → List Text
task_links [] = []
task_links (t ∷ ts) = t.attempt_ids ++ task_links ts

unfoldable pub message_links : List AgentMessage → List Text
message_links [] = []
message_links (m ∷ ms) = m.attempt_ids ++ message_links ms

-- The set `linkedIds`.
unfoldable pub linked_ids : List AgentTask → List AgentMessage → List Text
unfolding task_links message_links
linked_ids tasks messages = task_links tasks ++ message_links messages

-- `linkedIds.has(attempt.attemptId) || attempt.taskId || attempt.messageId`.
unfoldable pub is_linked : List Text → SendAttemptRecord → Bool
is_linked linked a = includes linked a.attempt_id || present a.task_id || present a.message_id

-- The loop from the newest attempt back, over the reversed ledger.
unfoldable pub retained_unlinked : List Text → ℕ → List SendAttemptRecord → List Text → List Text
retained_unlinked linked remaining [] retained = retained
retained_unlinked linked remaining (a ∷ rest) retained =
    if remaining == 0
    then retained
    else retained_unlinked linked (if is_linked linked a then remaining else remaining - 1) rest
        (if is_linked linked a then retained else a.attempt_id ∷ retained)

unfoldable pub retain_attempt_ledger :
    List SendAttemptRecord → List AgentTask → List AgentMessage → ℕ → List SendAttemptRecord
unfolding retained_unlinked
retain_attempt_ledger attempts tasks messages max_unlinked =
    let linked = linked_ids tasks messages in
    let retained = retained_unlinked linked max_unlinked (reverse attempts) [] in
    filter (λ a. is_linked linked a || includes retained a.attempt_id) attempts

pub record IndexedAttempt : Type 0 where
  pub attempt : SendAttemptRecord
  pub ordinal : ℕ

pub record AttemptLedgerIndex : Type 0 where
  pub by_tab : List (ℕ × IndexedAttempt)
  pub by_conversation : List (Text × IndexedAttempt)

-- The body of `attempts.forEach`.
unfoldable pub index_attempts : ℕ → List SendAttemptRecord → AttemptLedgerIndex → AttemptLedgerIndex
index_attempts ordinal [] index = index
index_attempts ordinal (a ∷ rest) index =
    let indexed : IndexedAttempt = record { attempt = a; ordinal = ordinal } in
    index_attempts (ordinal + 1) rest (record {
      by_tab = put index.by_tab a.tab_id indexed;
      by_conversation = put index.by_conversation a.conversation_key indexed;
    })

unfoldable pub create_attempt_ledger_index : List SendAttemptRecord → AttemptLedgerIndex
unfolding index_attempts
create_attempt_ledger_index attempts =
    index_attempts 0 attempts (record { by_tab = []; by_conversation = [] })

-- `conversationAttempt && (!latest || conversationAttempt.ordinal > latest.ordinal)`.
unfoldable pub newer : Option IndexedAttempt → Option IndexedAttempt → Option IndexedAttempt
newer latest none = latest
newer none (some c) = some c
newer (some l) (some c) = if ltb l.ordinal c.ordinal then some c else some l

abbrev pub attempt_of : Option IndexedAttempt → Option SendAttemptRecord
attempt_of none = none
attempt_of (some i) = some i.attempt

unfoldable pub latest_for : AttemptLedgerIndex → ℕ → ChatSnapshot → Option SendAttemptRecord
unfolding newer
latest_for index tab_id snapshot =
    let latest = get index.by_tab tab_id in
    attempt_of (
      if present snapshot.conversation_id
      then newer latest (get index.by_conversation snapshot.conversation_key)
      else latest)
