-- ===== src/Attempts.antt =====
-- src/attempts.ts: the state machine of a send attempt.
pub mod Order
use charterion.Prelude.{
  ℕ, Text, Option, none, some, Bool, true, false, ◌||◌, if◌then◌else◌, present,
}
use charterion.Contracts.{
  SendAttemptState, SendAttemptRecord, prepared, dispatched, acknowledged, reply_observed, failed,
  uncertain, same_state,
}

-- `ALLOWED[current].has(next)`.
unfoldable pub allowed : SendAttemptState → SendAttemptState → Bool
allowed prepared dispatched = true
allowed prepared failed = true
allowed dispatched acknowledged = true
allowed dispatched reply_observed = true
allowed dispatched failed = true
allowed dispatched uncertain = true
allowed acknowledged reply_observed = true
allowed acknowledged failed = true
allowed acknowledged uncertain = true
allowed uncertain reply_observed = true
allowed _ _ = false

unfoldable pub can_advance_attempt : SendAttemptState → SendAttemptState → Bool
unfolding allowed
can_advance_attempt current next = same_state current next || allowed current next

-- `if (error) updated.error = error; else delete updated.error`.
abbrev pub stored_error : Option Text → Option Text
stored_error e = if present e then e else none

unfoldable pub advance_attempt :
    SendAttemptRecord → SendAttemptState → ℕ → Option Text → SendAttemptRecord
unfolding can_advance_attempt
advance_attempt r next now error =
    if can_advance_attempt r.state next
    then record r { state = next; updated_at = now; error = stored_error error }
    else r
