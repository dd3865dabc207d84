-- ===== src/Attempts/Order.antt =====
-- src/attempts.ts: what holds of every history of one send attempt.
use charterion.Prelude.{
  ℕ, ◌≤◌, ◌<◌, ◌≡◌, refl, Text, Option, List, [], ◌∷◌, Bool, true, false, arith, ◌∙◌,
}
use charterion.Contracts.{
  SendAttemptState, SendAttemptRecord, prepared, dispatched, acknowledged, reply_observed, failed,
  uncertain,
}
use charterion.Attempts.{allowed, advance_attempt}

-- How far a delivery has come. An uncertain one may still be resolved by an observed reply.
abbrev pub rank : SendAttemptState → ℕ
rank prepared = 0
rank dispatched = 1
rank acknowledged = 2
rank uncertain = 3
rank reply_observed = 4
rank failed = 4

abbrev pub is_final : SendAttemptState → Bool
is_final reply_observed = true
is_final failed = true
is_final _ = false

abbrev pub Update : Type 0
Update = SendAttemptState × ℕ × Option Text

-- The record after a sequence of requested updates, each of which may be refused.
unfoldable pub advance_all : SendAttemptRecord → List Update → SendAttemptRecord
advance_all r [] = r
advance_all r ((next, now, error) ∷ us) = advance_all (advance_attempt r next now error) us

-- What no update may touch.
pub record SameDelivery (r s : SendAttemptRecord) : Type 0 where
  pub attempt_id : s.attempt_id ≡ r.attempt_id
  pub message_id : s.message_id ≡ r.message_id
  pub batch_id : s.batch_id ≡ r.batch_id
  pub retry_of : s.retry_of_attempt_id ≡ r.retry_of_attempt_id
  pub created_at : s.created_at ≡ r.created_at
  pub baseline_id : s.baseline_assistant_message_id ≡ r.baseline_assistant_message_id
  pub tab_id : s.tab_id ≡ r.tab_id
  pub conversation_key : s.conversation_key ≡ r.conversation_key
  pub content_epoch : s.content_epoch ≡ r.content_epoch
  pub task_id : s.task_id ≡ r.task_id
  pub text_length : s.text_length ≡ r.text_length
  pub baseline : s.baseline_assistant_message_count ≡ r.baseline_assistant_message_count

pub rank-allowed : (s t : SendAttemptState) → allowed s t ≡ true → rank s < rank t
unfolding allowed
rank-allowed s t h = ground arith

pub rank-advance :
    (r : SendAttemptRecord) (next : SendAttemptState) (now : ℕ) (error : Option Text)
    → rank r.state ≤ rank (advance_attempt r next now error).state
unfolding advance_attempt
rank-advance r next now error = ground (arith, rank-allowed r.state next)

pub advance-SameDelivery :
    (r : SendAttemptRecord) (next : SendAttemptState) (now : ℕ) (error : Option Text)
    → SameDelivery r (advance_attempt r next now error)
unfolding advance_attempt
advance-SameDelivery r next now error = ground arith

pub advance-final :
    (r : SendAttemptRecord) (next : SendAttemptState) (now : ℕ) (error : Option Text)
    → is_final r.state ≡ true
    → (advance_attempt r next now error).state ≡ r.state
unfolding advance_attempt
advance-final r next now error h = ground arith

SameDelivery-trans :
    {r s t : SendAttemptRecord} → SameDelivery r s → SameDelivery s t → SameDelivery r t
SameDelivery-trans a b = ground arith

-- Whatever updates are requested, in whatever order, the record stays the one of the same delivery
-- (ids, tab, conversation, epoch, length and reply baseline), and its state never falls back: it
-- does not return to a state of lower rank, so a dispatched prompt never becomes a prepared one.
pub advance_all-order :
    (r : SendAttemptRecord) (us : List Update)
    → SameDelivery r (advance_all r us) × (rank r.state ≤ rank (advance_all r us).state)
unfolding advance_all
advance_all-order r [] = ground arith
advance_all-order r ((next, now, error) ∷ us) =
    let r' = advance_attempt r next now error in
    let (same, up) = advance_all-order r' us in
    (
      SameDelivery-trans (advance-SameDelivery r next now error) same,
      omega (arith, rank-advance r next now error, up),
    )

-- A record that is failed or has its reply observed keeps that state through any updates.
pub advance_all-final :
    (r : SendAttemptRecord) (us : List Update)
    → is_final r.state ≡ true
    → (advance_all r us).state ≡ r.state
unfolding advance_all
advance_all-final r [] h = refl
advance_all-final r ((next, now, error) ∷ us) h =
    let e = advance-final r next now error h in
    advance_all-final (advance_attempt r next now error) us (rw e h) ∙ e
