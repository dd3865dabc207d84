-- ===== src/Recovery/Decision.antt =====
-- src/recovery.ts: what a recovery decision may be.
use charterion.Prelude.{
  leb, subst, ℕ, ◌≤◌, ◌+◌, codes, same, same_iff, same_option_iff, starts_with, includes, text_eq,
  Bool-cases, inl, inr, ◌≡◌, refl, Option, none, some, true, false, arith, ◌⊎◌,
}
use charterion.Contracts.{
  SendAttemptRecord, SendAttemptState, PendingPromptEvidence, dispatched, acknowledged, failed,
  uncertain,
}
use charterion.Attempts.{can_advance_attempt}
use charterion.Recovery.{
  AttemptRecoveryObservation, recover_attempt, same_conversation, pending_matches, delivered,
  pending_fresh, send_stale_ms,
}

-- The page is in the tab and of the content epoch of the delivery, and shows its conversation, or one
-- that the delivery's new chat is known to have become.
pub record IsRecognised (r : SendAttemptRecord) (o : AttemptRecoveryObservation) : Type 0 where
  pub same_tab : r.tab_id ≡ o.tab_id
  pub same_epoch : r.content_epoch ≡ o.state.observation.content_epoch
  pub same_conversation_or_new :
      (r.conversation_key ≡ o.state.snapshot.conversation_key)
      ⊎ ((r.conversation_key ≡ codes "url:https://chatgpt.com/")
          × (starts_with (codes "conversation:") o.state.snapshot.conversation_key ≡ true)
          × (o.authoritative_conversation_key ≡ some o.state.snapshot.conversation_key))

-- The page holds the prompt as its pending one.
pub record IsPending (r : SendAttemptRecord) (o : AttemptRecoveryObservation) : Type 0 where
  pub prompt : PendingPromptEvidence
  pub held : o.state.pending_attempt ≡ some prompt
  pub same_attempt : prompt.attempt_id ≡ r.attempt_id

-- The page lists the prompt as delivered.
abbrev pub IsDelivered : SendAttemptRecord → AttemptRecoveryObservation → Type 0
IsDelivered r o = includes o.state.delivered_attempt_ids r.attempt_id ≡ true

recognise :
    (r : SendAttemptRecord) (o : AttemptRecoveryObservation)
    → same_conversation r o ≡ true
    → IsRecognised r o
unfolding same_conversation
recognise r o h =
    let epochs = same_iff r.content_epoch o.state.observation.content_epoch in
    let keys = same_iff r.conversation_key o.state.snapshot.conversation_key in
    let new_chat = same_iff r.conversation_key (codes "url:https://chatgpt.com/") in
    let authoritative =
      same_option_iff o.authoritative_conversation_key (some o.state.snapshot.conversation_key) in
    record {
      same_tab = ground arith;
      same_epoch = epochs.0 (ground arith);
      same_conversation_or_new =
          elim (Bool-cases (same r.conversation_key o.state.snapshot.conversation_key)) [
            | inl is_same ↦ inl (keys.0 is_same)
            | inr other ↦
                inr (new_chat.0 (ground arith), ground arith, authoritative.0 (ground arith))
          ];
    }

pending :
    (r : SendAttemptRecord) (o : AttemptRecoveryObservation)
    → pending_matches r o ≡ true
    → IsPending r o
unfolding pending_matches
pending r o h = go o.state.pending_attempt refl h
  where
    go :
        (p : Option PendingPromptEvidence)
        → o.state.pending_attempt ≡ p
        → (elim p [ none ↦ false | some q ↦ same q.attempt_id r.attempt_id ]) ≡ true
        → IsPending r o
    go none e k = cc
    go (some q) e k = record {
      prompt = q;
      held = e;
      same_attempt = (same_iff q.attempt_id r.attempt_id).0 k;
    }

delivered_there :
    (r : SendAttemptRecord) (o : AttemptRecoveryObservation)
    → delivered r o ≡ true
    → IsDelivered r o
unfolding delivered
delivered_there r o h = h

not_delivered :
    (r : SendAttemptRecord) (o : AttemptRecoveryObservation)
    → delivered r o ≡ false
    → ¬ IsDelivered r o
unfolding delivered
not_delivered r o h k = ground arith

fresh_prompt :
    (r : SendAttemptRecord) (o : AttemptRecoveryObservation) (now : ℕ) (q : IsPending r o)
    → pending_fresh o now ≡ true
    → now ≤ q.prompt.started_at + 120000
unfolding pending_fresh
fresh_prompt r o now q h =
    let within : leb now (q.prompt.started_at + 120000) ≡ true =
      subst
        (λ p. (elim p [ none ↦ false | some e ↦ leb now (e.started_at + send_stale_ms) ]) ≡ true)
        q.held h in
    ground arith

-- The ways in which an attempt under way is left as it is.
kept_as :
    (r : SendAttemptRecord) (o : AttemptRecoveryObservation) (now : ℕ)
    → (r.state ≡ dispatched) ⊎ (r.state ≡ acknowledged)
    → (recover_attempt r (some o) now).next_state ≡ none
    → (same_conversation r o ≡ true)
      × (pending_matches r o ≡ true)
      × (((r.state ≡ acknowledged) × (delivered r o ≡ true))
          ⊎ ((r.state ≡ dispatched) × (delivered r o ≡ false) × (pending_fresh o now ≡ true)))
unfolding recover_attempt
kept_as r o now (inl s) h = ground arith
kept_as r o now (inr s) h = ground arith

-- Every move that recovery asks for is one that the state machine of attempts allows, and goes to
-- failed, uncertain or acknowledged: none goes to a state from which the prompt would be sent.
pub recover-allowed :
    (r : SendAttemptRecord) (o : Option AttemptRecoveryObservation) (now : ℕ)
    (next : SendAttemptState)
    → (recover_attempt r o now).next_state ≡ some next
    → (can_advance_attempt r.state next ≡ true)
      × ((next ≡ failed) ⊎ (next ≡ uncertain) ⊎ (next ≡ acknowledged))
unfolding recover_attempt can_advance_attempt
recover-allowed r o now next h = ground arith

-- Recovery promotes an attempt to acknowledged only when it was dispatched and the page in its tab, of
-- its epoch and conversation, both holds the prompt as pending and lists it as delivered.
pub recover-acknowledged :
    (r : SendAttemptRecord) (o : Option AttemptRecoveryObservation) (now : ℕ)
    → (recover_attempt r o now).next_state ≡ some acknowledged
    → (r.state ≡ dispatched)
      × ((p : AttemptRecoveryObservation) × (o ≡ some p)
          × IsRecognised r p
          × IsPending r p
          × IsDelivered r p)
unfolding recover_attempt
recover-acknowledged r none now h = ground arith
recover-acknowledged r (some p) now h = (
  ground arith,
  (
    p,
    refl,
    recognise r p (ground arith),
    pending r p (ground arith),
    delivered_there r p (ground arith),
  ),
)

-- A dispatched or acknowledged attempt is left as it is only when the page in its tab, of its epoch and
-- conversation, holds the prompt as pending, and either the attempt was acknowledged and the page lists
-- it as delivered, or the page does not yet and the prompt was started at most two minutes ago.
pub recover-kept :
    (r : SendAttemptRecord) (o : Option AttemptRecoveryObservation) (now : ℕ)
    → (r.state ≡ dispatched) ⊎ (r.state ≡ acknowledged)
    → (recover_attempt r o now).next_state ≡ none
    → (p : AttemptRecoveryObservation) × (o ≡ some p)
      × IsRecognised r p
      × ((q : IsPending r p) × (((r.state ≡ acknowledged) × IsDelivered r p)
            ⊎ ((r.state ≡ dispatched) × ¬ IsDelivered r p × (now ≤ q.prompt.started_at + 120000))))
unfolding recover_attempt
recover-kept r none now s h = absurd (ground arith)
recover-kept r (some p) now s h =
    let (same_page, held, how) = kept_as r p now s h in
    let q = pending r p held in
    (
      p,
      refl,
      recognise r p same_page,
      (
        q,
        elim how [
          | inl (a, d) ↦ inl (a, delivered_there r p d)
          | inr (d, u, f) ↦ inr (d, not_delivered r p u, fresh_prompt r p now q f)
        ],
      ),
    )
