-- ===== src/Recovery.antt =====
-- src/recovery.ts and src/restartRecoveryPolicy.ts: what becomes of the unfinished sends when the
-- extension restarts. Times are natural numbers; `now - startedAt <= limit`, which the source
-- computes with signed numbers, is `now <= startedAt + limit`.
pub mod Decision
pub mod Search
pub mod Restart
use charterion.Prelude.{
  ℕ, suc, ◌+◌, ◌*◌, Text, codes, Option, none, some, List, [], ◌∷◌, ◌++◌, Bool, true, false, not,
  ◌||◌, ◌&&◌, if◌then◌else◌, same, same_option, starts_with, includes, filter, find, leb, ◌==◌, get,
  put, map, nat_eq, text_eq, is_some,
}
use charterion.Contracts.{
  SendAttemptRecord, SendAttemptState, prepared, dispatched, acknowledged, reply_observed, failed,
  uncertain, same_state, ContentRecoveryState, PendingPromptEvidence, AgentTask, AgentMessage,
}
use charterion.Attempts.{advance_attempt}
use charterion.Ledger.{retain_attempt_ledger, max_unlinked_send_attempts}

pub record AttemptRecoveryObservation : Type 0 where
  pub tab_id : ℕ
  pub state : ContentRecoveryState
  pub authoritative_conversation_key : Option Text

pub record AttemptRecoveryDecision : Type 0 where
  pub attempt_id : Text
  pub next_state : Option SendAttemptState
  pub error : Option Text

abbrev pub send_stale_ms : ℕ
send_stale_ms = 2 * 60 * 1000

-- The four explanations.
unfoldable pub not_sent : Text
not_sent = codes "Service worker restarted before browser dispatch; prompt was not sent"

unfoldable pub not_reconstructed : Text
not_reconstructed = codes "Cannot safely reconstruct this browser delivery after extension restart"

unfoldable pub evidence_incomplete : Text
evidence_incomplete =
    codes "Dispatch started but durable page delivery evidence is incomplete after restart"

unfoldable pub baseline_unavailable : Text
baseline_unavailable =
    codes
      "Prompt delivery was acknowledged but reply-correlation baseline is unavailable after restart"

-- A conversation that had no address yet when the prompt was sent may have got one since.
unfoldable pub same_conversation : SendAttemptRecord → AttemptRecoveryObservation → Bool
same_conversation r o =
    let observed_key = o.state.snapshot.conversation_key in
    r.tab_id == o.tab_id
    && same r.content_epoch o.state.observation.content_epoch
    && (same r.conversation_key observed_key
        || (same r.conversation_key (codes "url:https://chatgpt.com/")
            && starts_with (codes "conversation:") observed_key
            && same_option o.authoritative_conversation_key (some observed_key)))

abbrev pub keep : SendAttemptRecord → AttemptRecoveryDecision
keep r = record { attempt_id = r.attempt_id; next_state = none; error = none }

abbrev pub move_to : SendAttemptRecord → SendAttemptState → Option Text → AttemptRecoveryDecision
move_to r next error = record { attempt_id = r.attempt_id; next_state = some next; error = error }

-- `pending?.attemptId === record.attemptId`.
unfoldable pub pending_matches : SendAttemptRecord → AttemptRecoveryObservation → Bool
pending_matches r o = elim o.state.pending_attempt [
  | none ↦ false
  | some p ↦ same p.attempt_id r.attempt_id
]

unfoldable pub delivered : SendAttemptRecord → AttemptRecoveryObservation → Bool
delivered r o = includes o.state.delivered_attempt_ids r.attempt_id

-- `now - pending.startedAt <= SEND_STALE_MS`.
unfoldable pub pending_fresh : AttemptRecoveryObservation → ℕ → Bool
pending_fresh o now = elim o.state.pending_attempt [
  | none ↦ false
  | some p ↦ leb now (p.started_at + send_stale_ms)
]

-- The branches for a dispatched and for an acknowledged attempt whose page was recognised.
unfoldable pub recover_dispatched :
    SendAttemptRecord → AttemptRecoveryObservation → ℕ → AttemptRecoveryDecision
recover_dispatched r o now =
    if pending_matches r o && delivered r o
    then move_to r acknowledged none
    else if pending_matches r o && not (delivered r o) && pending_fresh o now
    then keep r
    else move_to r uncertain (some evidence_incomplete)

unfoldable pub recover_acknowledged :
    SendAttemptRecord → AttemptRecoveryObservation → AttemptRecoveryDecision
recover_acknowledged r o =
    if pending_matches r o && delivered r o
    then keep r
    else move_to r uncertain (some baseline_unavailable)

-- The observation counts only if it is of the same conversation.
abbrev recognised :
    SendAttemptRecord → Option AttemptRecoveryObservation → Option AttemptRecoveryObservation
recognised r none = none
recognised r (some o) = if same_conversation r o then some o else none

unfoldable pub recover_started :
    SendAttemptState
    → SendAttemptRecord
    → Option AttemptRecoveryObservation
    → ℕ
    → AttemptRecoveryDecision
recover_started state r none now = move_to r uncertain (some not_reconstructed)
recover_started dispatched r (some o) now = recover_dispatched r o now
recover_started acknowledged r (some o) now = recover_acknowledged r o
recover_started _ r (some o) now = keep r

unfoldable pub recover_state :
    SendAttemptState
    → SendAttemptRecord
    → Option AttemptRecoveryObservation
    → ℕ
    → AttemptRecoveryDecision
unfolding recover_started recover_dispatched recover_acknowledged
recover_state reply_observed r o now = keep r
recover_state failed r o now = keep r
recover_state uncertain r o now = keep r
recover_state prepared r o now = move_to r failed (some not_sent)
recover_state state r o now = recover_started state r (recognised r o) now

unfoldable pub recover_attempt :
    SendAttemptRecord → Option AttemptRecoveryObservation → ℕ → AttemptRecoveryDecision
unfolding recover_state
recover_attempt r o now = recover_state r.state r o now

pub record RestartRecoveryState : Type 0 where
  pub attempts : List SendAttemptRecord
  pub tasks : List AgentTask
  pub messages : List AgentMessage

abbrev pub is_active : SendAttemptState → Bool
is_active prepared = true
is_active dispatched = true
is_active acknowledged = true
is_active _ = false

unfoldable pub restart_recovery_candidates : List SendAttemptRecord → List SendAttemptRecord
restart_recovery_candidates = filter (λ a. is_active a.state)

-- `new Map(observations.map((o) => [o.tabId, o]))`: of one tab the last observation counts.
unfoldable pub index_observations :
    List AttemptRecoveryObservation
    → List (ℕ × AttemptRecoveryObservation)
    → List (ℕ × AttemptRecoveryObservation)
index_observations [] m = m
index_observations (o ∷ os) m = index_observations os (put m o.tab_id o)

abbrev with_id : Text → SendAttemptRecord → Bool
with_id id a = same a.attempt_id id

-- The ledger with one record replaced, which moves to the end, and trimmed.
unfoldable pub replace_attempt :
    RestartRecoveryState → List SendAttemptRecord → SendAttemptRecord → List SendAttemptRecord
replace_attempt current attempts next =
    retain_attempt_ledger (filter (λ a. not (with_id next.attempt_id a)) attempts ++ next ∷ [])
      current.tasks current.messages max_unlinked_send_attempts

-- What the loop's body does with the latest version of a candidate: the new record, if there is one.
unfoldable pub recovered :
    SendAttemptRecord
    → Option SendAttemptRecord
    → List (ℕ × AttemptRecoveryObservation)
    → ℕ × ℕ
    → Option SendAttemptRecord
unfolding recover_attempt advance_attempt
recovered candidate none by_tab (now, later) = none
recovered candidate (some latest) by_tab (now, later) =
    if same_state latest.state candidate.state
    then (let decision = recover_attempt latest (get by_tab latest.tab_id) now in
        elim decision.next_state [
          | none ↦ none
          | some state ↦
              let next = advance_attempt latest state later decision.error in
              if same_state next.state latest.state && same_option next.error latest.error
              then none
              else some next
        ])
    else none

-- The loop. The clock is read twice for a candidate: `clock i` has both readings for the i-th.
unfoldable pub recover_all :
    RestartRecoveryState
    → List (ℕ × AttemptRecoveryObservation)
    → (ℕ → ℕ × ℕ)
    → ℕ
    → List SendAttemptRecord
    → List SendAttemptRecord
    → Bool
    → List SendAttemptRecord × Bool
recover_all current by_tab clock i [] attempts changed = (attempts, changed)
recover_all current by_tab clock i (c ∷ cs) attempts changed =
    let next = recovered c (find (with_id c.attempt_id) attempts) by_tab (clock i) in
    recover_all current by_tab clock (i + 1) cs
      (elim next [ none ↦ attempts | some r ↦ replace_attempt current attempts r ])
      (changed || is_some next)

unfoldable pub apply_restart_recovery :
    RestartRecoveryState
    → List SendAttemptRecord
    → List AttemptRecoveryObservation
    → (ℕ → ℕ × ℕ)
    → Option (List SendAttemptRecord)
unfolding recover_all index_observations
apply_restart_recovery current candidates observations clock =
    let (attempts, changed) =
      recover_all current (index_observations observations []) clock 0 candidates current.attempts
        false in
    if changed then some attempts else none
