-- ===== src/Generation.antt =====
-- src/stuckGenerationConvergence.ts: what to do about a page that seems to generate for ever. Every
-- decision of the source has `allowPromptResend: false`, which the type leaves out.
pub mod Facts
pub mod Decision
use charterion.Prelude.{
  ℕ, Text, Option, none, some, List, [], ◌∷◌, Bool, true, false, not, ◌||◌, ◌&&◌, if◌then◌else◌,
  same, same_option, any, ltb, leb, ◌==◌,
}

pub data ConvergenceOwnership : Type 0 where
  gam non_gam unknown : ConvergenceOwnership

pub data ConvergencePageActivity : Type 0 where
  generating idle unknown : ConvergencePageActivity

pub data ConvergenceObservationConfidence : Type 0 where
  direct inferred unknown : ConvergenceObservationConfidence

pub record GamPageFact : Type 0 where
  pub ownership : ConvergenceOwnership
  pub slot_id : Option Text
  pub task_id : Option Text
  pub activity : ConvergencePageActivity
  pub confidence : ConvergenceObservationConfidence
  pub observed_at : ℕ

pub record GamSlotFact : Type 0 where
  pub ownership : ConvergenceOwnership
  pub slot_id : Text
  pub task_id : Text
  pub resource_id : Text
  pub lease_epoch : ℕ

pub data ConvergenceAttemptState : Type 0 where
  prepared dispatched acknowledged reply_observed failed uncertain : ConvergenceAttemptState

pub record AttemptFact : Type 0 where
  pub attempt_id : Text
  pub task_id : Text
  pub state : ConvergenceAttemptState
  pub updated_at : ℕ

pub data EngineeringProgressKind : Type 0 where
  workspace_change tool_activity test_activity claim_activity : EngineeringProgressKind

pub record EngineeringProgressEvidence : Type 0 where
  pub kind : EngineeringProgressKind
  pub task_id : Text
  pub slot_id : Text
  pub observed_at : ℕ

pub record AuthorizedStopFact : Type 0 where
  pub task_id : Text
  pub slot_id : Text
  pub resource_id : Text
  pub lease_epoch : ℕ
  pub requested_at : ℕ
  pub authorized_at : ℕ

pub record StuckGenerationInput : Type 0 where
  pub now : ℕ
  pub stale_deadline_at : ℕ
  pub recent_progress_since : ℕ
  pub page : GamPageFact
  pub slot : GamSlotFact
  pub attempt : AttemptFact
  pub progress_evidence : List EngineeringProgressEvidence
  pub authorized_stop : Option AuthorizedStopFact

pub data ConvergenceHoldReason : Type 0 where
  identity_unknown_or_not_gam identity_mismatch page_observation_not_direct
        page_idle_without_cleanup_proof page_state_unknown attempt_not_safe_for_stop
        under_stale_deadline stale_observation_predates_deadline recent_engineering_progress
        authorized_stop_awaiting_direct_idle :
      ConvergenceHoldReason

pub record ConvergenceTarget : Type 0 where
  pub task_id : Text
  pub slot_id : Text
  pub resource_id : Text
  pub lease_epoch : ℕ
  pub attempt_id : Text

pub data StuckGenerationDecision : Type 0 where
  hold : ConvergenceHoldReason → StuckGenerationDecision
  request_authority_checked_stop : ConvergenceTarget → StuckGenerationDecision
  request_cleanup : ConvergenceTarget → StuckGenerationDecision

unfoldable pub target_of : StuckGenerationInput → ConvergenceTarget
target_of input = record {
  task_id = input.slot.task_id;
  slot_id = input.slot.slot_id;
  resource_id = input.slot.resource_id;
  lease_epoch = input.slot.lease_epoch;
  attempt_id = input.attempt.attempt_id;
}

abbrev is_gam : ConvergenceOwnership → Bool
is_gam ConvergenceOwnership.gam = true
is_gam _ = false

abbrev pub is_direct : ConvergenceObservationConfidence → Bool
is_direct ConvergenceObservationConfidence.direct = true
is_direct _ = false

abbrev pub is_generating : ConvergencePageActivity → Bool
is_generating ConvergencePageActivity.generating = true
is_generating _ = false

abbrev pub is_idle : ConvergencePageActivity → Bool
is_idle ConvergencePageActivity.idle = true
is_idle _ = false

abbrev pub is_acknowledged : ConvergenceAttemptState → Bool
is_acknowledged ConvergenceAttemptState.acknowledged = true
is_acknowledged _ = false

unfoldable pub exact_gam_identity : StuckGenerationInput → Bool
exact_gam_identity input = is_gam input.page.ownership && is_gam input.slot.ownership

unfoldable pub identity_matches : StuckGenerationInput → Bool
identity_matches input =
    same_option input.page.slot_id (some input.slot.slot_id)
    && same_option input.page.task_id (some input.slot.task_id)
    && same input.attempt.task_id input.slot.task_id

unfoldable pub stop_matches_current_authority : StuckGenerationInput → Bool
stop_matches_current_authority input = elim input.authorized_stop [
  | none ↦ false
  | some stop ↦
      same stop.task_id input.slot.task_id
      && same stop.slot_id input.slot.slot_id
      && same stop.resource_id input.slot.resource_id
      && stop.lease_epoch == input.slot.lease_epoch
]

unfoldable pub has_recent_progress : StuckGenerationInput → Bool
has_recent_progress input =
    any
      (λ evidence.
        same evidence.task_id input.slot.task_id
        && same evidence.slot_id input.slot.slot_id
        && leb input.recent_progress_since evidence.observed_at
        && leb evidence.observed_at input.now)
      input.progress_evidence

-- The decision on an idle page.
unfoldable pub converge_idle :
    StuckGenerationInput → Option AuthorizedStopFact → StuckGenerationDecision
converge_idle input none = hold page_idle_without_cleanup_proof
converge_idle input (some stop) =
    if not (stop_matches_current_authority input)
    then hold page_idle_without_cleanup_proof
    else if ltb stop.authorized_at stop.requested_at
        || leb input.page.observed_at stop.authorized_at
    then hold page_idle_without_cleanup_proof
    else request_cleanup (target_of input)

-- The decision on a page that generates.
unfoldable pub converge_generating :
    StuckGenerationInput → Option AuthorizedStopFact → StuckGenerationDecision
converge_generating input (some stop) =
    if not (stop_matches_current_authority input)
    then hold identity_mismatch
    else hold authorized_stop_awaiting_direct_idle
converge_generating input none =
    if not (is_acknowledged input.attempt.state)
    then hold attempt_not_safe_for_stop
    else if ltb input.now input.stale_deadline_at
    then hold under_stale_deadline
    else if ltb input.page.observed_at input.stale_deadline_at
    then hold stale_observation_predates_deadline
    else if has_recent_progress input
    then hold recent_engineering_progress
    else request_authority_checked_stop (target_of input)

unfoldable pub converge_activity :
    StuckGenerationInput → ConvergencePageActivity → StuckGenerationDecision
converge_activity input ConvergencePageActivity.unknown = hold page_state_unknown
converge_activity input ConvergencePageActivity.idle = converge_idle input input.authorized_stop
converge_activity input ConvergencePageActivity.generating =
    converge_generating input input.authorized_stop

unfoldable pub converge_stuck_generation : StuckGenerationInput → StuckGenerationDecision
converge_stuck_generation input =
    if not (exact_gam_identity input)
    then hold identity_unknown_or_not_gam
    else if not (identity_matches input)
    then hold identity_mismatch
    else if not (is_direct input.page.confidence)
    then hold page_observation_not_direct
    else converge_activity input input.page.activity
