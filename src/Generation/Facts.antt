-- ===== src/Generation/Facts.antt =====
-- src/stuckGenerationConvergence.ts: the facts that the decisions rest on.
use charterion.Prelude.{
  ◌≡◌, ◌↔◌, ◌≤◌, ◌<◌, refl, sym, ap, subst, ◌∙◌, List, [], ◌∷◌, All, any, same, same_iff,
  same_option_iff, some-eq, none-ne-some, Bool-cases, inl, inr, Option, none, some, Bool, true,
  false, not, ◌&&◌, arith, ltb, leb, is_some,
}
use charterion.Generation.{
  StuckGenerationInput, AuthorizedStopFact, ConvergencePageActivity, ConvergenceOwnership,
  ConvergenceObservationConfidence, ConvergenceAttemptState, EngineeringProgressEvidence,
  request_authority_checked_stop, request_cleanup, target_of, is_direct, is_generating, is_idle,
  is_acknowledged, exact_gam_identity, identity_matches, stop_matches_current_authority,
  has_recent_progress, converge_idle, converge_generating, converge_activity,
}

-- The page is known for certain to show the slot's own generation.
abbrev is_known : StuckGenerationInput → Bool
is_known input =
    exact_gam_identity input && identity_matches input && is_direct input.page.confidence

-- The page has been seen idle after a stop that was authorised for this lease.
abbrev pub stopped : StuckGenerationInput → Option AuthorizedStopFact → Bool
stopped input none = false
stopped input (some stop) =
    stop_matches_current_authority input
    && leb stop.requested_at stop.authorized_at
    && ltb stop.authorized_at input.page.observed_at

-- The attempt is acknowledged, has outlived its deadline by the clock and on the page, and made no progress.
abbrev pub is_stale : StuckGenerationInput → Bool
is_stale input =
    not (is_some input.authorized_stop)
    && is_acknowledged input.attempt.state
    && leb input.stale_deadline_at input.now
    && leb input.stale_deadline_at input.page.observed_at
    && not (has_recent_progress input)

idle_iff :
    (input : StuckGenerationInput) (o : Option AuthorizedStopFact)
    → (converge_idle input o ≡ request_cleanup (target_of input)) ↔ (stopped input o ≡ true)
unfolding converge_idle
idle_iff input none = ground arith
idle_iff input (some stop) = ground arith

pub activity_cleanup :
    (input : StuckGenerationInput) (a : ConvergencePageActivity)
    → (converge_activity input a ≡ request_cleanup (target_of input))
      ↔ ((is_idle a && stopped input input.authorized_stop) ≡ true)
unfolding converge_activity converge_generating
activity_cleanup input ConvergencePageActivity.unknown = ground arith
activity_cleanup input ConvergencePageActivity.idle = idle_iff input input.authorized_stop
activity_cleanup input ConvergencePageActivity.generating = go input.authorized_stop
  where
    go :
        (o : Option AuthorizedStopFact)
        → (converge_generating input o ≡ request_cleanup (target_of input)) ↔ (false ≡ true)
    go none = ground arith
    go (some stop) = ground arith

pub activity_stop :
    (input : StuckGenerationInput) (a : ConvergencePageActivity)
    → (converge_activity input a ≡ request_authority_checked_stop (target_of input))
      ↔ ((is_generating a && is_stale input) ≡ true)
unfolding converge_activity converge_idle converge_generating
activity_stop input ConvergencePageActivity.unknown = ground arith
activity_stop input ConvergencePageActivity.idle = go input.authorized_stop
  where
    go :
        (o : Option AuthorizedStopFact)
        → (converge_idle input o ≡ request_authority_checked_stop (target_of input))
          ↔ (false ≡ true)
    go none = ground arith
    go (some stop) = ground arith
activity_stop input ConvergencePageActivity.generating = ground arith

-- The page is seen directly to show the slot's own task, which the attempt is of.
pub record IsKnown (input : StuckGenerationInput) : Type 0 where
  pub page_of_gam : input.page.ownership ≡ ConvergenceOwnership.gam
  pub slot_of_gam : input.slot.ownership ≡ ConvergenceOwnership.gam
  pub same_slot : input.page.slot_id ≡ some input.slot.slot_id
  pub same_task : input.page.task_id ≡ some input.slot.task_id
  pub attempt_of_task : input.attempt.task_id ≡ input.slot.task_id
  pub seen : input.page.confidence ≡ ConvergenceObservationConfidence.direct

pub IsKnown-iff : (input : StuckGenerationInput) → (is_known input ≡ true) ↔ IsKnown input
unfolding exact_gam_identity identity_matches
IsKnown-iff input =
    let slots = same_option_iff input.page.slot_id (some input.slot.slot_id) in
    let tasks = same_option_iff input.page.task_id (some input.slot.task_id) in
    let attempts = same_iff input.attempt.task_id input.slot.task_id in
    (
      λ h. record {
        page_of_gam = ground arith;
        slot_of_gam = ground arith;
        same_slot = slots.0 (ground arith);
        same_task = tasks.0 (ground arith);
        attempt_of_task = attempts.0 (ground arith);
        seen = ground arith;
      },
      λ k.
          let same_slot = slots.1 k.same_slot in
          let same_task = tasks.1 k.same_task in
          let same_attempt = attempts.1 k.attempt_of_task in
          let page_of_gam = k.page_of_gam in
          let slot_of_gam = k.slot_of_gam in let seen = k.seen in ground arith,
    )

-- A stop of this very lease that was authorised, and no earlier than requested, before the observation.
pub record IsStopped (input : StuckGenerationInput) : Type 0 where
  pub stop : AuthorizedStopFact
  pub given : input.authorized_stop ≡ some stop
  pub same_task : stop.task_id ≡ input.slot.task_id
  pub same_slot : stop.slot_id ≡ input.slot.slot_id
  pub same_resource : stop.resource_id ≡ input.slot.resource_id
  pub same_epoch : stop.lease_epoch ≡ input.slot.lease_epoch
  pub in_order : stop.requested_at ≤ stop.authorized_at
  pub seen_after : stop.authorized_at < input.page.observed_at

pub IsStopped-iff :
    (input : StuckGenerationInput) (o : Option AuthorizedStopFact)
    → input.authorized_stop ≡ o
    → (stopped input o ≡ true) ↔ IsStopped input
unfolding stop_matches_current_authority
IsStopped-iff input none e = (λ h. ground arith, λ k. absurd (none-ne-some (sym e ∙ k.given)))
IsStopped-iff input (some stop) e =
    let tasks = same_iff stop.task_id input.slot.task_id in
    let slots = same_iff stop.slot_id input.slot.slot_id in
    let resources = same_iff stop.resource_id input.slot.resource_id in
    (
      λ h. record {
        stop = stop;
        given = e;
        same_task = tasks.0 (ground arith);
        same_slot = slots.0 (ground arith);
        same_resource = resources.0 (ground arith);
        same_epoch = ground arith;
        in_order = ground arith;
        seen_after = ground arith;
      },
      λ k. go k (some-eq (sym e ∙ k.given)),
    )
  where
    go : (k : IsStopped input) → stop ≡ k.stop → stopped input (some stop) ≡ true
    go k same_stop =
        let tasks =
          (same_iff stop.task_id input.slot.task_id).1
            (ap (λ s. s.task_id) same_stop ∙ k.same_task) in
        let slots =
          (same_iff stop.slot_id input.slot.slot_id).1
            (ap (λ s. s.slot_id) same_stop ∙ k.same_slot) in
        let resources =
          (same_iff stop.resource_id input.slot.resource_id).1
            (ap (λ s. s.resource_id) same_stop ∙ k.same_resource) in
        let epochs : stop.lease_epoch ≡ input.slot.lease_epoch =
          ap (λ s. s.lease_epoch) same_stop ∙ k.same_epoch in
        let ordered = subst (λ s. s.requested_at ≤ s.authorized_at) (sym same_stop) k.in_order in
        let after =
          subst (λ s. s.authorized_at < input.page.observed_at) (sym same_stop) k.seen_after in
        ground arith

-- The evidence shows progress of the slot's own task in the slot, recently.
pub record IsProgress (input : StuckGenerationInput) (e : EngineeringProgressEvidence)
    : Type 0 where
  pub same_task : e.task_id ≡ input.slot.task_id
  pub same_slot : e.slot_id ≡ input.slot.slot_id
  pub recent : input.recent_progress_since ≤ e.observed_at
  pub past : e.observed_at ≤ input.now

abbrev pub shows : StuckGenerationInput → EngineeringProgressEvidence → Bool
shows input e =
    same e.task_id input.slot.task_id
    && same e.slot_id input.slot.slot_id
    && leb input.recent_progress_since e.observed_at
    && leb e.observed_at input.now

shows_iff :
    (input : StuckGenerationInput) (e : EngineeringProgressEvidence)
    → (shows input e ≡ false) ↔ ¬ IsProgress input e
shows_iff input e =
    let tasks = same_iff e.task_id input.slot.task_id in
    let slots = same_iff e.slot_id input.slot.slot_id in
    (
      λ h k.
          let same_task = tasks.1 k.same_task in
          let same_slot = slots.1 k.same_slot in
          let recent = k.recent in let past = k.past in ground arith,
      λ not_progress. elim (Bool-cases (shows input e)) [
        | inr unseen ↦ unseen
        | inl seen ↦ absurd (
            not_progress (record {
              same_task = tasks.0 (ground arith);
              same_slot = slots.0 (ground arith);
              recent = ground arith;
              past = ground arith;
            }))
      ],
    )

IsProgress-iff :
    (input : StuckGenerationInput) (es : List EngineeringProgressEvidence)
    → (any (shows input) es ≡ false) ↔ All (λ e. ¬ IsProgress input e) es
unfolding any
IsProgress-iff input [] = (λ h. tt, λ h. refl)
IsProgress-iff input (e ∷ es) =
    let one = shows_iff input e in
    let rest = IsProgress-iff input es in
    (
      λ h. (one.0 (ground arith), rest.0 (ground arith)),
      λ k. let here = one.1 k.0 in let there = rest.1 k.1 in ground arith,
    )

-- The attempt is acknowledged and has outlived its deadline, by the clock and on the page; no stop is
-- authorised and no evidence shows recent progress.
pub record IsStale (input : StuckGenerationInput) : Type 0 where
  pub no_stop : input.authorized_stop ≡ none
  pub acknowledged : input.attempt.state ≡ ConvergenceAttemptState.acknowledged
  pub over_now : input.stale_deadline_at ≤ input.now
  pub over_seen : input.stale_deadline_at ≤ input.page.observed_at
  pub no_progress : All (λ e. ¬ IsProgress input e) input.progress_evidence

pub IsStale-iff : (input : StuckGenerationInput) → (is_stale input ≡ true) ↔ IsStale input
unfolding has_recent_progress
IsStale-iff input =
    let progress = IsProgress-iff input input.progress_evidence in
    (
      λ h. record {
        no_stop = ground arith;
        acknowledged = ground arith;
        over_now = ground arith;
        over_seen = ground arith;
        no_progress = progress.0 (ground arith);
      },
      λ k.
          let none_shows = progress.1 k.no_progress in
          let no_stop = k.no_stop in
          let state = k.acknowledged in
          let over_now = k.over_now in let over_seen = k.over_seen in ground arith,
    )
