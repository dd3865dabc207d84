-- ===== src/Generation/Decision.antt =====
-- src/stuckGenerationConvergence.ts: exactly when a stop or a cleanup is asked for.
use charterion.Prelude.{◌≡◌, ◌↔◌, arith}
use charterion.Generation.{
  StuckGenerationInput, ConvergencePageActivity, request_authority_checked_stop, target_of,
  converge_stuck_generation,
}
use charterion.Generation.Facts.{IsKnown, IsKnown-iff, IsStale, IsStale-iff, activity_stop}

-- A stop is asked for exactly when the page is seen directly, belongs with the slot to the manager and
-- shows the slot's own task, which the attempt is of; it generates; no stop was authorised; the attempt
-- is acknowledged and the deadline has passed by the clock and by the observation; and no evidence shows
-- progress of that task in that slot since the given time and up to now.
pub converge-stop :
    (input : StuckGenerationInput)
    → (converge_stuck_generation input ≡ request_authority_checked_stop (target_of input))
      ↔ (IsKnown input × (input.page.activity ≡ ConvergencePageActivity.generating) × IsStale input)
unfolding converge_stuck_generation
converge-stop input =
    let go = activity_stop input input.page.activity in
    let known = IsKnown-iff input in
    let stale = IsStale-iff input in
    (
      λ h. (known.0 (ground arith), ground arith, stale.0 (ground arith)),
      λ k.
          let is_so = known.1 k.0 in
          let generates = k.1 in let is_stale = stale.1 k.2 in ground arith,
    )
