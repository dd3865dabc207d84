-- ===== src/Samples/Pages.antt =====
-- Runs of the fence of page observations and of the governor of prompts.
use charterion.Prelude.{
  ◌↔◌, ℕ, same-ne, filter, trim, ◌≡◌, ◌≤◌, ◌<◌, refl, Text, codes, none, some, [], ◌∷◌, true, false,
  arith, length, text_eq, nat_eq, get, put, includes, same,
}
use charterion.Content.Fence.{RuntimeCursor, is_valid, advance_cursor, observe}
use charterion.Content.Fence.Fenced.{Report, accepts, run}
use charterion.Content.Fence.Left.{accepts-left}
use charterion.Dispatch.Governor.{
  default_prompt_dispatch_policy, PromptDispatchGovernorState, PromptDispatchScope, Governor,
  deferred, try_acquire, note_rate_limit, is_allowed, plan_prompt_dispatch, waits, normalize,
  rate_limit_backoff, limiting, keep_since, sort, normalize_key, reserve_dispatch,
}
use charterion.Dispatch.Governor.Plan.{plan_prompt-IsOver}
use charterion.Dispatch.Governor.Waits.{IsOpen}
use charterion.Dispatch.Governor.Run.{Operation, run-length, limit-refuses}
use charterion.Dispatch.Governor.Run
use charterion.Generation.{
  StuckGenerationInput, ConvergenceOwnership, ConvergencePageActivity,
  ConvergenceObservationConfidence, ConvergenceAttemptState, converge_stuck_generation,
  request_authority_checked_stop, target_of,
}
use charterion.Generation.Decision.{converge-stop}
use charterion.Generation.Facts.{IsKnown, IsStale}
use charterion.Samples.{observation}

abbrev report : Text → ℕ → Report
report epoch revision = record {
  tab_id = 1;
  observation = observation epoch revision;
  allow_equal = false;
}

abbrev first_cursor : RuntimeCursor
first_cursor = record { content_epoch = codes "a"; revision = 1; retired_epochs = [] }

-- The first page reports again, with a higher revision, after the second one took over.
accepts-left_example :
    accepts
      (run (run [] (report (codes "a") 1 ∷ [])) (report (codes "b") 1 ∷ []))
      (report (codes "a") 9)
    ≡ false
unfolding accepts observe is_valid advance_cursor run get put same includes
accepts-left_example =
    accepts-left (report (codes "a") 1 ∷ []) [] (report (codes "b") 1) (report (codes "a") 9)
      first_cursor refl (same-ne (codes "a") (codes "b") refl) refl refl refl

abbrev scope : PromptDispatchScope
scope = record {
  project = some (codes "p");
  slot_id = none;
  reservation_key = some (codes "k");
  active_generations = 0;
}

abbrev idle_state : PromptDispatchGovernorState
idle_state = record {
  recent_dispatches = [];
  project_last_dispatch = [];
  slot_last_dispatch = [];
  backoff_until = 0;
  rate_limit_strikes = 0;
  last_rate_limit_at = none;
}

abbrev sent_state : PromptDispatchGovernorState
sent_state = record idle_state { recent_dispatches = 100000 ∷ [] }

abbrev idle_governor : Governor
idle_governor = record {
  state = idle_state;
  generation_reservations = [];
  reservation_sequence = 0;
}

abbrev lower_case : Text → Text
lower_case t = t

-- A dispatch after nothing was sent.
plan_prompt-IsOver_example :
    (0 < 2) × IsOpen lower_case idle_state scope default_prompt_dispatch_policy 100 100
unfolding plan_prompt_dispatch normalize waits limiting sort keep_since normalize_key filter trim
    get same
plan_prompt-IsOver_example =
    plan_prompt-IsOver lower_case idle_state scope 100 default_prompt_dispatch_policy (omega arith)
      refl tt refl

-- Two prompts take the two reservations, and a third one gets none.
run-length_example :
    length
      (Run.run lower_case default_prompt_dispatch_policy idle_governor (
        Operation.acquire scope 0 0 0 true
        ∷ Operation.acquire scope 9000 9000 9000 true
        ∷ Operation.acquire scope 99000 99000 99000 true
        ∷ [])).generation_reservations
    ≤ 2
run-length_example =
    run-length lower_case default_prompt_dispatch_policy idle_governor
      (Operation.acquire scope 0 0 0 true
        ∷ Operation.acquire scope 9000 9000 9000 true
        ∷ Operation.acquire scope 99000 99000 99000 true
        ∷ [])
      (omega arith)

-- An attempt one minute after a rate limit is put off.
limit-refuses_example : is_allowed (deferred rate_limit_backoff (some 240000)) ≡ false
unfolding Run.run Run.step reserve_dispatch try_acquire note_rate_limit plan_prompt_dispatch
    normalize waits limiting sort keep_since normalize_key filter trim get same
limit-refuses_example =
    limit-refuses lower_case default_prompt_dispatch_policy idle_governor 1000 301000 [] scope 61000
      61000 61000 true (deferred rate_limit_backoff (some 240000)) refl (omega arith) refl

abbrev stuck : StuckGenerationInput
stuck = record {
  now = 50;
  stale_deadline_at = 40;
  recent_progress_since = 30;
  page = record {
    ownership = ConvergenceOwnership.gam;
    slot_id = some (codes "s");
    task_id = some (codes "t");
    activity = ConvergencePageActivity.generating;
    confidence = ConvergenceObservationConfidence.direct;
    observed_at = 45;
  };
  slot = record {
    ownership = ConvergenceOwnership.gam;
    slot_id = codes "s";
    task_id = codes "t";
    resource_id = codes "r";
    lease_epoch = 3;
  };
  attempt = record {
    attempt_id = codes "a";
    task_id = codes "t";
    state = ConvergenceAttemptState.acknowledged;
    updated_at = 1;
  };
  progress_evidence = [];
  authorized_stop = none;
}

converge-stop_example :
    (converge_stuck_generation stuck ≡ request_authority_checked_stop (target_of stuck))
    ↔ (IsKnown stuck × (stuck.page.activity ≡ ConvergencePageActivity.generating) × IsStale stuck)
converge-stop_example = converge-stop stuck

abbrev idle_page : StuckGenerationInput
idle_page = record stuck {
  page = record stuck.page { activity = ConvergencePageActivity.idle };
  authorized_stop = some (record {
    task_id = codes "t";
    slot_id = codes "s";
    resource_id = codes "r";
    lease_epoch = 3;
    requested_at = 41;
    authorized_at = 42;
  });
}
