-- ===== src/Samples/Authorities.antt =====
-- Runs of the authorities of the control plane.
use charterion.Control.Rows.History.{GoesOn}
use charterion.Control.Runs.{Git, choose, guard, is_git_sha, ◌>>>=◌}
use charterion.Control.Rows.{unique_rows}
use charterion.Prelude.{◌≡◌, refl, Text, codes, some, [], ◌∷◌, true, same, any, if◌then◌else◌, map}
use charterion.Control.Promotion.{Store, RequestInput, PromotionDecision, same_status, promoted}
use charterion.Control.Promotion.Operations.{request, decide, apply}
use charterion.Control.Promotion.{
  get_promotion, after_prefix, commit_decision, mark_promoted, project_root, run_git, set_decision,
  set_promoted, is_target_ref,
}
use charterion.Control.Promotion.Operations.{
  request_trimmed, find_replay, verified_exact_claim, same_sha, validate_git_state, apply_row,
  apply_with_git, decide_row, insert_promotion, replay_matches,
}
use charterion.Prelude.{trim, find, all, starts_with, same_option}
use charterion.Protocol.Block.{index_of}
use charterion.Control.Rows.{find_row, update_rows, has_row}
use charterion.Control.Promotion.Rows.{is_update}
use charterion.Control.Promotion.Evolution.{promotion_history}
use charterion.Control.Promotion.Reachable.{
  Authority, Step, Reach, IsAccounted, perform, Reach-IsAccounted,
}

abbrev unchanged : Text → Text
unchanged t = t

abbrev parent : Text
parent = codes "aaaaaaaaaaaaaaaaaaaaaaaaaaaaaaaaaaaaaaaa"

abbrev candidate : Text
candidate = codes "bbbbbbbbbbbbbbbbbbbbbbbbbbbbbbbbbbbbbbbb"

abbrev tables : Store
tables = record {
  projects = record { id = codes "p"; root_path = codes "/p"; status = codes "active" } ∷ [];
  claims =
      record {
        id = codes "c";
        project_id = codes "p";
        subject = codes "worker";
        status = codes "verified";
        commit_sha = some candidate;
      }
      ∷ [];
  verifications = record { id = codes "v"; claim_id = codes "c"; status = codes "passed" } ∷ [];
  promotions = [];
  events = [];
}

-- The parent ref is at its commit until it is moved.
abbrev git : Git
git log command = if any (λ c. is_update c.1) log then some candidate else some parent

abbrev promotion_input : RequestInput
promotion_input = record {
  project_id = codes "p";
  idempotency_key = codes "k";
  claim_id = codes "c";
  candidate_sha = candidate;
  target_ref = codes "refs/heads/main";
  expected_parent_sha = parent;
  requested_by = codes "worker";
}

abbrev empty_authority : Authority
empty_authority = record { store = tables; commands = [] }

abbrev after_request : Authority
after_request = perform empty_authority (λ s. request unchanged git s promotion_input (codes "x") 1)

abbrev after_decision : Authority
after_decision =
    perform after_request (λ s.
      decide unchanged s (codes "x") (codes "boss") PromotionDecision.approve (codes "good") 2)

abbrev after_apply : Authority
after_apply = perform after_decision (λ s. apply unchanged git s (codes "x") (codes "boss") 3)

-- The run gets as far as it can.
promoted_after_apply :
    map (λ p. same_status p.status promoted) after_apply.store.promotions ≡ (true ∷ [])
unfolding apply ◌>>>=◌ trim get_promotion find_row decide request request_trimmed find_replay find
    verified_exact_claim same same_sha any validate_git_state guard is_git_sha apply_row
    apply_with_git decide_row insert_promotion replay_matches after_prefix choose commit_decision
    mark_promoted project_root run_git set_decision set_promoted update_rows has_row is_target_ref
    all starts_with index_of same_option
promoted_after_apply = refl

Reach-IsAccounted_example :
    IsAccounted unchanged after_apply × GoesOn promotion_history [] after_apply.store.promotions
unfolding unique_rows
Reach-IsAccounted_example =
    Reach-IsAccounted unchanged
      (Reach.then_step
        (Reach.then_step
          (Reach.then_step Reach.start (Step.requests git promotion_input (codes "x") 1))
          (Step.decides (codes "x") (codes "boss") PromotionDecision.approve (codes "good") 2))
        (Step.applies git (codes "x") (codes "boss") 3))
      ((refl, tt), tt)
