-- ===== src/Control/Promotion/Operations.antt =====
-- control/src/promotionAuthority.ts: the operations of the authority.
use charterion.Control.Runs.{Git, choose, done, guard, is_git_sha, required, ◌>>>=◌}
use charterion.Prelude.{
  ℕ, Text, codes, Option, none, some, List, [], ◌∷◌, ◌++◌, Bool, false, not, ◌&&◌, ◌||◌,
  if◌then◌else◌, same, same_option, present, truthy, any, find, Result, ok, err,
}
use charterion.Control.Rows.{find_row, has_row}
use charterion.Control.Promotion.{
  required_missing, SelfHostingPromotion, RequestInput, PromotionDecision, ClaimRow, Store,
  PromotionError, Run, get_promotion, run_git, mark_promoted, commit_decision, is_target_ref,
  commit_of, same_status, pending, approved, rejected, promoted, requested, add_event, repeats,
  is_approve, is_other, claim_missing, claim_foreign, claim_unverified, claim_mismatch,
  evidence_missing, replay_mismatch, constraint_failed, invalid_sha, invalid_ref, parent_mismatch,
  drifted, not_converged, own_promotion, replay_authority, rejected_preserved, not_approved,
  foreign_authority, invalid_decision, already_decided,
}

module _ (to_lower : Text → Text) where
  unfoldable pub same_sha : Text → Text → Bool
  same_sha left right = same (to_lower left) (to_lower right)

  abbrev commit_matches : Option Text → Text → Bool
  commit_matches none candidate_sha = false
  commit_matches (some sha) candidate_sha = same_sha sha candidate_sha

  -- The claim is verified for exactly this commit.
  unfoldable pub verified_exact_claim :
      Store → (claim_id project_id candidate_sha : Text) → Result PromotionError ClaimRow
  verified_exact_claim store claim_id project_id candidate_sha =
      elim (find_row (λ c. c.id) store.claims claim_id) [
        | none ↦ err claim_missing
        | some claim ↦
            if not (same claim.project_id project_id)
            then err claim_foreign
            else if not (same claim.status (codes "verified"))
            then err claim_unverified
            else if not (commit_matches claim.commit_sha candidate_sha)
            then err claim_mismatch
            else if any
                (λ v. same v.claim_id claim_id && same v.status (codes "passed") && truthy v.id)
                store.verifications
            then ok claim
            else err evidence_missing
      ]

  -- `replayMatches`.
  unfoldable pub replay_matches : SelfHostingPromotion → RequestInput → Bool
  replay_matches current input =
      same current.claim_id input.claim_id
      && same_sha current.candidate_sha input.candidate_sha
      && same current.target_ref input.target_ref
      && same_sha current.expected_parent_sha input.expected_parent_sha
      && same current.requested_by input.requested_by

  unfoldable pub find_replay :
      List SelfHostingPromotion → RequestInput → Option SelfHostingPromotion
  find_replay rows input =
      find (λ p. same p.project_id input.project_id && same p.idempotency_key input.idempotency_key)
        rows

  -- The promotion that is inserted.
  abbrev pub new_promotion : RequestInput → (id candidate_subject : Text) → ℕ → SelfHostingPromotion
  new_promotion input id candidate_subject now = record {
    id = id;
    project_id = input.project_id;
    idempotency_key = input.idempotency_key;
    claim_id = input.claim_id;
    candidate_subject = candidate_subject;
    candidate_sha = input.candidate_sha;
    target_ref = input.target_ref;
    expected_parent_sha = input.expected_parent_sha;
    requested_by = input.requested_by;
    status = pending;
    decision_by = none;
    decision_reason = none;
    decision_at = none;
    promoted_at = none;
    created_at = now;
    updated_at = now;
  }

  abbrev pub insert_unless :
      Store
      → RequestInput
      → (id candidate_subject : Text) → ℕ
      → Option SelfHostingPromotion
      → Result PromotionError (SelfHostingPromotion × Store)
  insert_unless store input id candidate_subject now (some current) =
      if not (replay_matches current input)
        || not (same current.candidate_subject candidate_subject)
      then err replay_mismatch
      else ok (current, store)
  insert_unless store input id candidate_subject now none =
      let p = new_promotion input id candidate_subject now in
      if has_row (λ q. q.id) store.promotions id
      then err constraint_failed
      else ok (p, add_event store (store.promotions ++ (p ∷ [])) input.project_id requested id now)

  -- The transaction of `request`.
  unfoldable pub insert_promotion :
      Store
      → RequestInput
      → (id candidate_subject : Text) → ℕ
      → Result PromotionError (SelfHostingPromotion × Store)
  insert_promotion store input id candidate_subject now =
      insert_unless store input id candidate_subject now (find_replay store.promotions input)

  module _ (git : Git) where
    unfoldable pub validate_git_state :
        Store → (project_id candidate_sha expected_parent_sha target_ref : Text) → Run (Unit {0})
    validate_git_state store project_id candidate_sha expected_parent_sha target_ref =
        guard (not (is_git_sha candidate_sha) || not (is_git_sha expected_parent_sha)) invalid_sha (
          guard (not (is_target_ref target_ref)) invalid_ref (
            run_git git store project_id
              (codes "cat-file" ∷ codes "-e" ∷ commit_of candidate_sha ∷ [])
            >>>= λ _.
                run_git git store project_id
                  (codes "cat-file" ∷ codes "-e" ∷ commit_of expected_parent_sha ∷ [])
                >>>= λ _.
                    run_git git store project_id
                      (codes "rev-parse" ∷ codes "--verify" ∷ commit_of target_ref ∷ [])
                    >>>= λ current.
                        guard (not (same_sha current expected_parent_sha)) parent_mismatch (
                          run_git git store project_id (
                            codes "merge-base"
                            ∷ codes "--is-ancestor"
                            ∷ expected_parent_sha
                            ∷ candidate_sha
                            ∷ [])
                          >>>= λ _. done (ok tt))))

    abbrev pub request_unless :
        Store
        → RequestInput
        → (id : Text) → ℕ
        → Option SelfHostingPromotion
        → Run (SelfHostingPromotion × Store)
    request_unless store input id now (some current) =
        done
          (if not (replay_matches current input) then err replay_mismatch else ok (current, store))
    request_unless store input id now none =
        done (verified_exact_claim store input.claim_id input.project_id input.candidate_sha)
        >>>= λ claim.
            validate_git_state store input.project_id input.candidate_sha input.expected_parent_sha
              input.target_ref
            >>>= λ _. done (insert_promotion store input id claim.subject now)

    -- `request` on the trimmed input.
    unfoldable pub request_trimmed :
        Store → RequestInput → (id : Text) → ℕ → Run (SelfHostingPromotion × Store)
    request_trimmed store input id now =
        request_unless store input id now (find_replay store.promotions input)

    unfoldable pub request :
        Store → RequestInput → (id : Text) → ℕ → Run (SelfHostingPromotion × Store)
    request store input id now =
        done (required required_missing input.project_id) >>>= λ project_id.
        done (required required_missing input.idempotency_key) >>>= λ idempotency_key.
        done (required required_missing input.claim_id) >>>= λ claim_id.
        done (required required_missing input.candidate_sha) >>>= λ candidate_sha.
        done (required required_missing input.expected_parent_sha) >>>= λ expected_parent_sha.
        done (required required_missing input.target_ref) >>>= λ target_ref.
        done (required required_missing input.requested_by) >>>= λ requested_by.
        request_trimmed store
          (record {
            project_id = project_id;
            idempotency_key = idempotency_key;
            claim_id = claim_id;
            candidate_sha = candidate_sha;
            target_ref = target_ref;
            expected_parent_sha = expected_parent_sha;
            requested_by = requested_by;
          })
          id now

    abbrev pub update_ref : SelfHostingPromotion → List Text
    update_ref p = codes "update-ref" ∷ p.target_ref ∷ p.candidate_sha ∷ p.expected_parent_sha ∷ []

    -- The part of `apply` after the claim was verified.
    unfoldable pub apply_with_git :
        Store → SelfHostingPromotion → ℕ → Run (SelfHostingPromotion × Store)
    apply_with_git store current now =
        let git_of = run_git git store current.project_id in
        let rev_parse =
          git_of (codes "rev-parse" ∷ codes "--verify" ∷ commit_of current.target_ref ∷ []) in
        let finish = done (mark_promoted store current.id now) in
        git_of (codes "cat-file" ∷ codes "-e" ∷ commit_of current.candidate_sha ∷ []) >>>= λ _.
        rev_parse >>>= λ observed. choose (same_sha observed current.candidate_sha) finish (
          guard (not (same_sha observed current.expected_parent_sha)) drifted (
            git_of (
              codes "merge-base"
              ∷ codes "--is-ancestor"
              ∷ current.expected_parent_sha
              ∷ current.candidate_sha
              ∷ [])
            >>>= λ _. git_of (update_ref current) >>>= λ _. rev_parse >>>= λ after.
                guard (not (same_sha after current.candidate_sha)) not_converged finish))

    -- `apply` on a row that was found.
    unfoldable pub apply_row :
        Store → SelfHostingPromotion → (authority : Text) → ℕ → Run (SelfHostingPromotion × Store)
    apply_row store current authority now =
        guard (same authority current.candidate_subject) own_promotion (
          choose (same_status current.status promoted)
            (guard (not (same_option current.decision_by (some authority))) replay_authority
              (done (ok (current, store))))
            (guard (same_status current.status rejected) rejected_preserved (
              guard (not (same_status current.status approved) || not (present current.decision_by))
                not_approved
                (guard (not (same_option current.decision_by (some authority))) foreign_authority (
                  done (
                    verified_exact_claim store current.claim_id current.project_id
                      current.candidate_sha)
                  >>>= λ _. apply_with_git store current now)))))

    unfoldable pub apply :
        Store → (promotion_id authority_subject : Text) → ℕ → Run (SelfHostingPromotion × Store)
    apply store promotion_id authority_subject now =
        done (required required_missing promotion_id) >>>= λ id.
        done (get_promotion store.promotions id) >>>= λ current.
        done (required required_missing authority_subject) >>>= λ authority.
        apply_row store current authority now

  -- `decide` on a row that was found.
  unfoldable pub decide_row :
      Store
      → SelfHostingPromotion
      → PromotionDecision
      → (authority reason : Text) → ℕ
      → Run (SelfHostingPromotion × Store)
  decide_row store current decision authority reason now =
      guard (same authority current.candidate_subject) own_promotion (
        guard (is_other decision) invalid_decision (
          choose (not (same_status current.status pending))
            (guard (not (repeats current decision authority reason)) already_decided
              (done (ok (current, store))))
            (choose (is_approve decision)
              (done (
                  verified_exact_claim store current.claim_id current.project_id
                    current.candidate_sha)
                >>>= λ _. done (commit_decision store current decision authority reason now))
              (done (commit_decision store current decision authority reason now)))))

  unfoldable pub decide :
      Store
      → (promotion_id authority_subject : Text) → PromotionDecision
      → (reason : Text) → ℕ
      → Run (SelfHostingPromotion × Store)
  decide store promotion_id authority_subject decision reason now =
      done (required required_missing promotion_id) >>>= λ id.
      done (get_promotion store.promotions id) >>>= λ current.
      done (required required_missing authority_subject) >>>= λ authority.
      done (required required_missing reason) >>>= λ trimmed_reason.
      decide_row store current decision authority trimmed_reason now
