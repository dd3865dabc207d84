-- ===== src/Control/Changes/Operations.antt =====
-- control/src/changeRequestAuthority.ts: opening, revising, reviewing and queueing a change request.
use charterion.Prelude.{
  ℕ, Text, codes, Option, none, some, List, [], ◌∷◌, Bool, false, not, ◌&&◌, ◌||◌, if◌then◌else◌,
  same, Result, ok, err,
}
use charterion.Control.Rows.{find_row}
use charterion.Control.Runs.{Git, done, ◌>>>=◌, guard, required, is_git_sha, branch_ok}
use charterion.Control.Changes.{
  ChangeRequest, SupervisorReview, MergeQueueEntry, ClaimRow, Store, ChangeError, Run, is_branch,
  same_status, is_approval, get_change_request, latest_review, run_git, open_request,
  changes_requested, approved, required_missing, claim_missing, claim_mismatch, claim_unverified,
  claim_commit, same_branch, invalid_sha, invalid_branch, not_at_tip, not_open, not_author,
  head_unchanged, own_review, stale_review, invalid_verdict, not_approved, no_approval, no_evidence,
}
use charterion.Control.Changes.Inserts.{
  OpenInput, ReviewInput, UpdateInput, commit_of, enqueue, insert_request, insert_review,
  insert_revision, is_other,
}

module _ (to_lower : Text → Text) where
  unfoldable pub same_sha : Text → Text → Bool
  same_sha left right = same (to_lower left) (to_lower right)

  abbrev commit_matches : Option Text → Text → Bool
  commit_matches none head_sha = false
  commit_matches (some sha) head_sha = same_sha sha head_sha

  unfoldable pub verified_claim :
      Store → (claim_id project_id task_id subject head_sha : Text) → Result ChangeError (Unit {0})
  verified_claim store claim_id project_id task_id subject head_sha =
      elim (find_row (λ c. c.id) store.claims claim_id) [
        | none ↦ err claim_missing
        | some row ↦
            if not (same row.project_id project_id)
              || not (same row.task_id task_id)
              || not (same row.subject subject)
            then err claim_mismatch
            else if not (same row.status (codes "verified"))
            then err claim_unverified
            else if not (commit_matches row.commit_sha head_sha)
            then err claim_commit
            else ok tt
      ]

  -- The latest review approves the current head.
  abbrev pub approves_head : Option SupervisorReview → Text → Bool
  approves_head none head_sha = false
  approves_head (some r) head_sha = is_approval r.verdict && same_sha r.head_sha head_sha

  abbrev claim_holds : Option ClaimRow → Bool
  claim_holds none = false
  claim_holds (some c) = same c.status (codes "verified")

  module _ (git : Git) where
    abbrev tip_of : Text → List Text
    tip_of branch = codes "rev-parse" ∷ codes "--verify" ∷ commit_of branch ∷ []

    unfoldable pub git_check : Store → (project_id base_sha head_sha branch : Text) → Run (Unit {0})
    git_check store project_id base_sha head_sha branch =
        guard (not (is_git_sha base_sha) || not (is_git_sha head_sha)) invalid_sha (
          guard (not (is_branch branch)) invalid_branch (
            run_git git store project_id (codes "cat-file" ∷ codes "-e" ∷ commit_of base_sha ∷ [])
            >>>= λ _.
                run_git git store project_id
                  (codes "cat-file" ∷ codes "-e" ∷ commit_of head_sha ∷ [])
                >>>= λ _.
                    run_git git store project_id
                      (codes "merge-base" ∷ codes "--is-ancestor" ∷ base_sha ∷ head_sha ∷ [])
                    >>>= λ _. run_git git store project_id (tip_of branch) >>>= λ tip.
                        guard (not (same_sha tip head_sha)) not_at_tip (done (ok tt))))

    -- `open` on the trimmed input.
    unfoldable pub open_trimmed :
        Store → OpenInput → (id revision_id : Text) → ℕ → Run (ChangeRequest × Store)
    open_trimmed store input id revision_id now =
        done (
          verified_claim store input.claim_id input.project_id input.task_id input.subject
            input.head_sha)
        >>>= λ _.
            git_check store input.project_id input.base_sha input.head_sha input.branch >>>= λ _.
            guard (not (branch_ok input.target_branch)) invalid_branch (
              run_git git store input.project_id (tip_of input.target_branch) >>>= λ tip.
              guard (not (same_sha tip input.base_sha)) not_at_tip
                (done (insert_request store input id revision_id now)))

    unfoldable pub open_change_request :
        Store → OpenInput → (id revision_id : Text) → ℕ → Run (ChangeRequest × Store)
    open_change_request store input id revision_id now =
        done (required required_missing input.project_id) >>>= λ project_id.
        done (required required_missing input.task_id) >>>= λ task_id.
        done (required required_missing input.subject) >>>= λ subject.
        done (required required_missing input.branch) >>>= λ branch.
        done (required required_missing input.target_branch) >>>= λ target_branch.
        guard (same branch target_branch) same_branch (
          done (required required_missing input.base_sha) >>>= λ base_sha.
          done (required required_missing input.head_sha) >>>= λ head_sha.
          open_trimmed store
            (record {
              project_id = project_id;
              task_id = task_id;
              subject = subject;
              branch = branch;
              target_branch = target_branch;
              base_sha = base_sha;
              head_sha = head_sha;
              claim_id = input.claim_id;
            })
            id revision_id now)

    unfoldable pub update :
        Store → UpdateInput → (revision_id : Text) → ℕ → Run (ChangeRequest × Store)
    update store input revision_id now =
        done (get_change_request store input.change_request_id) >>>= λ current.
        guard
          (not (same_status current.status open_request)
            && not (same_status current.status changes_requested))
          not_open
          (done (required required_missing input.subject) >>>= λ subject.
            guard (not (same subject current.author_subject)) not_author (
              done (required required_missing input.head_sha) >>>= λ head_sha.
              guard (same_sha head_sha current.head_sha) head_unchanged (
                done (
                  verified_claim store input.claim_id current.project_id current.task_id subject
                    head_sha)
                >>>= λ _.
                    git_check store current.project_id current.base_sha head_sha current.branch
                    >>>= λ _.
                        done
                          (insert_revision store current head_sha input.claim_id revision_id now))))

  unfoldable pub review : Store → ReviewInput → (id : Text) → ℕ → Run (SupervisorReview × Store)
  review store input id now =
      done (get_change_request store input.change_request_id) >>>= λ current.
      guard (not (same_status current.status open_request)) not_open (
        done (required required_missing input.reviewer_subject) >>>= λ reviewer.
        guard (same reviewer current.author_subject) own_review (
          guard (not (same_sha input.head_sha current.head_sha)) stale_review (
            guard (is_other input.verdict) invalid_verdict (
              done (required required_missing input.body) >>>= λ body.
              done (insert_review store current id reviewer input.verdict body now)))))

  unfoldable pub queue : Store → (change_request_id id : Text) → ℕ → Run (MergeQueueEntry × Store)
  queue store change_request_id id now =
      done (get_change_request store change_request_id) >>>= λ current.
      guard (not (same_status current.status approved)) not_approved (
        guard (not (approves_head (latest_review store.reviews current.id) current.head_sha))
          no_approval
          (guard (not (claim_holds (find_row (λ c. c.id) store.claims current.claim_id)))
            no_evidence (done (enqueue store current id now))))
