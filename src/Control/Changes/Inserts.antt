-- ===== src/Control/Changes/Inserts.antt =====
-- control/src/changeRequestAuthority.ts: the transactions that insert rows.
use charterion.Prelude.{
  ℕ, ◌+◌, Text, codes, Option, none, some, [], ◌∷◌, ◌++◌, Bool, true, false, not, ◌&&◌, ◌||◌,
  if◌then◌else◌, same, any, find, ◌==◌, Result, ok, err,
}
use charterion.Control.Rows.{find_row, update_rows, has_row}
use charterion.Control.Runs.{refuse}
use charterion.Control.Changes.{
  ChangeRequest, ChangeRequestStatus, SupervisorReview, SupervisorReviewVerdict, MergeQueueEntry,
  MergeQueueStatus, Store, ChangeError, same_status, is_approval, open_request, changes_requested,
  approved, other, duplicate, constraint_failed,
}

pub record OpenInput : Type 0 where
  pub project_id : Text
  pub task_id : Text
  pub subject : Text
  pub branch : Text
  pub target_branch : Text
  pub base_sha : Text
  pub head_sha : Text
  pub claim_id : Text

pub record UpdateInput : Type 0 where
  pub change_request_id : Text
  pub subject : Text
  pub head_sha : Text
  pub claim_id : Text

pub record ReviewInput : Type 0 where
  pub change_request_id : Text
  pub reviewer_subject : Text
  pub head_sha : Text
  pub verdict : SupervisorReviewVerdict
  pub body : Text

abbrev pub commit_of : Text → Text
commit_of sha = sha ++ codes "^{commit}"

abbrev is_active : ChangeRequestStatus → Bool
is_active status =
    not (same_status status ChangeRequestStatus.integrated)
    && not (same_status status ChangeRequestStatus.closed)

abbrev pub is_waiting : MergeQueueStatus → Bool
is_waiting MergeQueueStatus.queued = true
is_waiting MergeQueueStatus.validating = true
is_waiting _ = false

abbrev pub new_request : OpenInput → Text → ℕ → ChangeRequest
new_request input id now = record {
  id = id;
  project_id = input.project_id;
  task_id = input.task_id;
  author_subject = input.subject;
  branch = input.branch;
  target_branch = input.target_branch;
  base_sha = input.base_sha;
  head_sha = input.head_sha;
  claim_id = input.claim_id;
  revision = 1;
  status = open_request;
  created_at = now;
  updated_at = now;
}

abbrev pub set_status : ChangeRequestStatus → ℕ → ChangeRequest → ChangeRequest
set_status status now c = record c { status = status; updated_at = now }

abbrev pub set_head : Text → Text → ℕ → ℕ → ChangeRequest → ChangeRequest
set_head head_sha claim_id revision now c = record c {
  head_sha = head_sha;
  claim_id = claim_id;
  revision = revision;
  status = open_request;
  updated_at = now;
}

abbrev pub reviewed_status : SupervisorReviewVerdict → ChangeRequestStatus
reviewed_status verdict = if is_approval verdict then approved else changes_requested

abbrev pub is_other : SupervisorReviewVerdict → Bool
is_other other = true
is_other _ = false

abbrev pub add_revision :
    Store → (id change_request_id : Text) → (revision : ℕ) → (claim_id head_sha : Text) → ℕ → Store
add_revision store id change_request_id revision claim_id head_sha now = record store {
  revisions =
      store.revisions
      ++ (record {
        id = id;
        change_request_id = change_request_id;
        revision = revision;
        claim_id = claim_id;
        head_sha = head_sha;
        submitted_at = now;
      }
          ∷ []);
}

abbrev pub update_request : Store → (ChangeRequest → ChangeRequest) → Text → Store
update_request store f id = record store {
  change_requests = update_rows (λ c. c.id) f store.change_requests id;
}

-- The transaction of `open`, with the ids of the rows that it inserts.
unfoldable pub insert_request :
    Store → OpenInput → (id revision_id : Text) → ℕ → Result ChangeError (ChangeRequest × Store)
insert_request store input id revision_id now =
    let c = new_request input id now in
    refuse
      (any
        (λ d.
          same d.project_id input.project_id && same d.task_id input.task_id && is_active d.status)
        store.change_requests)
      duplicate
      (refuse
        (has_row (λ d. d.id) store.change_requests id
          || has_row (λ r. r.id) store.revisions revision_id)
        constraint_failed
        (ok (
          c,
          add_revision (record store { change_requests = store.change_requests ++ (c ∷ []) })
              revision_id id 1 input.claim_id input.head_sha now,
        )))

-- The row after an update.
abbrev pub reread : Store → Text → Option ChangeRequest → Result ChangeError (ChangeRequest × Store)
reread store id none = err ChangeError.request_missing
reread store id (some c) = ok (c, store)

-- The transaction of `update`.
unfoldable pub insert_revision :
    Store
    → ChangeRequest
    → (head_sha claim_id revision_id : Text) → ℕ
    → Result ChangeError (ChangeRequest × Store)
insert_revision store current head_sha claim_id revision_id now =
    let revision = current.revision + 1 in
    let revised = update_request store (set_head head_sha claim_id revision now) current.id in
    refuse
      (has_row (λ r. r.id) store.revisions revision_id
        || any (λ r. same r.change_request_id current.id && r.revision == revision) store.revisions)
      constraint_failed
      (reread (add_revision revised revision_id current.id revision claim_id head_sha now)
        current.id (find_row (λ c. c.id) revised.change_requests current.id))

-- The transaction of `review`.
unfoldable pub insert_review :
    Store
    → ChangeRequest
    → (id reviewer : Text) → SupervisorReviewVerdict
    → (body : Text) → ℕ
    → Result ChangeError (SupervisorReview × Store)
insert_review store current id reviewer verdict body now =
    let r : SupervisorReview = record {
      id = id;
      project_id = current.project_id;
      change_request_id = current.id;
      reviewer_subject = reviewer;
      head_sha = current.head_sha;
      verdict = verdict;
      body = body;
      created_at = now;
    } in
    refuse (has_row (λ s. s.id) store.reviews id) constraint_failed (
      ok (
        r,
        update_request (record store { reviews = store.reviews ++ (r ∷ []) })
            (set_status (reviewed_status verdict) now) current.id,
      ))

abbrev pub new_entry : ChangeRequest → Text → ℕ → MergeQueueEntry
new_entry current id now = record {
  id = id;
  project_id = current.project_id;
  change_request_id = current.id;
  head_sha = current.head_sha;
  target_branch = current.target_branch;
  status = MergeQueueStatus.queued;
  queued_at = now;
  updated_at = now;
  candidate_base_sha = none;
  candidate_sha = none;
  has_error = false;
  integrated_sha = none;
}

abbrev pub enqueue_unless :
    Store
    → ChangeRequest
    → Text
    → ℕ
    → Option MergeQueueEntry
    → Result ChangeError (MergeQueueEntry × Store)
enqueue_unless store current id now (some existing) = ok (existing, store)
enqueue_unless store current id now none =
    let e = new_entry current id now in
    refuse (has_row (λ d. d.id) store.merge_queue id) constraint_failed (
      ok (
        e,
        update_request (record store { merge_queue = store.merge_queue ++ (e ∷ []) })
            (set_status ChangeRequestStatus.queued now) current.id,
      ))

-- The transaction of `queue`.
unfoldable pub enqueue :
    Store → ChangeRequest → Text → ℕ → Result ChangeError (MergeQueueEntry × Store)
enqueue store current id now =
    enqueue_unless store current id now
      (find (λ e. same e.change_request_id current.id && is_waiting e.status) store.merge_queue)
