-- ===== src/Control/Changes.antt =====
-- control/src/changeRequestAuthority.ts: change requests, their reviews and the merge queue. As for the
-- promotions, git is a parameter and the log of the commands is kept; `randomUUID` gives the arguments
-- for ids; the texts of errors are left out, those that the queue stores included, which stand as
-- `error` being there or not. Texts compared by `toLowerCase` on both sides use the parameter.
pub mod Reviews
pub mod Inserts
pub mod Candidate
pub mod Kept
pub mod Operations
pub mod Reachable
pub mod Sound
pub mod Transactions
use charterion.Prelude.{
  ℕ, zero, suc, ◌+◌, Text, codes, Option, none, some, List, [], ◌∷◌, ◌++◌, Bool, true, false, not,
  ◌&&◌, ◌||◌, if◌then◌else◌, ltb, ◌==◌, same, trim, truthy, starts_with, any, filter, reverse,
  Result, ok, err,
}
use charterion.Roles.{contains}
use charterion.Protocol.Keys.{text_le}
use charterion.Control.Rows.{find_row, update_rows}
use charterion.Control.Runs.{Command, Git, RunOf, or_throw, branch_ok, run_in, try_in}

pub data ChangeRequestStatus : Type 0 where
  open_request changes_requested approved queued integrated closed : ChangeRequestStatus

pub data SupervisorReviewVerdict : Type 0 where
  approve request_changes other : SupervisorReviewVerdict

pub data MergeQueueStatus : Type 0 where
  queued validating integrated failed cancelled : MergeQueueStatus

pub record ChangeRequest : Type 0 where
  pub id : Text
  pub project_id : Text
  pub task_id : Text
  pub author_subject : Text
  pub branch : Text
  pub target_branch : Text
  pub base_sha : Text
  pub head_sha : Text
  pub claim_id : Text
  pub revision : ℕ
  pub status : ChangeRequestStatus
  pub created_at : ℕ
  pub updated_at : ℕ

pub record ChangeRequestRevision : Type 0 where
  pub id : Text
  pub change_request_id : Text
  pub revision : ℕ
  pub claim_id : Text
  pub head_sha : Text
  pub submitted_at : ℕ

pub record SupervisorReview : Type 0 where
  pub id : Text
  pub project_id : Text
  pub change_request_id : Text
  pub reviewer_subject : Text
  pub head_sha : Text
  pub verdict : SupervisorReviewVerdict
  pub body : Text
  pub created_at : ℕ

pub record MergeQueueEntry : Type 0 where
  pub id : Text
  pub project_id : Text
  pub change_request_id : Text
  pub head_sha : Text
  pub target_branch : Text
  pub status : MergeQueueStatus
  pub queued_at : ℕ
  pub updated_at : ℕ
  pub candidate_base_sha : Option Text
  pub candidate_sha : Option Text
  pub has_error : Bool
  pub integrated_sha : Option Text

pub record ClaimRow : Type 0 where
  pub id : Text
  pub project_id : Text
  pub task_id : Text
  pub subject : Text
  pub status : Text
  pub commit_sha : Option Text

pub record ProjectRow : Type 0 where
  pub id : Text
  pub root_path : Text

-- The events are left out.
pub record Store : Type 0 where
  pub projects : List ProjectRow
  pub claims : List ClaimRow
  pub change_requests : List ChangeRequest
  pub revisions : List ChangeRequestRevision
  pub reviews : List SupervisorReview
  pub merge_queue : List MergeQueueEntry

pub data ChangeError : Type 0 where
  required_missing project_missing claim_missing claim_mismatch claim_unverified claim_commit
        request_missing same_branch invalid_sha invalid_branch git_failed not_at_tip duplicate
        constraint_failed not_open not_author head_unchanged own_review stale_review invalid_verdict
        not_approved no_approval no_evidence entry_missing not_queued stale_entry no_candidate
        not_integrated :
      ChangeError

abbrev pub Run : Type 0 → Type 0
Run A = RunOf ChangeError A

-- The test of a source branch.
unfoldable pub is_branch : Text → Bool
is_branch t =
    branch_ok t
    && not (contains t (codes ".."))
    && not (starts_with (codes "/") (reverse t))
    && not (contains t (codes "@{"))

abbrev pub same_status : ChangeRequestStatus → ChangeRequestStatus → Bool
same_status open_request open_request = true
same_status changes_requested changes_requested = true
same_status approved approved = true
same_status queued queued = true
same_status integrated integrated = true
same_status closed closed = true
same_status _ _ = false

abbrev pub same_queue_status : MergeQueueStatus → MergeQueueStatus → Bool
same_queue_status queued queued = true
same_queue_status validating validating = true
same_queue_status integrated integrated = true
same_queue_status failed failed = true
same_queue_status cancelled cancelled = true
same_queue_status _ _ = false

abbrev pub is_approval : SupervisorReviewVerdict → Bool
is_approval approve = true
is_approval _ = false

unfoldable pub project_root : Store → Text → Result ChangeError Text
project_root store project_id = elim (find_row (λ p. p.id) store.projects project_id) [
  | none ↦ err project_missing
  | some row ↦ if truthy row.root_path then ok row.root_path else err project_missing
]

unfoldable pub get_change_request : Store → Text → Result ChangeError ChangeRequest
get_change_request store id =
    or_throw request_missing (find_row (λ c. c.id) store.change_requests id)

unfoldable pub get_entry : Store → Text → Result ChangeError MergeQueueEntry
get_entry store id = or_throw entry_missing (find_row (λ e. e.id) store.merge_queue id)

-- `ORDER BY created_at DESC,id DESC LIMIT 1`.
abbrev pub later_review : SupervisorReview → Option SupervisorReview → SupervisorReview
later_review r none = r
later_review r (some s) =
    if ltb s.created_at r.created_at || (s.created_at == r.created_at && text_le s.id r.id)
    then r
    else s

unfoldable pub latest_review : List SupervisorReview → Text → Option SupervisorReview
latest_review [] id = none
latest_review (r ∷ reviews) id =
    let rest = latest_review reviews id in
    if same r.change_request_id id then some (later_review r rest) else rest

-- A command of git under the root of a project.
unfoldable pub run_git : Git → Store → Text → List Text → Run Text
run_git git store project_id args log =
    run_in git_failed git args log (project_root store project_id)

-- The same, with a test of its status; the output is not trimmed.
unfoldable pub try_git : Git → Store → Text → List Text → Run (Option Text)
try_git git store project_id args log = try_in git args log (project_root store project_id)
