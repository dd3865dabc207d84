-- ===== src/Samples/Reviews.antt =====
-- A run of the change requests.
use charterion.Prelude.{
  ◌≡◌, refl, Text, codes, some, List, [], ◌∷◌, true, same, any, all, find, if◌then◌else◌, map, trim,
  starts_with,
}
use charterion.Protocol.Block.{index_of}
use charterion.Control.Rows.{find_row, update_rows, has_row, unique_rows}
use charterion.Control.Runs.{Git, guard, choose, refuse, ◌>>>=◌, is_git_sha}
use charterion.Control.Changes.{
  Store, SupervisorReviewVerdict, MergeQueueStatus, same_queue_status, get_change_request,
  get_entry, latest_review, project_root, run_git, try_git, is_branch,
}
use charterion.Control.Changes.Operations.{
  open_change_request, open_trimmed, review, queue, verified_claim, git_check, same_sha,
}
use charterion.Control.Changes.Inserts.{
  OpenInput, ReviewInput, insert_request, insert_review, enqueue,
}
use charterion.Control.Changes.Candidate.{
  prepare_merge_candidate, prepare_entry, check_candidate, record_candidate, observe_integration,
  record_integration,
}
use charterion.Control.Changes.Reachable.{
  Authority, Step, Reach, IsGuarded, perform, Reach-IsGuarded,
}

abbrev unchanged : Text → Text
unchanged t = t

abbrev base : Text
base = codes "aaaaaaaaaaaaaaaaaaaaaaaaaaaaaaaaaaaaaaaa"

abbrev head : Text
head = codes "bbbbbbbbbbbbbbbbbbbbbbbbbbbbbbbbbbbbbbbb"

abbrev first_tables : Store
first_tables = record {
  projects = record { id = codes "p"; root_path = codes "/p" } ∷ [];
  claims =
      record {
        id = codes "c";
        project_id = codes "p";
        task_id = codes "t";
        subject = codes "worker";
        status = codes "verified";
        commit_sha = some head;
      }
      ∷ [];
  change_requests = [];
  revisions = [];
  reviews = [];
  merge_queue = [];
}

-- The branch `main` is at the base, and the other one at the head.
abbrev answer_to : List Text → Text
answer_to (command ∷ flag ∷ name ∷ rest) = if same name (codes "main^{commit}") then base else head
answer_to args = head

abbrev git : Git
git log command = some (answer_to command.1)

abbrev open_input : OpenInput
open_input = record {
  project_id = codes "p";
  task_id = codes "t";
  subject = codes "worker";
  branch = codes "work";
  target_branch = codes "main";
  base_sha = base;
  head_sha = head;
  claim_id = codes "c";
}

abbrev review_input : ReviewInput
review_input = record {
  change_request_id = codes "x";
  reviewer_subject = codes "boss";
  head_sha = head;
  verdict = SupervisorReviewVerdict.approve;
  body = codes "good";
}

abbrev first_authority : Authority
first_authority = record { store = first_tables; commands = [] }

abbrev after_open : Authority
after_open =
    perform first_authority
      (λ s. open_change_request unchanged git s open_input (codes "x") (codes "v") 1)

abbrev after_review : Authority
after_review = perform after_open (λ s. review unchanged s review_input (codes "r") 2)

abbrev after_queue : Authority
after_queue = perform after_review (λ s. queue unchanged s (codes "x") (codes "q") 3)

abbrev after_prepare : Authority
after_prepare = perform after_queue (λ s. prepare_merge_candidate unchanged git s (codes "q") 4)

abbrev after_observe : Authority
after_observe = perform after_prepare (λ s. observe_integration unchanged git s (codes "q") 5)

-- The run gets as far as it can.
integrated_after_observe :
    map
      (λ e. same_queue_status e.status MergeQueueStatus.integrated)
      after_observe.store.merge_queue
    ≡ (true ∷ [])
unfolding open_change_request open_trimmed review queue verified_claim git_check insert_request
    insert_review enqueue same_sha prepare_merge_candidate prepare_entry check_candidate
    record_candidate observe_integration record_integration get_change_request get_entry
    latest_review project_root run_git try_git is_branch guard choose refuse ◌>>>=◌ is_git_sha
    find_row update_rows has_row index_of same any all find trim starts_with
integrated_after_observe = refl

Reach-IsGuarded_example : IsGuarded unchanged after_observe
unfolding unique_rows
Reach-IsGuarded_example =
    Reach-IsGuarded unchanged
      (Reach.then_step
        (Reach.then_step
          (Reach.then_step
            (Reach.then_step
              (Reach.then_step Reach.start (Step.opens git open_input (codes "x") (codes "v") 1))
              (Step.reviews review_input (codes "r") 2))
            (Step.queues (codes "x") (codes "q") 3))
          (Step.prepares git (codes "q") 4))
        (Step.observes git (codes "q") 5))
      (record { unique = refl; reviewed_by_others = tt; entries_backed = tt }, tt)
