-- ===== src/Control/Changes/Candidate.antt =====
-- control/src/changeRequestAuthority.ts: the candidate of a merge, and the observation that it was
-- integrated.
use charterion.Prelude.{
  ℕ, Text, codes, Option, none, some, List, [], ◌∷◌, ◌++◌, true, false, not, ◌&&◌, ◌||◌,
  if◌then◌else◌, is_some, present, trim, is_space, or_else, Result, ok, err,
}
use charterion.Control.Rows.{find_row, update_rows}
use charterion.Control.Runs.{Git, done, ◌>>>=◌, guard, choose, is_git_sha}
use charterion.Control.Changes.{
  ChangeRequest, ChangeRequestStatus, MergeQueueEntry, MergeQueueStatus, Store, ChangeError, Run,
  same_status, same_queue_status, get_change_request, get_entry, run_git, try_git, entry_missing,
  not_queued, stale_entry, no_candidate, not_integrated,
}
use charterion.Control.Changes.Operations.{same_sha}
use charterion.Control.Changes.Inserts.{set_status, update_request}

abbrev commit_of : Text → Text
commit_of sha = sha ++ codes "^{commit}"

abbrev pub set_failed : ℕ → MergeQueueEntry → MergeQueueEntry
set_failed now e = record e { status = MergeQueueStatus.failed; has_error = true; updated_at = now }

abbrev pub set_candidate : Text → Text → ℕ → MergeQueueEntry → MergeQueueEntry
set_candidate base sha now e = record e {
  status = MergeQueueStatus.validating;
  candidate_base_sha = some base;
  candidate_sha = some sha;
  has_error = false;
  updated_at = now;
}

abbrev pub set_integrated : Text → ℕ → MergeQueueEntry → MergeQueueEntry
set_integrated sha now e = record e {
  status = MergeQueueStatus.integrated;
  integrated_sha = some sha;
  updated_at = now;
}

abbrev pub update_entry : Store → (MergeQueueEntry → MergeQueueEntry) → Text → Store
update_entry store f id = record store {
  merge_queue = update_rows (λ e. e.id) f store.merge_queue id;
}

-- The entry after an update.
abbrev pub reread_entry : Store → Text → Result ChangeError (MergeQueueEntry × Store)
reread_entry store id = elim (find_row (λ e. e.id) store.merge_queue id) [
  | none ↦ err entry_missing
  | some e ↦ ok (e, store)
]

unfoldable pub fail_merge_candidate :
    Store → MergeQueueEntry → ℕ → Result ChangeError (MergeQueueEntry × Store)
fail_merge_candidate store entry now =
    reread_entry
      (update_request (update_entry store (set_failed now) entry.id)
        (set_status ChangeRequestStatus.changes_requested now) entry.change_request_id)
      entry.id

-- The transaction of `prepareMergeCandidate`.
unfoldable pub record_candidate :
    Store → MergeQueueEntry → (base sha : Text) → ℕ → Result ChangeError (MergeQueueEntry × Store)
record_candidate store entry base sha now =
    reread_entry (update_entry store (set_candidate base sha now) entry.id) entry.id

-- The transaction of `observeIntegration`.
unfoldable pub record_integration :
    Store → MergeQueueEntry → (tip : Text) → ℕ → Result ChangeError (MergeQueueEntry × Store)
record_integration store entry tip now =
    reread_entry
      (update_request (update_entry store (set_integrated tip now) entry.id)
        (set_status ChangeRequestStatus.integrated now) entry.change_request_id)
      entry.id

-- `text.trim().split(/\s+/)[0]`.
unfoldable pub first_word : Text → Text
first_word [] = []
first_word (c ∷ t) = let rest = first_word t in if is_space c then [] else c ∷ rest

abbrev trimmed : Option Text → Text
trimmed none = []
trimmed (some out) = trim out

module _ (to_lower : Text → Text) (git : Git) where
  abbrev is_ancestor : Text → Text → List Text
  is_ancestor older newer = codes "merge-base" ∷ codes "--is-ancestor" ∷ older ∷ newer ∷ []

  abbrev tip_of : Text → List Text
  tip_of branch = codes "rev-parse" ∷ codes "--verify" ∷ commit_of branch ∷ []

  -- The check of the differences, and the candidate.
  unfoldable pub check_candidate :
      Store → MergeQueueEntry → (tip sha : Text) → ℕ → Run (MergeQueueEntry × Store)
  check_candidate store entry tip sha now =
      try_git git store entry.project_id (codes "diff" ∷ codes "--check" ∷ tip ∷ sha ∷ [])
      >>>= λ clean.
          choose (is_some clean) (done (record_candidate store entry tip sha now))
            (done (fail_merge_candidate store entry now))

  -- The merge of the head with a target that went on.
  unfoldable pub merge_candidate :
      Store → MergeQueueEntry → ChangeRequest → (tip : Text) → ℕ → Run (MergeQueueEntry × Store)
  merge_candidate store entry current tip now =
      let failing = done (fail_merge_candidate store entry now) in
      try_git git store entry.project_id
        (codes "merge-tree" ∷ codes "--write-tree" ∷ tip ∷ current.head_sha ∷ [])
      >>>= λ tree.
          choose (not (is_some tree) || not (is_git_sha (first_word (trimmed tree)))) failing (
            try_git git store entry.project_id (
              codes "commit-tree"
              ∷ first_word (trimmed tree)
              ∷ codes "-p"
              ∷ tip
              ∷ codes "-p"
              ∷ current.head_sha
              ∷ codes "-m"
              ∷ (codes "GAM merge " ++ current.id)
              ∷ [])
            >>>= λ commit.
                choose (not (is_some commit) || not (is_git_sha (trimmed commit))) failing
                  (check_candidate store entry tip (trimmed commit) now))

  unfoldable pub prepare_entry :
      Store → MergeQueueEntry → ChangeRequest → ℕ → Run (MergeQueueEntry × Store)
  prepare_entry store entry current now =
      let failing = done (fail_merge_candidate store entry now) in
      try_git git store entry.project_id (tip_of entry.target_branch) >>>= λ target.
      choose (not (is_some target)) failing (
        try_git git store entry.project_id (is_ancestor current.base_sha (trimmed target))
        >>>= λ base. choose (not (is_some base)) failing (
            try_git git store entry.project_id (is_ancestor (trimmed target) current.head_sha)
            >>>= λ forward.
                choose (is_some forward)
                  (check_candidate store entry (trimmed target) current.head_sha now)
                  (merge_candidate store entry current (trimmed target) now)))

  unfoldable pub prepare_merge_candidate :
      Store → (queue_entry_id : Text) → ℕ → Run (MergeQueueEntry × Store)
  prepare_merge_candidate store queue_entry_id now =
      done (get_entry store queue_entry_id) >>>= λ entry.
      guard (not (same_queue_status entry.status MergeQueueStatus.queued)) not_queued (
        done (get_change_request store entry.change_request_id) >>>= λ current.
        guard
          (not (same_status current.status ChangeRequestStatus.queued)
            || not (same_sha to_lower current.head_sha entry.head_sha))
          stale_entry (prepare_entry store entry current now))

  unfoldable pub observe_integration :
      Store → (queue_entry_id : Text) → ℕ → Run (MergeQueueEntry × Store)
  observe_integration store queue_entry_id now = done (get_entry store queue_entry_id) >>>= λ entry.
      guard
        (not (same_queue_status entry.status MergeQueueStatus.validating)
          || not (present entry.candidate_sha))
        no_candidate
        (run_git git store entry.project_id (tip_of entry.target_branch) >>>= λ tip.
          try_git git store entry.project_id (is_ancestor (or_else entry.candidate_sha []) tip)
          >>>= λ candidate.
              try_git git store entry.project_id (is_ancestor entry.head_sha tip) >>>= λ head.
              guard (not (is_some candidate) && not (is_some head)) not_integrated
                (done (record_integration store entry tip now)))
