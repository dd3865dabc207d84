-- ===== src/Control/Changes/Kept.antt =====
-- control/src/changeRequestAuthority.ts: every operation keeps the tables sound, and moves no ref.
use charterion.Prelude.{
  ℕ, ◌≡◌, refl, sym, subst, Text, some, List, Bool, true, false, not, arith, same, Result, ok,
}
use charterion.Control.Rows.{find_row, find_row-key}
use charterion.Control.Runs.{Command, Git, done, ◌>>>=◌}
use charterion.Control.Runs.Holds.{
  Holds, Holds-done, Holds-bind, Holds-guard, Holds-choose, Holds-run_in, Holds-try_in,
}
use charterion.Control.Promotion.Rows.{is_update}
use charterion.Control.Changes.{
  ChangeRequest, MergeQueueEntry, Store, ChangeError, Run, get_change_request, run_git, try_git,
  project_root, git_failed,
}
use charterion.Control.Changes.Operations.{
  git_check, open_trimmed, open_change_request, update, review, queue,
}
use charterion.Control.Changes.Inserts.{OpenInput, UpdateInput, ReviewInput}
use charterion.Control.Changes.Candidate.{
  fail_merge_candidate, check_candidate, merge_candidate, prepare_entry, prepare_merge_candidate,
  observe_integration,
}
use charterion.Control.Changes.Sound.{IsSound}
use charterion.Control.Changes.Transactions.{
  Sound, get_change_request-found, fail-Sound, record_candidate-Sound, record_integration-Sound,
  insert_request-Sound, insert_revision-Sound, insert_review-Sound, enqueue-Sound,
}

-- The command does not move a ref.
abbrev pub MovesNoRef : Command → Type 0
MovesNoRef command = is_update command.1 ≡ false

Holds-git :
    (git : Git) (store : Store) (project_id : Text) (args : List Text)
    → is_update args ≡ false
    → Holds MovesNoRef (λ out. Unit {0}) (run_git git store project_id args)
unfolding run_git
Holds-git git store project_id args h =
    Holds-run_in MovesNoRef git_failed git args (project_root store project_id) (λ root. h)

Holds-try :
    (git : Git) (store : Store) (project_id : Text) (args : List Text)
    → is_update args ≡ false
    → Holds MovesNoRef (λ out. Unit {0}) (try_git git store project_id args)
unfolding try_git
Holds-try git store project_id args h =
    Holds-try_in MovesNoRef git args (project_root store project_id) (λ root. h)

module _ (to_lower : Text → Text) where
  -- What a run keeps, whatever it returns.
  abbrev pub Keeps : {A : Type 0} → Run (A × Store) → Type 0
  Keeps {A} run = Holds MovesNoRef (Sound to_lower {A = A}) run

  -- The test of an input that a run starts with.
  given :
      {A B : Type 0} (r : Result ChangeError A) (next : A → Run (B × Store))
      → ((a : A) → r ≡ ok a → Keeps (next a))
      → Keeps (done r >>>= next)
  given r next h =
      Holds-bind MovesNoRef (λ a. r ≡ ok a) (Sound to_lower) (done r) next
        (Holds-done MovesNoRef (λ a. r ≡ ok a) r (λ a e. e)) h

  -- A command whose result does not matter.
  after :
      {A B : Type 0} (first : Run A) (next : A → Run (B × Store))
      → Holds MovesNoRef (λ a. Unit {0}) first
      → ((a : A) → Keeps (next a))
      → Keeps (first >>>= next)
  after first next h k =
      Holds-bind MovesNoRef (λ a. Unit {0}) (Sound to_lower) first next h (λ a _. k a)

  at_id :
      (store : Store) (id : Text) (c : ChangeRequest)
      → get_change_request store id ≡ ok c
      → find_row (λ d. d.id) store.change_requests c.id ≡ some c
  at_id store id c read =
      let found = get_change_request-found store id c read in
      subst (λ i. find_row (λ d. d.id) store.change_requests i ≡ some c)
        (sym (find_row-key (λ d. d.id) store.change_requests id c found)) found

  pub review-Keeps :
      (store : Store) (input : ReviewInput) (id : Text) (now : ℕ)
      → IsSound to_lower store
      → Keeps (review to_lower store input id now)
  unfolding review
  review-Keeps store input id now sound = given _ _ (λ current read.
      Holds-guard _ _ _ _ _ (λ is_open. given _ _ (λ reviewer _. Holds-guard _ _ _ _ _ (λ other.
        Holds-guard _ _ _ _ _ (λ current_head. Holds-guard _ _ _ _ _ (λ valid. given _ _ (λ body _.
          Holds-done _ _ _ (λ r h.
            insert_review-Sound to_lower store current id reviewer input.verdict body now r sound
              (at_id store input.change_request_id current read) other h))))))))

  not_refused : (b : Bool) → not b ≡ false → b ≡ true
  not_refused b h = ground arith

  pub queue-Keeps :
      (store : Store) (change_request_id id : Text) (now : ℕ)
      → IsSound to_lower store
      → Keeps (queue to_lower store change_request_id id now)
  unfolding queue
  queue-Keeps store change_request_id id now sound = given _ _ (λ current read.
      Holds-guard _ _ _ _ _ (λ is_approved. Holds-guard _ _ _ _ _ (λ approving.
        Holds-guard _ _ _ _ _ (λ evident. Holds-done _ _ _ (λ r h.
          enqueue-Sound to_lower store current id now r sound (not_refused _ approving) h)))))

  module _ (git : Git) where
    git_check-Holds :
        (store : Store) (project_id base_sha head_sha branch : Text)
        → Holds MovesNoRef
            (λ _. Unit {0})
            (git_check to_lower git store project_id base_sha head_sha branch)
    unfolding git_check same
    git_check-Holds store project_id base_sha head_sha branch = Holds-guard _ _ _ _ _ (λ sha_ok.
        Holds-guard _ _ _ _ _ (λ branch_ok.
          Holds-bind _ _ _ _ _ (Holds-git git store project_id _ refl) (λ a _.
            Holds-bind _ _ _ _ _ (Holds-git git store project_id _ refl) (λ b _.
              Holds-bind _ _ _ _ _ (Holds-git git store project_id _ refl) (λ c _.
                Holds-bind _ _ _ _ _ (Holds-git git store project_id _ refl)
                  (λ d _. Holds-guard _ _ _ _ _ (λ at_tip. Holds-done _ _ _ (λ _ _. tt))))))))

    open_trimmed-Keeps :
        (store : Store) (input : OpenInput) (id revision_id : Text) (now : ℕ)
        → IsSound to_lower store
        → Keeps (open_trimmed to_lower git store input id revision_id now)
    unfolding open_trimmed same
    open_trimmed-Keeps store input id revision_id now sound = given _ _ (λ claim _.
        after _ _
          (git_check-Holds store input.project_id input.base_sha input.head_sha input.branch)
          (λ checked. Holds-guard _ _ _ _ _ (λ target_ok.
            after _ _ (Holds-git git store input.project_id _ refl) (λ tip.
              Holds-guard _ _ _ _ _ (λ at_tip.
                Holds-done _ _ _ (λ r h.
                  insert_request-Sound to_lower store input id revision_id now r sound h))))))

    pub open-Keeps :
        (store : Store) (input : OpenInput) (id revision_id : Text) (now : ℕ)
        → IsSound to_lower store
        → Keeps (open_change_request to_lower git store input id revision_id now)
    unfolding open_change_request
    open-Keeps store input id revision_id now sound = given _ _ (λ a _. given _ _ (λ b _.
        given _ _ (λ c _. given _ _ (λ d _. given _ _ (λ e _. Holds-guard _ _ _ _ _ (λ differ.
          given _ _
            (λ f _. given _ _ (λ g _. open_trimmed-Keeps store _ id revision_id now sound))))))))

    pub update-Keeps :
        (store : Store) (input : UpdateInput) (revision_id : Text) (now : ℕ)
        → IsSound to_lower store
        → Keeps (update to_lower git store input revision_id now)
    unfolding update
    update-Keeps store input revision_id now sound = given _ _ (λ current read.
        Holds-guard _ _ _ _ _ (λ is_open. given _ _ (λ subject _.
          Holds-guard _ _ _ _ _ (λ is_author. given _ _ (λ head_sha _.
            Holds-guard _ _ _ _ _ (λ changed. given _ _ (λ claim _.
              after _ _
                (git_check-Holds store current.project_id current.base_sha head_sha current.branch)
                (λ checked. Holds-done _ _ _ (λ r h.
                  insert_revision-Sound to_lower store current head_sha input.claim_id revision_id
                    now r sound h)))))))))

    failing-Keeps :
        (store : Store) (entry : MergeQueueEntry) (now : ℕ)
        → IsSound to_lower store
        → Keeps (done (fail_merge_candidate store entry now))
    failing-Keeps store entry now sound =
        Holds-done _ _ _ (λ r h. fail-Sound to_lower store entry now r sound h)

    check_candidate-Keeps :
        (store : Store) (entry : MergeQueueEntry) (tip sha : Text) (now : ℕ)
        → IsSound to_lower store
        → Keeps (check_candidate to_lower git store entry tip sha now)
    unfolding check_candidate same
    check_candidate-Keeps store entry tip sha now sound =
        after _ _ (Holds-try git store entry.project_id _ refl) (λ clean.
          Holds-choose _ _ _ _ _
            (λ yes_clean.
              Holds-done _ _ _
                (λ r h. record_candidate-Sound to_lower store entry tip sha now r sound h))
            (λ not_clean. failing-Keeps store entry now sound))

    merge_candidate-Keeps :
        (store : Store) (entry : MergeQueueEntry) (current : ChangeRequest) (tip : Text) (now : ℕ)
        → IsSound to_lower store
        → Keeps (merge_candidate to_lower git store entry current tip now)
    unfolding merge_candidate same
    merge_candidate-Keeps store entry current tip now sound =
        after _ _ (Holds-try git store entry.project_id _ refl) (λ tree.
          Holds-choose _ _ _ _ _ (λ no_tree. failing-Keeps store entry now sound)
            (λ has_tree. after _ _ (Holds-try git store entry.project_id _ refl) (λ commit.
              Holds-choose _ _ _ _ _ (λ no_commit. failing-Keeps store entry now sound)
                (λ has_commit. check_candidate-Keeps store entry tip _ now sound))))

    prepare_entry-Keeps :
        (store : Store) (entry : MergeQueueEntry) (current : ChangeRequest) (now : ℕ)
        → IsSound to_lower store
        → Keeps (prepare_entry to_lower git store entry current now)
    unfolding prepare_entry same
    prepare_entry-Keeps store entry current now sound =
        after _ _ (Holds-try git store entry.project_id _ refl) (λ target.
          Holds-choose _ _ _ _ _ (λ no_target. failing-Keeps store entry now sound)
            (λ has_target. after _ _ (Holds-try git store entry.project_id _ refl) (λ base.
              Holds-choose _ _ _ _ _ (λ lost_base. failing-Keeps store entry now sound)
                (λ has_base. after _ _ (Holds-try git store entry.project_id _ refl) (λ forward.
                  Holds-choose _ _ _ _ _
                    (λ is_forward. check_candidate-Keeps store entry _ current.head_sha now sound)
                    (λ diverged. merge_candidate-Keeps store entry current _ now sound))))))

    pub prepare-Keeps :
        (store : Store) (queue_entry_id : Text) (now : ℕ)
        → IsSound to_lower store
        → Keeps (prepare_merge_candidate to_lower git store queue_entry_id now)
    unfolding prepare_merge_candidate
    prepare-Keeps store queue_entry_id now sound = given _ _ (λ entry _.
        Holds-guard _ _ _ _ _ (λ is_queued. given _ _ (λ current _.
          Holds-guard _ _ _ _ _ (λ fresh. prepare_entry-Keeps store entry current now sound))))

    pub observe-Keeps :
        (store : Store) (queue_entry_id : Text) (now : ℕ)
        → IsSound to_lower store
        → Keeps (observe_integration to_lower git store queue_entry_id now)
    unfolding observe_integration same
    observe-Keeps store queue_entry_id now sound = given _ _ (λ entry _.
        Holds-guard _ _ _ _ _ (λ validated.
          after _ _ (Holds-git git store entry.project_id _ refl) (λ tip.
            after _ _ (Holds-try git store entry.project_id _ refl) (λ candidate.
              after _ _ (Holds-try git store entry.project_id _ refl) (λ head.
                Holds-guard _ _ _ _ _ (λ included.
                  Holds-done _ _ _
                    (λ r h. record_integration-Sound to_lower store entry tip now r sound h)))))))
