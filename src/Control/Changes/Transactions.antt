-- ===== src/Control/Changes/Transactions.antt =====
-- control/src/changeRequestAuthority.ts: every transaction keeps the tables sound.
use charterion.Prelude.{
  ℕ, ◌≡◌, refl, subst, ap, Text, Option, none, some, Bool, true, false, ◌&&◌, arith, ◌+◌, same,
  Result, ok, err, ok-injective, err-ne-ok, find,
}
use charterion.Control.Rows.{find_row}
use charterion.Control.Runs.{refuse, or_throw}
use charterion.Control.Changes.{
  ChangeRequest, ChangeRequestStatus, SupervisorReview, SupervisorReviewVerdict, MergeQueueEntry,
  Store, ChangeError, get_change_request, latest_review, request_missing,
}
use charterion.Control.Changes.Operations.{approves_head}
use charterion.Control.Changes.Inserts.{
  OpenInput, insert_request, insert_revision, insert_review, reread, enqueue, enqueue_unless,
  new_request, new_entry, update_request, add_revision, set_head, set_status, reviewed_status,
  is_waiting,
}
use charterion.Control.Changes.Candidate.{
  reread_entry, fail_merge_candidate, record_candidate, record_integration, set_failed,
  set_candidate, set_integrated,
}
use charterion.Control.Changes.Sound.{
  IsSound, update_request-IsSound, update_entry-IsSound, insert_request-IsSound,
  insert_review-IsSound, insert_entry-IsSound, latest_review-backs, add_revision-IsSound,
}
use charterion.Control.Changes.Reviews.{by_other_found}

pub get_change_request-found :
    (store : Store) (id : Text) (c : ChangeRequest)
    → get_change_request store id ≡ ok c
    → find_row (λ d. d.id) store.change_requests id ≡ some c
unfolding get_change_request
get_change_request-found store id c h = go (find_row (λ d. d.id) store.change_requests id) h
  where
    go : (o : Option ChangeRequest) → or_throw request_missing o ≡ ok c → o ≡ some c
    go none k = absurd (err-ne-ok k)
    go (some d) k = ap some (ok-injective k)

module _ (to_lower : Text → Text) where
  -- What an operation leaves is sound.
  abbrev pub Sound : {A : Type 0} → A × Store → Type 0
  Sound r = IsSound to_lower r.1

  refuse-Sound :
      {A : Type 0} (c : Bool) (e : ChangeError) (m : Result ChangeError (A × Store)) (r : A × Store)
      → (c ≡ false → m ≡ ok r → Sound r)
      → refuse c e m ≡ ok r
      → Sound r
  unfolding refuse
  refuse-Sound true e m r h k = absurd (err-ne-ok k)
  refuse-Sound false e m r h k = h refl k

  ok-Sound :
      {A : Type 0} (a : A) (store : Store) (r : A × Store)
      → IsSound to_lower store
      → ◌≡◌ {A = Result ChangeError (A × Store)} (ok (a, store)) (ok r)
      → Sound r
  ok-Sound a store r h k = subst Sound (ok-injective k) h

  reread-Sound :
      (store : Store) (id : Text) (o : Option ChangeRequest) (r : ChangeRequest × Store)
      → IsSound to_lower store
      → reread store id o ≡ ok r
      → Sound r
  reread-Sound store id none r h k = absurd (err-ne-ok k)
  reread-Sound store id (some c) r h k = ok-Sound c store r h k

  reread_entry-Sound :
      (store : Store) (id : Text) (r : MergeQueueEntry × Store)
      → IsSound to_lower store
      → reread_entry store id ≡ ok r
      → Sound r
  reread_entry-Sound store id r h k = go (find_row (λ e. e.id) store.merge_queue id) k
    where
      go :
          (o : Option MergeQueueEntry)
          → ◌≡◌ {A = Result ChangeError (MergeQueueEntry × Store)}
              (elim o [ none ↦ err ChangeError.entry_missing | some e ↦ ok (e, store) ])
              (ok r)
          → Sound r
      go none k = absurd (err-ne-ok k)
      go (some e) k = ok-Sound e store r h k

  pub fail-Sound :
      (store : Store) (entry : MergeQueueEntry) (now : ℕ) (r : MergeQueueEntry × Store)
      → IsSound to_lower store
      → fail_merge_candidate store entry now ≡ ok r
      → Sound r
  unfolding fail_merge_candidate
  fail-Sound store entry now r h k =
      reread_entry-Sound _ entry.id r
        (update_request-IsSound to_lower _ _ entry.change_request_id (λ c. (refl, refl))
          (update_entry-IsSound to_lower store (set_failed now) entry.id (λ e. (refl, refl)) h))
        k

  pub record_candidate-Sound :
      (store : Store) (entry : MergeQueueEntry) (base sha : Text) (now : ℕ)
      (r : MergeQueueEntry × Store)
      → IsSound to_lower store
      → record_candidate store entry base sha now ≡ ok r
      → Sound r
  unfolding record_candidate
  record_candidate-Sound store entry base sha now r h k =
      reread_entry-Sound _ entry.id r
        (update_entry-IsSound to_lower store (set_candidate base sha now) entry.id
          (λ e. (refl, refl)) h)
        k

  pub record_integration-Sound :
      (store : Store) (entry : MergeQueueEntry) (tip : Text) (now : ℕ) (r : MergeQueueEntry × Store)
      → IsSound to_lower store
      → record_integration store entry tip now ≡ ok r
      → Sound r
  unfolding record_integration
  record_integration-Sound store entry tip now r h k =
      reread_entry-Sound _ entry.id r
        (update_request-IsSound to_lower _ _ entry.change_request_id (λ c. (refl, refl))
          (update_entry-IsSound to_lower store (set_integrated tip now) entry.id (λ e. (refl, refl))
            h))
        k

  pub insert_request-Sound :
      (store : Store) (input : OpenInput) (id revision_id : Text) (now : ℕ)
      (r : ChangeRequest × Store)
      → IsSound to_lower store
      → insert_request store input id revision_id now ≡ ok r
      → Sound r
  unfolding insert_request
  insert_request-Sound store input id revision_id now r h k =
      refuse-Sound _ _ _ r
        (λ no_duplicate. refuse-Sound _ _ _ r (λ fresh. ok-Sound _ _ r (
          add_revision-IsSound to_lower _ revision_id id 1 input.claim_id input.head_sha now
            (insert_request-IsSound to_lower store (new_request input id now) (ground arith) h))))
        k

  pub insert_revision-Sound :
      (store : Store) (current : ChangeRequest) (head_sha claim_id revision_id : Text) (now : ℕ)
      (r : ChangeRequest × Store)
      → IsSound to_lower store
      → insert_revision store current head_sha claim_id revision_id now ≡ ok r
      → Sound r
  unfolding insert_revision
  insert_revision-Sound store current head_sha claim_id revision_id now r h k =
      let revision = current.revision + 1 in
      let revised = update_request store (set_head head_sha claim_id revision now) current.id in
      refuse-Sound _ _ _ r
        (λ fresh.
          reread-Sound (add_revision revised revision_id current.id revision claim_id head_sha now)
            current.id _ r
            (add_revision-IsSound to_lower revised revision_id current.id revision claim_id head_sha
              now
              (update_request-IsSound to_lower store (set_head head_sha claim_id revision now)
                current.id (λ c. (refl, refl)) h)))
        k

  pub insert_review-Sound :
      (store : Store) (current : ChangeRequest) (id reviewer : Text)
      (verdict : SupervisorReviewVerdict) (body : Text) (now : ℕ) (r : SupervisorReview × Store)
      → IsSound to_lower store
      → find_row (λ c. c.id) store.change_requests current.id ≡ some current
      → same reviewer current.author_subject ≡ false
      → insert_review store current id reviewer verdict body now ≡ ok r
      → Sound r
  unfolding insert_review
  insert_review-Sound store current id reviewer verdict body now r h found other k =
      refuse-Sound _ _ _ r
        (λ fresh. ok-Sound _ _ r (
          update_request-IsSound to_lower _ (set_status (reviewed_status verdict) now) current.id
            (λ c. (refl, refl))
            (insert_review-IsSound to_lower store _
              (by_other_found store.change_requests current.id current _ h.unique found refl other)
              h)))
        k

  pub enqueue-Sound :
      (store : Store) (current : ChangeRequest) (id : Text) (now : ℕ) (r : MergeQueueEntry × Store)
      → IsSound to_lower store
      → approves_head to_lower (latest_review store.reviews current.id) current.head_sha ≡ true
      → enqueue store current id now ≡ ok r
      → Sound r
  unfolding enqueue
  enqueue-Sound store current id now r h approved =
      go (find (λ e. same e.change_request_id current.id && is_waiting e.status) store.merge_queue)
    where
      go : (o : Option MergeQueueEntry) → enqueue_unless store current id now o ≡ ok r → Sound r
      go (some existing) k = ok-Sound existing store r h k
      go none k =
          refuse-Sound _ _ _ r
            (λ fresh. ok-Sound _ _ r (
              update_request-IsSound to_lower _ (set_status ChangeRequestStatus.queued now)
                current.id (λ c. (refl, refl))
                (insert_entry-IsSound to_lower store (new_entry current id now)
                  (latest_review-backs to_lower store.reviews (new_entry current id now) approved)
                  h)))
            k
