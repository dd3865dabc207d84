-- ===== src/Control/Changes/Sound.antt =====
-- control/src/changeRequestAuthority.ts: what the transactions keep of the tables.
use charterion.Prelude.{
  All-append, ℕ, ◌≡◌, Text, Option, none, some, List, [], ◌∷◌, ◌++◌, Bool, true, false, ◌&&◌, ◌||◌,
  if◌then◌else◌, arith, same, any, All, All-map, Bool-cases, inl, inr, ◌⊎◌, ltb, ◌==◌,
}
use charterion.Control.Rows.{
  has_row, unique_rows, unique_rows-update, unique_rows-append, update_rows-All_each,
}
use charterion.Control.Rows.Tests.{any-append_one}
use charterion.Control.Changes.{
  ChangeRequest, SupervisorReview, MergeQueueEntry, Store, is_approval, latest_review, later_review,
}
use charterion.Protocol.Keys.{text_le}
use charterion.Control.Changes.Operations.{same_sha, approves_head}
use charterion.Control.Changes.Inserts.{update_request, add_revision}
use charterion.Control.Changes.Candidate.{update_entry}
use charterion.Control.Changes.Reviews.{by_other, by_other-append, by_other-update}

module _ (to_lower : Text → Text) where
  -- A review approves exactly the head of the entry.
  unfoldable pub is_backed : List SupervisorReview → MergeQueueEntry → Bool
  is_backed reviews e =
      any
        (λ r.
          same r.change_request_id e.change_request_id
          && is_approval r.verdict
          && same_sha to_lower r.head_sha e.head_sha)
        reviews

  -- The change requests have distinct ids; no review is by the author of its change request; every
  -- entry of the queue is for a head that was approved.
  pub record IsSound (store : Store) : Type 0 where
    pub unique : unique_rows (λ c. c.id) store.change_requests ≡ true
    pub reviewed_by_others : All (λ r. by_other store.change_requests r ≡ true) store.reviews
    pub entries_backed : All (λ e. is_backed store.reviews e ≡ true) store.merge_queue

  pub update_request-IsSound :
      (store : Store) (f : ChangeRequest → ChangeRequest) (id : Text)
      → ((c : ChangeRequest) → ((f c).id ≡ c.id) × ((f c).author_subject ≡ c.author_subject))
      → IsSound store
      → IsSound (update_request store f id)
  update_request-IsSound store f id keeps s = record {
    unique = unique_rows-update (λ c. c.id) f store.change_requests id (λ c. (keeps c).0) s.unique;
    reviewed_by_others =
        All-map store.reviews (λ r. by_other-update store.change_requests f id r keeps)
          s.reviewed_by_others;
    entries_backed = s.entries_backed;
  }

  pub update_entry-IsSound :
      (store : Store) (f : MergeQueueEntry → MergeQueueEntry) (id : Text)
      → ((e : MergeQueueEntry)
          → ((f e).change_request_id ≡ e.change_request_id) × ((f e).head_sha ≡ e.head_sha))
      → IsSound store
      → IsSound (update_entry store f id)
  unfolding is_backed
  update_entry-IsSound store f id keeps s = record {
    unique = s.unique;
    reviewed_by_others = s.reviewed_by_others;
    entries_backed =
        update_rows-All_each (λ e. e.id) (λ e. is_backed store.reviews e ≡ true) f store.merge_queue
          id (λ e h. rw ((keeps e).0, (keeps e).1) h) s.entries_backed;
  }

  pub insert_request-IsSound :
      (store : Store) (c : ChangeRequest)
      → has_row (λ d. d.id) store.change_requests c.id ≡ false
      → IsSound store
      → IsSound (record store { change_requests = store.change_requests ++ (c ∷ []) })
  insert_request-IsSound store c fresh s = record {
    unique = unique_rows-append (λ d. d.id) store.change_requests c s.unique fresh;
    reviewed_by_others =
        All-map store.reviews (λ r. by_other-append store.change_requests c r fresh)
          s.reviewed_by_others;
    entries_backed = s.entries_backed;
  }

  pub insert_review-IsSound :
      (store : Store) (r : SupervisorReview)
      → by_other store.change_requests r ≡ true
      → IsSound store
      → IsSound (record store { reviews = store.reviews ++ (r ∷ []) })
  unfolding is_backed
  insert_review-IsSound store r other s = record {
    unique = s.unique;
    reviewed_by_others =
        All-append (λ q. by_other store.change_requests q ≡ true) store.reviews (r ∷ [])
          s.reviewed_by_others (other, tt);
    entries_backed =
        All-map store.merge_queue
          (λ e h.
            any-append_one
              (λ q.
                same q.change_request_id e.change_request_id
                && is_approval q.verdict
                && same_sha to_lower q.head_sha e.head_sha)
              store.reviews r h)
          s.entries_backed;
  }

  pub insert_entry-IsSound :
      (store : Store) (e : MergeQueueEntry)
      → is_backed store.reviews e ≡ true
      → IsSound store
      → IsSound (record store { merge_queue = store.merge_queue ++ (e ∷ []) })
  insert_entry-IsSound store e backed s = record {
    unique = s.unique;
    reviewed_by_others = s.reviewed_by_others;
    entries_backed =
        All-append (λ d. is_backed store.reviews d ≡ true) store.merge_queue (e ∷ [])
          s.entries_backed (backed, tt);
  }

  approves_later :
      (r : SupervisorReview) (o : Option SupervisorReview) (head_sha : Text)
      → approves_head to_lower (some (later_review r o)) head_sha ≡ true
      → (approves_head to_lower (some r) head_sha ≡ true)
        ⊎ (approves_head to_lower o head_sha ≡ true)
  approves_later r none head_sha h = inl h
  approves_later r (some s) head_sha h =
      go (ltb s.created_at r.created_at || (s.created_at == r.created_at && text_le s.id r.id)) h
    where
      go :
          (later : Bool)
          → approves_head to_lower (some (if later then r else s)) head_sha ≡ true
          → (approves_head to_lower (some r) head_sha ≡ true)
            ⊎ (approves_head to_lower (some s) head_sha ≡ true)
      go true k = inl k
      go false k = inr k

  -- The latest review of a change request is one of its reviews.
  pub latest_review-backs :
      (reviews : List SupervisorReview) (e : MergeQueueEntry)
      → approves_head to_lower (latest_review reviews e.change_request_id) e.head_sha ≡ true
      → is_backed reviews e ≡ true
  unfolding is_backed latest_review any
  latest_review-backs [] e h = h
  latest_review-backs (r ∷ reviews) e h =
      let rest = latest_review-backs reviews e in
      elim (Bool-cases (same r.change_request_id e.change_request_id)) [
        | inl is_it ↦
            elim (approves_later r (latest_review reviews e.change_request_id) e.head_sha
              (at_head is_it)) [
                | inl first ↦ ground arith
                | inr later ↦ let older = rest later in ground arith
              ]
        | inr other ↦ let older = rest (not_head other) in ground arith
      ]
    where
      at_head :
          same r.change_request_id e.change_request_id ≡ true
          → approves_head to_lower
              (some (later_review r (latest_review reviews e.change_request_id)))
              e.head_sha
            ≡ true
      at_head is_it = go (same r.change_request_id e.change_request_id) is_it h
        where
          go :
              (b : Bool)
              → b ≡ true
              → approves_head to_lower
                  (if b
                    then some (later_review r (latest_review reviews e.change_request_id))
                    else latest_review reviews e.change_request_id)
                  e.head_sha
                ≡ true
              → approves_head to_lower
                  (some (later_review r (latest_review reviews e.change_request_id)))
                  e.head_sha
                ≡ true
          go true is_true k = k
          go false is_true k = absurd (ground arith)

      not_head :
          same r.change_request_id e.change_request_id ≡ false
          → approves_head to_lower (latest_review reviews e.change_request_id) e.head_sha ≡ true
      not_head other = go (same r.change_request_id e.change_request_id) other h
        where
          go :
              (b : Bool)
              → b ≡ false
              → approves_head to_lower
                  (if b
                    then some (later_review r (latest_review reviews e.change_request_id))
                    else latest_review reviews e.change_request_id)
                  e.head_sha
                ≡ true
              → approves_head to_lower (latest_review reviews e.change_request_id) e.head_sha ≡ true
          go false is_false k = k
          go true is_false k = absurd (ground arith)

  pub add_revision-IsSound :
      (store : Store) (id change_request_id : Text) (revision : ℕ) (claim_id head_sha : Text)
      (now : ℕ)
      → IsSound store
      → IsSound (add_revision store id change_request_id revision claim_id head_sha now)
  add_revision-IsSound store id change_request_id revision claim_id head_sha now s = record {
    unique = s.unique;
    reviewed_by_others = s.reviewed_by_others;
    entries_backed = s.entries_backed;
  }
