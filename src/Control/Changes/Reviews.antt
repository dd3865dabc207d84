-- ===== src/Control/Changes/Reviews.antt =====
-- control/src/changeRequestAuthority.ts: reviews by others than the author.
use charterion.Prelude.{
  ◌≡◌, refl, Text, some, List, [], ◌∷◌, ◌++◌, Bool, true, false, not, ◌&&◌, ◌||◌, arith, same, all,
}
use charterion.Control.Rows.{find_row, update_rows, has_row, unique_rows, has_row-update}
use charterion.Control.Rows.Tests.{
  all-update_rows, all-append_one, any-append_one, find_row-only, find_row-has_row, has_row-apart,
}
use charterion.Control.Changes.{ChangeRequest, SupervisorReview}

-- A review of a change request that is there, by somebody who is not its author.
unfoldable pub by_other : List ChangeRequest → SupervisorReview → Bool
by_other requests r =
    has_row (λ c. c.id) requests r.change_request_id
    && all
        (λ c. not (same c.id r.change_request_id) || not (same r.reviewer_subject c.author_subject))
        requests

has_row-append_true :
    (rows : List ChangeRequest) (new : ChangeRequest) (id : Text)
    → has_row (λ c. c.id) rows id ≡ true
    → has_row (λ c. c.id) (rows ++ (new ∷ [])) id ≡ true
unfolding has_row
has_row-append_true rows new id h = any-append_one (λ c. same c.id id) rows new h

pub by_other-append :
    (requests : List ChangeRequest) (new : ChangeRequest) (r : SupervisorReview)
    → has_row (λ c. c.id) requests new.id ≡ false
    → by_other requests r ≡ true
    → by_other (requests ++ (new ∷ [])) r ≡ true
unfolding by_other
by_other-append requests new r fresh h =
    let there : has_row (λ c. c.id) requests r.change_request_id ≡ true = ground arith in
    let apart = has_row-apart (λ c. c.id) requests r.change_request_id new.id there fresh in
    let here = has_row-append_true requests new r.change_request_id there in
    let others =
      all-append_one
        (λ c. not (same c.id r.change_request_id) || not (same r.reviewer_subject c.author_subject))
        requests new (ground arith) (ground arith) in
    ground arith

pub by_other-update :
    (requests : List ChangeRequest) (f : ChangeRequest → ChangeRequest) (id : Text)
    (r : SupervisorReview)
    → ((c : ChangeRequest) → ((f c).id ≡ c.id) × ((f c).author_subject ≡ c.author_subject))
    → by_other requests r ≡ true
    → by_other (update_rows (λ c. c.id) f requests id) r ≡ true
unfolding by_other
by_other-update requests f id r keeps h =
    rw
      (
        has_row-update (λ c. c.id) f requests id r.change_request_id (λ c. (keeps c).0),
        all-update_rows (λ c. c.id)
            (λ c.
              not (same c.id r.change_request_id) || not (same r.reviewer_subject c.author_subject))
            f requests id same_test,
      )
      h
  where
    same_test :
        (c : ChangeRequest)
        → (not (same (f c).id r.change_request_id)
            || not (same r.reviewer_subject (f c).author_subject))
          ≡ (not (same c.id r.change_request_id) || not (same r.reviewer_subject c.author_subject))
    same_test c = rw ((keeps c).0, (keeps c).1) refl

pub by_other_found :
    (requests : List ChangeRequest) (id : Text) (c : ChangeRequest) (r : SupervisorReview)
    → unique_rows (λ d. d.id) requests ≡ true
    → find_row (λ d. d.id) requests id ≡ some c
    → r.change_request_id ≡ id
    → same r.reviewer_subject c.author_subject ≡ false
    → by_other requests r ≡ true
unfolding by_other
by_other_found requests id c r unique found is_id other =
    let there = find_row-has_row (λ d. d.id) requests id c found in
    let apart =
      find_row-only (λ d. d.id) (λ d. not (same r.reviewer_subject d.author_subject)) requests id c
        unique found (ground arith) in
    rw is_id (ground arith)
