-- ===== src/Control/Promotion/Sound.antt =====
-- control/src/promotionAuthority.ts: the operations keep the rows sound, and issue no command that moves
-- a ref but on behalf of an accepted row.
use charterion.Control.Rows.History.{GoesOn-append}
use charterion.Control.Runs.{Git, done, required, ◌>>>=◌}
use charterion.Prelude.{
  All-append, ℕ, ◌≡◌, refl, subst, Text, Option, none, some, List, [], ◌∷◌, true, false, not, ◌||◌,
  arith, same, present, if_true, if_false, Bool-cases, inl, inr, ok, ok-injective, err-ne-ok,
}
use charterion.Control.Rows.{find_row, find_row-All, has_row, unique_rows-append}
use charterion.Control.Promotion.{
  required_missing, SelfHostingPromotion, RequestInput, Store, Run, mark_promoted, same_status,
  approved, promoted,
}
use charterion.Control.Promotion.Operations.{
  insert_promotion, insert_unless, find_replay, replay_matches, new_promotion, validate_git_state,
  request_trimmed, request_unless, request, update_ref, apply_with_git, apply_row, apply,
}
use charterion.Control.Promotion.Holds.{Holds-git}
use charterion.Control.Runs.Holds.{Holds, Holds-done, Holds-bind, Holds-guard, Holds-choose}
use charterion.Control.Promotion.Rows.{IsBacked, Backs, AnyOf-find, is_update}
use charterion.Control.Promotion.Evolution.{IsSound, is_sound, independent, promotion_history}
use charterion.Control.Promotion.Transactions.{
  Leaves, Leaves-self, get_promotion-found, mark_promoted-Leaves,
}

module _ (to_lower : Text → Text) where
  insert_unless-Leaves :
      (store : Store) (input : RequestInput) (id subject : Text) (now : ℕ)
      (o : Option SelfHostingPromotion) (r : SelfHostingPromotion × Store)
      → IsSound store.promotions
      → insert_unless to_lower store input id subject now o ≡ ok r
      → Leaves store r
  insert_unless-Leaves store input id subject now (some current) r sound h =
      elim (Bool-cases (
        not (replay_matches to_lower current input)
        || not (same current.candidate_subject subject))) [
          | inl differs ↦ absurd (err-ne-ok (if_true _ _ differs h))
          | inr repeated ↦
              subst (Leaves store) (ok-injective (if_false _ _ repeated h))
                (Leaves-self store current sound)
        ]
  insert_unless-Leaves store input id subject now none r sound h =
      elim (Bool-cases (has_row (λ q. q.id) store.promotions id)) [
        | inl taken ↦ absurd (err-ne-ok (if_true _ _ taken h))
        | inr new ↦
            let p = new_promotion to_lower input id subject now in
            subst (Leaves store) (ok-injective (if_false _ _ new h)) (
              (
                unique_rows-append (λ q. q.id) store.promotions p sound.0 new,
                All-append (λ q. is_sound q ≡ true) store.promotions (p ∷ []) sound.1 (refl, tt),
              ),
              GoesOn-append promotion_history store.promotions p,
            )
      ]

  -- The guard of `apply` lets an approved row pass.
  approved_of :
      (p : SelfHostingPromotion)
      → (not (same_status p.status approved) || not (present p.decision_by)) ≡ false
      → same_status p.status approved ≡ true
  approved_of p h = ground arith

  -- A command other than `update-ref` is backed by any table.
  harmless :
      (rows : List SelfHostingPromotion) (args : List Text)
      → is_update args ≡ false
      → (root : Text) → IsBacked rows (root, args)
  harmless rows args h root = inl h

  module _ (git : Git) where
    validate_git_state-Holds :
        (rows : List SelfHostingPromotion) (store : Store)
        (project_id candidate_sha expected_parent_sha target_ref : Text)
        → Holds
            (IsBacked rows)
            (λ _. Unit {0})
            (validate_git_state to_lower git store project_id candidate_sha expected_parent_sha
              target_ref)
    unfolding validate_git_state same
    validate_git_state-Holds rows store project_id candidate_sha expected_parent_sha target_ref =
        Holds-guard _ _ _ _ _ (λ sha_ok. Holds-guard _ _ _ _ _ (λ ref_ok.
          Holds-bind _ _ _ _ _ (Holds-git _ git store project_id _ (harmless rows _ refl)) (λ a _.
            Holds-bind _ _ _ _ _ (Holds-git _ git store project_id _ (harmless rows _ refl)) (λ b _.
              Holds-bind _ _ _ _ _ (Holds-git _ git store project_id _ (harmless rows _ refl))
                (λ c _. Holds-guard _ _ _ _ _ (λ parent_ok.
                  Holds-bind _ _ _ _ _ (Holds-git _ git store project_id _ (harmless rows _ refl))
                    (λ d _. Holds-done _ _ _ (λ _ _. tt))))))))

    -- What `apply` leaves, with a promoted row for its result.
    abbrev Promotes : Store → SelfHostingPromotion × Store → Type 0
    Promotes store r = Leaves store r × (same_status r.0.status promoted ≡ true)

    update_ref-IsBacked :
        (store : Store) (id : Text) (current : SelfHostingPromotion)
        → find_row (λ p. p.id) store.promotions id ≡ some current
        → same_status current.status approved ≡ true
        → independent current.decision_by current.candidate_subject ≡ true
        → (root : Text) → IsBacked store.promotions (root, update_ref to_lower git current)
    update_ref-IsBacked store id current found is_approved other root = inr (
        AnyOf-find store.promotions id current found (Backs (update_ref to_lower git current))
          (ground arith, other, refl))

    apply_with_git-Holds :
        (store : Store) (id : Text) (current : SelfHostingPromotion) (now : ℕ)
        → IsSound store.promotions
        → ((root : Text) → IsBacked store.promotions (root, update_ref to_lower git current))
        → Holds
            (IsBacked store.promotions)
            (Promotes store)
            (apply_with_git to_lower git store current now)
    unfolding apply_with_git same
    apply_with_git-Holds store id current now sound backed =
        let rows = store.promotions in
        let finish =
          Holds-done (IsBacked rows) (Promotes store) (mark_promoted store current.id now)
            (λ r h. mark_promoted-Leaves store current.id now r sound h) in
        Holds-bind _ _ _ _ _ (Holds-git _ git store current.project_id _ (harmless rows _ refl))
          (λ a _.
            Holds-bind _ _ _ _ _ (Holds-git _ git store current.project_id _ (harmless rows _ refl))
              (λ observed _.
                Holds-choose _ _ _ _ _ (λ already. finish)
                  (λ not_yet. Holds-guard _ _ _ _ _ (λ at_parent.
                    Holds-bind _ _ _ _ _
                      (Holds-git _ git store current.project_id _ (harmless rows _ refl))
                      (λ b _.
                        Holds-bind _ _ _ _ _ (Holds-git _ git store current.project_id _ backed)
                          (λ c _.
                            Holds-bind _ _ _ _ _
                              (Holds-git _ git store current.project_id _ (harmless rows _ refl))
                              (λ after _. Holds-guard _ _ _ _ _ (λ converged. finish))))))))

    -- A sound row that is approved was decided by another than the author.
    approved-independent :
        (p : SelfHostingPromotion)
        → is_sound p ≡ true
        → same_status p.status approved ≡ true
        → independent p.decision_by p.candidate_subject ≡ true
    approved-independent p h k = ground arith

    apply_row-Holds :
        (store : Store) (id : Text) (current : SelfHostingPromotion) (authority : Text) (now : ℕ)
        → IsSound store.promotions
        → find_row (λ p. p.id) store.promotions id ≡ some current
        → Holds
            (IsBacked store.promotions)
            (Promotes store)
            (apply_row to_lower git store current authority now)
    unfolding apply_row
    apply_row-Holds store id current authority now sound found =
        let row_sound =
          (find_row-All (λ p. p.id) (λ p. is_sound p ≡ true) store.promotions id current found
            sound.1).0 in
        Holds-guard _ _ _ _ _ (λ not_own.
          Holds-choose _ _ _ _ _
            (λ before. Holds-guard _ _ _ _ _ (λ same_authority. Holds-done _ _ _ (λ r h.
              subst (Promotes store) (ok-injective h) (Leaves-self store current sound, before))))
            (λ new. Holds-guard _ _ _ _ _ (λ not_rejected. Holds-guard _ _ _ _ _ (λ ready.
              Holds-guard _ _ _ _ _ (λ by_authority.
                Holds-bind _ (λ claim. Unit {0}) _ _ _ (Holds-done _ _ _ (λ claim h. tt))
                  (λ claim _.
                    let is_approved = approved_of current ready in
                    apply_with_git-Holds store id current now sound (
                      update_ref-IsBacked store id current found is_approved
                        (approved-independent current row_sound is_approved))))))))

    pub apply-Holds :
        (store : Store) (promotion_id authority_subject : Text) (now : ℕ)
        → IsSound store.promotions
        → Holds
            (IsBacked store.promotions)
            (Promotes store)
            (apply to_lower git store promotion_id authority_subject now)
    unfolding apply
    apply-Holds store promotion_id authority_subject now sound =
        Holds-bind _ (λ id. Unit {0}) _ _ _ (Holds-done _ _ _ (λ id h. tt))
          (λ id _.
            Holds-bind _ (λ current. find_row (λ p. p.id) store.promotions id ≡ some current) _ _ _
              (Holds-done _ _ _ (λ current h. get_promotion-found store.promotions id current h))
              (λ current found.
                Holds-bind _ (λ authority. Unit {0}) _ _ _ (Holds-done _ _ _ (λ authority h. tt))
                  (λ authority _. apply_row-Holds store id current authority now sound found)))

    request_unless-Holds :
        (store : Store) (input : RequestInput) (id : Text) (now : ℕ)
        (o : Option SelfHostingPromotion)
        → IsSound store.promotions
        → Holds
            (IsBacked store.promotions)
            (Leaves store)
            (request_unless to_lower git store input id now o)
    unfolding insert_promotion
    request_unless-Holds store input id now (some current) sound = Holds-done _ _ _ (λ r h.
        elim (Bool-cases (not (replay_matches to_lower current input))) [
          | inl differs ↦ absurd (err-ne-ok (if_true _ _ differs h))
          | inr repeated ↦
              subst (Leaves store) (ok-injective (if_false _ _ repeated h))
                (Leaves-self store current sound)
        ])
    request_unless-Holds store input id now none sound =
        Holds-bind _ (λ claim. Unit {0}) _ _ _ (Holds-done _ _ _ (λ claim h. tt))
          (λ claim _.
            Holds-bind _ (λ checked. Unit {0}) _ _ _
              (validate_git_state-Holds store.promotions store input.project_id input.candidate_sha
                input.expected_parent_sha input.target_ref)
              (λ checked _. Holds-done _ _ _ (λ r h. inserted claim.subject r h)))
      where
        inserted :
            (subject : Text) (r : SelfHostingPromotion × Store)
            → insert_promotion to_lower store input id subject now ≡ ok r
            → Leaves store r
        inserted subject r h =
            insert_unless-Leaves store input id subject now
              (find_replay to_lower store.promotions input) r sound h

    pub request-Holds :
        (store : Store) (input : RequestInput) (id : Text) (now : ℕ)
        → IsSound store.promotions
        → Holds (IsBacked store.promotions) (Leaves store) (request to_lower git store input id now)
    unfolding request request_trimmed
    request-Holds store input id now sound = given input.project_id _ (λ a.
        given input.idempotency_key _ (λ b. given input.claim_id _ (λ c.
          given input.candidate_sha _ (λ d. given input.expected_parent_sha _ (λ e.
            given input.target_ref _ (λ f.
              given input.requested_by _ (λ g. request_unless-Holds store _ id now _ sound)))))))
      where
        given :
            (value : Text) (next : Text → Run (SelfHostingPromotion × Store))
            → ((t : Text) → Holds (IsBacked store.promotions) (Leaves store) (next t))
            → Holds
                (IsBacked store.promotions)
                (Leaves store)
                (done (required required_missing value) >>>= next)
        given value next h =
            Holds-bind _ (λ t. Unit {0}) _ _ next (Holds-done _ _ _ (λ t k. tt)) (λ t _. h t)
