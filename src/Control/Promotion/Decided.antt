-- ===== src/Control/Promotion/Decided.antt =====
-- control/src/promotionAuthority.ts: `decide` keeps the rows sound.
use charterion.Control.Runs.{required}
use charterion.Prelude.{
  ℕ, ◌≡◌, subst, Text, some, true, false, arith, same, trim, truthy, if_true, if_false, Bool-cases,
  inl, inr, ok, ok-injective, err-ne-ok,
}
use charterion.Control.Rows.{find_row}
use charterion.Control.Promotion.{
  required_missing, SelfHostingPromotion, Store, PromotionDecision, commit_decision,
}
use charterion.Control.Promotion.Operations.{decide_row, decide}
use charterion.Control.Runs.Holds.{Holds, Holds-done, Holds-bind, Holds-guard, Holds-choose}
use charterion.Control.Promotion.Rows.{IsBacked}
use charterion.Control.Promotion.Evolution.{IsSound, independent}
use charterion.Control.Promotion.Transactions.{
  Leaves, Leaves-self, get_promotion-found, commit_decision-Leaves,
}

module _ (to_lower : Text → Text) where
  -- The guard on the author lets another authority pass.
  other_of :
      (authority subject : Text)
      → same authority subject ≡ false
      → truthy authority ≡ true
      → independent (some authority) subject ≡ true
  other_of authority subject h k = ground arith

  required-truthy : (value t : Text) → required required_missing value ≡ ok t → truthy t ≡ true
  required-truthy value t h = elim (Bool-cases (truthy (trim value))) [
    | inl there ↦ subst (λ s. truthy s ≡ true) (ok-injective (if_true _ _ there h)) there
    | inr blank ↦ absurd (err-ne-ok (if_false _ _ blank h))
  ]

  decide_row-Holds :
      (store : Store) (id : Text) (current : SelfHostingPromotion) (decision : PromotionDecision)
      (authority reason : Text) (now : ℕ)
      → IsSound store.promotions
      → find_row (λ p. p.id) store.promotions id ≡ some current
      → truthy authority ≡ true
      → Holds
          (IsBacked store.promotions)
          (Leaves store)
          (decide_row to_lower store current decision authority reason now)
  unfolding decide_row
  decide_row-Holds store id current decision authority reason now sound found there =
      Holds-guard _ _ _ _ _ (λ not_own.
        let committed =
          Holds-done (IsBacked store.promotions) (Leaves store)
            (commit_decision store current decision authority reason now)
            (λ r h.
              commit_decision-Leaves store id current decision authority reason now r sound found
                (other_of authority current.candidate_subject not_own there) h) in
        Holds-guard _ _ _ _ _ (λ valid.
          Holds-choose _ _ _ _ _
            (λ before. Holds-guard _ _ _ _ _ (λ repeated.
              Holds-done _ _ _
                (λ r h. subst (Leaves store) (ok-injective h) (Leaves-self store current sound))))
            (λ open_row.
              Holds-choose _ _ _ _ _
                (λ approves.
                  Holds-bind _ (λ claim. Unit {0}) _ _ _ (Holds-done _ _ _ (λ claim h. tt))
                    (λ claim _. committed))
                (λ rejects. committed))))

  pub decide-Holds :
      (store : Store) (promotion_id authority_subject : Text) (decision : PromotionDecision)
      (reason : Text) (now : ℕ)
      → IsSound store.promotions
      → Holds
          (IsBacked store.promotions)
          (Leaves store)
          (decide to_lower store promotion_id authority_subject decision reason now)
  unfolding decide
  decide-Holds store promotion_id authority_subject decision reason now sound =
      Holds-bind _ (λ id. Unit {0}) _ _ _ (Holds-done _ _ _ (λ id h. tt))
        (λ id _.
          Holds-bind _ (λ current. find_row (λ p. p.id) store.promotions id ≡ some current) _ _ _
            (Holds-done _ _ _ (λ current h. get_promotion-found store.promotions id current h))
            (λ current found.
              Holds-bind _ (λ authority. truthy authority ≡ true) _ _ _
                (Holds-done _ _ _ (λ authority h. required-truthy authority_subject authority h))
                (λ authority there.
                  Holds-bind _ (λ t. Unit {0}) _ _ _ (Holds-done _ _ _ (λ t h. tt))
                    (λ t _.
                      decide_row-Holds store id current decision authority t now sound found
                        there))))
