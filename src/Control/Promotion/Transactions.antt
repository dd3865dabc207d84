-- ===== src/Control/Promotion/Transactions.antt =====
-- control/src/promotionAuthority.ts: what the transactions of the authority do to the rows.
use charterion.Control.Rows.History.{GoesOn, GoesOn-self, GoesOn-update}
use charterion.Control.Runs.{or_throw}
use charterion.Prelude.{
  ℕ, ◌≡◌, sym, subst, ap, Text, Option, none, some, List, Bool, true, false, not, arith, if_true,
  if_false, Bool-cases, inl, inr, ok, ◌>>=◌, >>=-eq-ok, throw_if-ok, ok-injective, err-ne-ok,
}
use charterion.Control.Rows.{
  find_row, update_rows, update_rows-All, unique_rows-update, find_row-All,
}
use charterion.Control.Promotion.{
  SelfHostingPromotion, Store, PromotionError, PromotionDecision, get_promotion, mark_promoted,
  mark_latest, confirm_promoted, commit_decision, confirm_decision, set_promoted, set_decision,
  same_status, approved, promoted, desired, add_event, cannot_finalize, lost_race, applied,
  promotion_missing,
}
use charterion.Control.Promotion.Rows.{Evolves-decision, Evolves-promoted}
use charterion.Control.Promotion.Evolution.{IsSound, is_sound, independent, promotion_history}

-- What an operation leaves: a sound table in which every row goes on.
abbrev pub Leaves : Store → SelfHostingPromotion × Store → Type 0
Leaves store r = IsSound r.1.promotions × GoesOn promotion_history store.promotions r.1.promotions

pub Leaves-self :
    (store : Store) (p : SelfHostingPromotion) → IsSound store.promotions → Leaves store (p, store)
Leaves-self store p sound = (sound, GoesOn-self promotion_history store.promotions)

or_throw-ok :
    {A : Type 0} (e : PromotionError) (o : Option A) (a : A) → or_throw e o ≡ ok a → o ≡ some a
or_throw-ok e none a h = absurd (err-ne-ok h)
or_throw-ok e (some b) a h = ap some (ok-injective h)

pub get_promotion-found :
    (rows : List SelfHostingPromotion) (id : Text) (p : SelfHostingPromotion)
    → get_promotion rows id ≡ ok p
    → find_row (λ q. q.id) rows id ≡ some p
unfolding get_promotion
get_promotion-found rows id p h = or_throw-ok promotion_missing (find_row (λ q. q.id) rows id) p h

set_promoted_sound :
    (now : ℕ) (p : SelfHostingPromotion) → is_sound p ≡ true → is_sound (set_promoted now p) ≡ true
unfolding set_promoted
set_promoted_sound now p h = ground arith

set_promoted-id : (now : ℕ) (p : SelfHostingPromotion) → (set_promoted now p).id ≡ p.id
unfolding set_promoted
set_promoted-id now p = ground arith

set_decision-id :
    (decision : PromotionDecision) (authority reason : Text) (now : ℕ) (p : SelfHostingPromotion)
    → (set_decision (desired decision) authority reason now p).id ≡ p.id
unfolding set_decision
set_decision-id decision authority reason now p = ground arith

set_decision_sound :
    (decision : PromotionDecision) (authority reason : Text) (now : ℕ) (p : SelfHostingPromotion)
    → independent (some authority) p.candidate_subject ≡ true
    → is_sound p ≡ true
    → is_sound (set_decision (desired decision) authority reason now p) ≡ true
unfolding set_decision
set_decision_sound decision authority reason now p other h = ground arith

mark_rows-Leaves :
    (store : Store) (latest next : SelfHostingPromotion) (id : Text) (now : ℕ)
    → IsSound store.promotions
    → find_row (λ p. p.id) store.promotions id ≡ some latest
    → Leaves store (
      next,
      add_event store
          (update_rows (λ p. p.id) (set_promoted now) store.promotions id)
          next.project_id
          applied
          next.id
          now,
    )
mark_rows-Leaves store latest next id now sound found = (
  (
    unique_rows-update (λ p. p.id) (set_promoted now) store.promotions id (set_promoted-id now)
        sound.0,
    update_rows-All (λ p. p.id) (λ p. is_sound p ≡ true) (λ p. is_sound p ≡ true) (set_promoted now)
        store.promotions id latest sound.0 found
        (set_promoted_sound now latest
          (find_row-All (λ p. p.id) (λ p. is_sound p ≡ true) store.promotions id latest found
            sound.1).0)
        (λ p h. h) sound.1,
  ),
  GoesOn-update promotion_history (λ p. p.id) (set_promoted now) store.promotions id
      (Evolves-promoted now),
)

not-false : (b : Bool) → not b ≡ false → b ≡ true
not-false b h = ground arith

mark_latest-Leaves :
    (store : Store) (id : Text) (now : ℕ) (latest : SelfHostingPromotion)
    (r : SelfHostingPromotion × Store)
    → IsSound store.promotions
    → find_row (λ p. p.id) store.promotions id ≡ some latest
    → latest.id ≡ id
    → mark_latest store now latest ≡ ok r
    → Leaves store r × (same_status r.0.status promoted ≡ true)
mark_latest-Leaves store id now latest r sound found is_id h =
    elim (Bool-cases (same_status latest.status promoted)) [
      | inl before ↦
          let is_r : (latest, store) ≡ r =
            ok-injective (if_true (same_status latest.status promoted) _ before h) in
          subst (λ q. Leaves store q × (same_status q.0.status promoted ≡ true)) is_r
            (Leaves-self store latest sound, before)
      | inr new ↦
          let rows = update_rows (λ p. p.id) (set_promoted now) store.promotions latest.id in
          let (is_approved, confirmed) =
            throw_if-ok (not (same_status latest.status approved)) cannot_finalize
              (get_promotion rows latest.id >>= confirm_promoted store rows now)
              (if_false (same_status latest.status promoted) _ new h) in
          let (next, read, last) =
            >>=-eq-ok (get_promotion rows latest.id) (confirm_promoted store rows now) confirmed in
          let result : SelfHostingPromotion × Store =
            (next, add_event store rows next.project_id applied next.id now) in
          let (is_promoted, returned) =
            throw_if-ok (not (same_status next.status promoted)) lost_race (ok result) last in
          let at_id =
            subst (λ i. find_row (λ p. p.id) store.promotions i ≡ some latest) (sym is_id) found in
          subst (λ q. Leaves store q × (same_status q.0.status promoted ≡ true))
            (ok-injective returned)
            (
              mark_rows-Leaves store latest next latest.id now sound at_id,
              not-false (same_status next.status promoted) is_promoted,
            )
    ]

-- A row that `markPromoted` returns is promoted.
pub mark_promoted-Leaves :
    (store : Store) (id : Text) (now : ℕ) (r : SelfHostingPromotion × Store)
    → IsSound store.promotions
    → mark_promoted store id now ≡ ok r
    → Leaves store r × (same_status r.0.status promoted ≡ true)
unfolding mark_promoted
mark_promoted-Leaves store id now r sound h =
    let (latest, read, marked) =
      >>=-eq-ok (get_promotion store.promotions id) (mark_latest store now) h in
    let found = get_promotion-found store.promotions id latest read in
    mark_latest-Leaves store id now latest r sound found
      (find_row-All (λ p. p.id) (λ p. is_sound p ≡ true) store.promotions id latest found sound.1).1
      marked

pub commit_decision-Leaves :
    (store : Store) (id : Text) (current : SelfHostingPromotion) (decision : PromotionDecision)
    (authority reason : Text) (now : ℕ) (r : SelfHostingPromotion × Store)
    → IsSound store.promotions
    → find_row (λ p. p.id) store.promotions id ≡ some current
    → independent (some authority) current.candidate_subject ≡ true
    → commit_decision store current decision authority reason now ≡ ok r
    → Leaves store r
unfolding commit_decision
commit_decision-Leaves store id current decision authority reason now r sound found other h =
    let change = set_decision (desired decision) authority reason now in
    let rows = update_rows (λ p. p.id) change store.promotions current.id in
    let (next, read, confirmed) =
      >>=-eq-ok (get_promotion rows current.id)
        (confirm_decision store rows current decision authority now) h in
    let (kept, returned) = throw_if-ok _ _ _ confirmed in
    let (row_sound, is_id) =
      find_row-All (λ p. p.id) (λ p. is_sound p ≡ true) store.promotions id current found sound.1 in
    let at_id =
      subst (λ i. find_row (λ p. p.id) store.promotions i ≡ some current) (sym is_id) found in
    subst (Leaves store) (ok-injective returned) (
      (
        unique_rows-update (λ p. p.id) change store.promotions current.id
            (set_decision-id decision authority reason now) sound.0,
        update_rows-All (λ p. p.id) (λ p. is_sound p ≡ true) (λ p. is_sound p ≡ true) change
            store.promotions current.id current sound.0 at_id
            (set_decision_sound decision authority reason now current other row_sound) (λ p k. k)
            sound.1,
      ),
      GoesOn-update promotion_history (λ p. p.id) change store.promotions current.id
          (Evolves-decision (desired decision) authority reason now),
    )
