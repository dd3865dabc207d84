-- ===== src/Control/Promotion/Reachable.antt =====
-- control/src/promotionAuthority.ts: the authority as a system. A step is one operation, run with any
-- input and any answers of git, or a change that the other authorities make to the tables it reads.
use charterion.Control.Rows.History.{GoesOn, GoesOn-self, GoesOn-trans}
use charterion.Control.Runs.{Command, Git}
use charterion.Prelude.{ℕ, ◌≡◌, refl, Text, List, All, All-map, Result, ok, err}
use charterion.Control.Promotion.{
  SelfHostingPromotion, RequestInput, Store, PromotionDecision, PromotionError, ProjectRow,
  ClaimRow, VerificationRow, Run,
}
use charterion.Control.Promotion.Operations.{request, decide, apply}
use charterion.Control.Runs.Holds.{Holds}
use charterion.Control.Promotion.Rows.{IsBacked, IsBacked-GoesOn}
use charterion.Control.Promotion.Evolution.{IsSound, promotion_history}
use charterion.Control.Promotion.Transactions.{Leaves}
use charterion.Control.Promotion.Sound.{request-Holds, apply-Holds}
use charterion.Control.Promotion.Decided.{decide-Holds}

-- The tables, and every command that was issued.
pub record Authority : Type 0 where
  pub store : Store
  pub commands : List Command

-- A transaction that throws changes nothing; the commands have run all the same.
abbrev store_after : Store → Result PromotionError (SelfHostingPromotion × Store) → Store
store_after store (err e) = store
store_after store (ok r) = r.1

abbrev pub perform : Authority → (Store → Run (SelfHostingPromotion × Store)) → Authority
perform a operation = record {
  store = store_after a.store (operation a.store a.commands).0;
  commands = (operation a.store a.commands).1;
}

module _ (to_lower : Text → Text) where
  pub data Step (a : Authority) : Authority → Type 0 where
    requests :
        (git : Git) (input : RequestInput) (id : Text) (now : ℕ)
        → Step a (perform a (λ s. request to_lower git s input id now))
    decides :
        (promotion_id authority_subject : Text) (decision : PromotionDecision) (reason : Text)
        (now : ℕ)
        → Step a
            (perform a (λ s. decide to_lower s promotion_id authority_subject decision reason now))
    applies :
        (git : Git) (promotion_id authority_subject : Text) (now : ℕ)
        → Step a (perform a (λ s. apply to_lower git s promotion_id authority_subject now))
    others :
        (projects : List ProjectRow) (claims : List ClaimRow) (verifications : List VerificationRow)
        → Step a (record a {
          store = record a.store {
            projects = projects;
            claims = claims;
            verifications = verifications;
          };
        })

  pub data Reach (a : Authority) : Authority → Type 0 where
    start : Reach a a
    then_step : {b c : Authority} → Reach a b → Step b c → Reach a c

  -- Sound rows, which back every command.
  abbrev pub IsAccounted : Authority → Type 0
  IsAccounted a = IsSound a.store.promotions × All (IsBacked a.store.promotions) a.commands

  abbrev Continues : Authority → Authority → Type 0
  Continues a b = IsAccounted b × GoesOn promotion_history a.store.promotions b.store.promotions

  perform-Continues :
      (a : Authority) (operation : Store → Run (SelfHostingPromotion × Store))
      → Holds (IsBacked a.store.promotions) (Leaves a.store) (operation a.store)
      → IsAccounted a
      → Continues a (perform a operation)
  perform-Continues a operation holds (sound, backed) =
      go (operation a.store a.commands) (holds a.commands backed)
    where
      go :
          (r : Result PromotionError (SelfHostingPromotion × Store) × List Command)
          → All (IsBacked a.store.promotions) r.1
            × ((q : SelfHostingPromotion × Store) → r.0 ≡ ok q → Leaves a.store q)
          → Continues a (record { store = store_after a.store r.0; commands = r.1 })
      go (err e, log) (fine, leaves) =
          ((sound, fine), GoesOn-self promotion_history a.store.promotions)
      go (ok q, log) (fine, leaves) =
          let (sound_after, goes_on) = leaves q refl in
          (
            (
              sound_after,
              All-map log (λ c. IsBacked-GoesOn a.store.promotions q.1.promotions c goes_on) fine,
            ),
            goes_on,
          )

  Step-Continues : {a b : Authority} → Step a b → IsAccounted a → Continues a b
  Step-Continues {a} (requests git input id now) h =
      perform-Continues a (λ s. request to_lower git s input id now)
        (request-Holds to_lower git a.store input id now h.0) h
  Step-Continues {a} (decides promotion_id authority_subject decision reason now) h =
      perform-Continues a
        (λ s. decide to_lower s promotion_id authority_subject decision reason now)
        (decide-Holds to_lower a.store promotion_id authority_subject decision reason now h.0) h
  Step-Continues {a} (applies git promotion_id authority_subject now) h =
      perform-Continues a (λ s. apply to_lower git s promotion_id authority_subject now)
        (λ log fine.
          let (backed, leaves) =
            apply-Holds to_lower git a.store promotion_id authority_subject now h.0 log fine in
          (backed, λ r e. (leaves r e).0))
        h
  Step-Continues {a} (others projects claims verifications) h =
      (h, GoesOn-self promotion_history a.store.promotions)

  -- Whatever the operations are called with and git answers: the rows stay sound, so that a promotion
  -- is approved, rejected or promoted only by somebody who is not the author of its candidate; every
  -- `update-ref` that was ever issued moves the target of an accepted promotion from its expected
  -- parent to its candidate; and every row of the first table goes on in the last one, with the same
  -- facts, with the decision that it had, and in a status that may follow: a rejected one stays
  -- rejected, a promoted one promoted.
  pub Reach-IsAccounted :
      {a b : Authority}
      → Reach a b
      → IsAccounted a
      → IsAccounted b × GoesOn promotion_history a.store.promotions b.store.promotions
  Reach-IsAccounted {a} start h = (h, GoesOn-self promotion_history a.store.promotions)
  Reach-IsAccounted {a} (then_step {b} {c} r s) h =
      let (accounted, goes_on) = Reach-IsAccounted r h in
      let (accounted_after, next) = Step-Continues s accounted in
      (
        accounted_after,
        GoesOn-trans promotion_history a.store.promotions b.store.promotions c.store.promotions
            goes_on next,
      )
