-- ===== src/Control/Promotion/Rows.antt =====
-- control/src/promotionAuthority.ts: which commands the rows of promotions account for, and how updates
-- let them go on.
use charterion.Control.Rows.History.{AnyOf, AnyOf-map, GoesOn}
use charterion.Control.Runs.{Command}
use charterion.Prelude.{
  ℕ, ◌≡◌, ◌⊎◌, refl, sym, subst, ◌∙◌, Text, codes, some, List, [], ◌∷◌, Bool, true, false, arith,
  same, Bool-cases, inl, inr, some-eq, none-ne-some,
}
use charterion.Control.Rows.{find_row}
use charterion.Control.Promotion.{
  SelfHostingPromotion, PromotionStatus, same_status, pending, approved, promoted, set_decision,
  set_promoted,
}
use charterion.Control.Promotion.Evolution.{
  Evolves, Evolves-self, independent, may_become, promotion_history,
}

abbrev pub is_accepted : PromotionStatus → Bool
is_accepted approved = true
is_accepted promoted = true
is_accepted _ = false

abbrev pub is_update : List Text → Bool
is_update [] = false
is_update (command ∷ args) = same command (codes "update-ref")

-- The row that a command to move a ref is for.
abbrev pub Backs : List Text → SelfHostingPromotion → Type 0
Backs args p =
    (is_accepted p.status ≡ true)
    × (independent p.decision_by p.candidate_subject ≡ true)
    × (args ≡ (codes "update-ref" ∷ p.target_ref ∷ p.candidate_sha ∷ p.expected_parent_sha ∷ []))

-- The command moves no ref, or does what a row asks for that was accepted by another than its author:
-- it moves the row's target from the expected parent to the candidate.
abbrev pub IsBacked : List SelfHostingPromotion → Command → Type 0
IsBacked rows command = (is_update command.1 ≡ false) ⊎ AnyOf (Backs command.1) rows

Backs-Evolves :
    (args : List Text) (p q : SelfHostingPromotion) → Evolves p q → Backs args p → Backs args q
Backs-Evolves args p q e (accepted, by_other, is_args) =
    (accepted_later p.status q.status e.moved accepted, still e.kept, is_args ∙ sym facts)
  where
    accepted_later :
        (a b : PromotionStatus)
        → may_become a b ≡ true
        → is_accepted a ≡ true
        → is_accepted b ≡ true
    accepted_later a b m h = ground arith

    not_open : (a : PromotionStatus) → is_accepted a ≡ true → ¬ (same_status a pending ≡ true)
    not_open a h k = ground arith

    still :
        (same_status p.status pending ≡ true)
          ⊎ ((q.decision_by ≡ p.decision_by) × (q.decision_reason ≡ p.decision_reason))
        → independent q.decision_by q.candidate_subject ≡ true
    still (inl open_row) = absurd (not_open p.status accepted open_row)
    still (inr (by, reason)) = rw (by, e.same_subject) by_other

    facts :
        ◌≡◌ {A = List Text}
          (codes "update-ref" ∷ q.target_ref ∷ q.candidate_sha ∷ q.expected_parent_sha ∷ [])
          (codes "update-ref" ∷ p.target_ref ∷ p.candidate_sha ∷ p.expected_parent_sha ∷ [])
    facts = rw (e.same_target, e.same_candidate, e.same_parent) refl

pub IsBacked-GoesOn :
    (rows later : List SelfHostingPromotion) (c : Command)
    → GoesOn promotion_history rows later
    → IsBacked rows c
    → IsBacked later c
IsBacked-GoesOn rows later c g (inl other) = inl other
IsBacked-GoesOn rows later c g (inr a) = inr (follow rows a g)
  where
    follow :
        (from : List SelfHostingPromotion)
        → AnyOf (Backs c.1) from
        → GoesOn promotion_history from later
        → AnyOf (Backs c.1) later
    follow [] a g = absurd a
    follow (p ∷ from) (inl b) g = AnyOf-map later (λ q e. Backs-Evolves c.1 p q e b) g.0
    follow (p ∷ from) (inr a) g = follow from a g.1

pub Evolves-decision :
    (status : PromotionStatus) (authority reason : Text) (now : ℕ) (p : SelfHostingPromotion)
    → Evolves p (set_decision status authority reason now p)
unfolding set_decision
Evolves-decision status authority reason now p = elim (Bool-cases (same_status p.status pending)) [
  | inl open_row ↦ rw open_row (record {
    same_id = refl;
    same_subject = refl;
    same_candidate = refl;
    same_target = refl;
    same_parent = refl;
    moved = ground arith;
    kept = inl open_row;
  })
  | inr decided ↦ rw decided (Evolves-self p)
]

pub Evolves-promoted : (now : ℕ) (p : SelfHostingPromotion) → Evolves p (set_promoted now p)
unfolding set_promoted
Evolves-promoted now p = elim (Bool-cases (same_status p.status approved)) [
  | inl was_approved ↦ rw was_approved (record {
    same_id = refl;
    same_subject = refl;
    same_candidate = refl;
    same_target = refl;
    same_parent = refl;
    moved = ground arith;
    kept = inr (refl, refl);
  })
  | inr other_status ↦ rw other_status (Evolves-self p)
]

-- A row that is found stands in the table.
pub AnyOf-find :
    (rows : List SelfHostingPromotion) (id : Text) (p : SelfHostingPromotion)
    → find_row (λ q. q.id) rows id ≡ some p
    → (P : SelfHostingPromotion → Type 0) → P p
    → AnyOf P rows
unfolding find_row
AnyOf-find [] id p e P h = absurd (none-ne-some e)
AnyOf-find (q ∷ rows) id p e P h = elim (Bool-cases (same q.id id)) [
  | inl is_it ↦ let found : q ≡ p = some-eq (ground arith) in inl (subst P (sym found) h)
  | inr other ↦ inr (AnyOf-find rows id p (ground arith) P h)
]
