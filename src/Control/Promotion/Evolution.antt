-- ===== src/Control/Promotion/Evolution.antt =====
-- control/src/promotionAuthority.ts: how the rows of promotions go on.
use charterion.Control.Rows.History.{History}
use charterion.Prelude.{
  ◌≡◌, ◌⊎◌, refl, ◌∙◌, Text, Option, none, some, List, Bool, true, false, not, ◌&&◌, arith, same,
  truthy, is_some, All, inl, inr,
}
use charterion.Control.Rows.{unique_rows}
use charterion.Control.Promotion.{
  SelfHostingPromotion, PromotionStatus, same_status, pending, approved, rejected, promoted,
}

-- Decided by somebody who is not the author of the candidate.
abbrev pub independent : Option Text → Text → Bool
independent none candidate_subject = false
independent (some authority) candidate_subject =
    truthy authority && not (same authority candidate_subject)

abbrev pub is_sound : SelfHostingPromotion → Bool
is_sound p = elim p.status [
  | pending ↦ not (is_some p.decision_by) && not (is_some p.promoted_at)
  | approved ↦ independent p.decision_by p.candidate_subject && not (is_some p.promoted_at)
  | rejected ↦ independent p.decision_by p.candidate_subject && not (is_some p.promoted_at)
  | promoted ↦ independent p.decision_by p.candidate_subject && is_some p.promoted_at
]

-- The ids are distinct and every row is sound.
abbrev pub IsSound : List SelfHostingPromotion → Type 0
IsSound rows = (unique_rows (λ p. p.id) rows ≡ true) × All (λ p. is_sound p ≡ true) rows

abbrev pub may_become : PromotionStatus → PromotionStatus → Bool
may_become pending _ = true
may_become approved approved = true
may_become approved promoted = true
may_become rejected rejected = true
may_become promoted promoted = true
may_become _ _ = false

-- What a later row keeps of an earlier one: the facts always, the decision once it was taken.
pub record Evolves (p q : SelfHostingPromotion) : Type 0 where
  pub same_id : q.id ≡ p.id
  pub same_subject : q.candidate_subject ≡ p.candidate_subject
  pub same_candidate : q.candidate_sha ≡ p.candidate_sha
  pub same_target : q.target_ref ≡ p.target_ref
  pub same_parent : q.expected_parent_sha ≡ p.expected_parent_sha
  pub moved : may_become p.status q.status ≡ true
  pub kept :
      (same_status p.status pending ≡ true)
      ⊎ ((q.decision_by ≡ p.decision_by) × (q.decision_reason ≡ p.decision_reason))

may_become_self : (s : PromotionStatus) → may_become s s ≡ true
may_become_self pending = refl
may_become_self approved = refl
may_become_self rejected = refl
may_become_self promoted = refl

pub Evolves-self : (p : SelfHostingPromotion) → Evolves p p
Evolves-self p = record {
  same_id = refl;
  same_subject = refl;
  same_candidate = refl;
  same_target = refl;
  same_parent = refl;
  moved = may_become_self p.status;
  kept = inr (refl, refl);
}

may_become_trans :
    (a b c : PromotionStatus)
    → may_become a b ≡ true
    → may_become b c ≡ true
    → may_become a c ≡ true
may_become_trans a b c h k = ground arith

pub Evolves-trans : (p q r : SelfHostingPromotion) → Evolves p q → Evolves q r → Evolves p r
Evolves-trans p q r h k = record {
  same_id = k.same_id ∙ h.same_id;
  same_subject = k.same_subject ∙ h.same_subject;
  same_candidate = k.same_candidate ∙ h.same_candidate;
  same_target = k.same_target ∙ h.same_target;
  same_parent = k.same_parent ∙ h.same_parent;
  moved = may_become_trans p.status q.status r.status h.moved k.moved;
  kept = elim h.kept [
    | inl open_row ↦ inl open_row
    | inr (by, reason) ↦ elim k.kept [
      | inl open_later ↦ inl (still_pending p.status q.status h.moved open_later)
      | inr (by', reason') ↦ inr (by' ∙ by, reason' ∙ reason)
    ]
  ];
}
  where
    still_pending :
        (a b : PromotionStatus)
        → may_become a b ≡ true
        → same_status b pending ≡ true
        → same_status a pending ≡ true
    still_pending a b m n = ground arith

-- The history of promotions.
abbrev pub promotion_history : History SelfHostingPromotion
promotion_history = record {
  evolves = Evolves;
  unchanged = Evolves-self;
  then_changed = Evolves-trans;
}
