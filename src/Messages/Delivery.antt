-- ===== src/Messages/Delivery.antt =====
-- src/messageBus.ts: what holds of every tab that a message is planned for.
use charterion.Prelude.{
  ℕ, Text, ◌≡◌, refl, sym, subst, Option, none, some, List, [], ◌∷◌, map, Bool, true, false, not,
  ◌||◌, ◌&&◌, arith, same, includes, text_eq, get, filter, any, All, All-map, Bool-cases, inl, inr,
  ◌==◌, Result, ok, err, >>=-eq-ok, throw_if, throw_if-ok, or_else, trim, ok-injective, ◌>>◌,
}
use charterion.Contracts.{AgentMessage, ManagedTab, SendAttemptRecord, is_idle}
use charterion.Messages.{
  PlanError, MessageDispatchPlan, plan_message_dispatch, validate_agent_message, plan_for,
  pending_tabs, check_tab, recipients, planned, consumed_message_conversations, left, left_project,
  left_role, not_reusable, tab_has_unresolved_attempt,
}
use charterion.Messages.Index.{IsOf, IsIndexOf, index-IsIndexOf, All-IsOf}
use charterion.Messages.Consumed.{has_delivery, consumed_complete}

-- The tab may be sent the message.
unfoldable pub is_deliverable : AgentMessage → List SendAttemptRecord → ManagedTab → Bool
is_deliverable m attempts tab =
    same (trim tab.binding.project) m.project
    && not (left m.target tab)
    && is_idle tab.snapshot.status
    && not (tab_has_unresolved_attempt tab)
    && not (has_delivery m attempts tab.snapshot.conversation_key)

-- A tab that passes the last checks.
check_tab-ok :
    (m : AgentMessage) (key : Text) (found : List ManagedTab) (tab : ManagedTab)
    → check_tab m key found ≡ ok tab
    → (found ≡ tab ∷ [])
      × (same (trim tab.binding.project) m.project ≡ true)
      × (left m.target tab ≡ false)
      × (is_idle tab.snapshot.status ≡ true)
      × (tab_has_unresolved_attempt tab ≡ false)
unfolding check_tab
check_tab-ok m key [] tab h = cc
check_tab-ok m key (t ∷ u ∷ ts) tab h = cc
check_tab-ok m key (t ∷ []) tab h =
    let busy = not (is_idle t.snapshot.status) || tab_has_unresolved_attempt t in
    let last : Result PlanError ManagedTab = throw_if busy (not_reusable key) >> ok t in
    let next : Result PlanError ManagedTab = throw_if (left m.target t) (left_role key) >> last in
    let (home, h₁) =
      throw_if-ok (not (same (trim t.binding.project) m.project)) (left_project key) next h in
    let (there, h₂) = throw_if-ok (left m.target t) (left_role key) last h₁ in
    let (free, h₃) = throw_if-ok busy (not_reusable key) (ok t) h₂ in
    let is_tab : t ≡ tab = ok-injective h₃ in
    subst
      (λ u.
        (t ∷ [] ≡ u ∷ [])
        × (same (trim u.binding.project) m.project ≡ true)
        × (left m.target u ≡ false)
        × (is_idle u.snapshot.status ≡ true)
        × (tab_has_unresolved_attempt u ≡ false))
      is_tab (refl, ground arith, there, ground arith, ground arith)

All-filter : (p : Text → Bool) (xs : List Text) → All (λ x. p x ≡ true) (filter p xs)
unfolding filter
All-filter p [] = tt
All-filter p (x ∷ xs) = elim (Bool-cases (p x)) [
  | inl e ↦ rw e (e, All-filter p xs)
  | inr e ↦ rw e (All-filter p xs)
]

IsPlanned : AgentMessage → List SendAttemptRecord → List ManagedTab → ℕ → Type 0
IsPlanned m attempts tabs id =
    any (λ tab. tab.tab_id == id && is_deliverable m attempts tab) tabs ≡ true

checked-IsPlanned :
    (m : AgentMessage) (attempts : List SendAttemptRecord) (all : List ManagedTab)
    (index : List (Text × List ManagedTab)) (key : Text) (tab : ManagedTab)
    → IsIndexOf all index
    → has_delivery m attempts key ≡ false
    → check_tab m key (or_else (get index key) []) ≡ ok tab
    → IsPlanned m attempts all tab.tab_id
unfolding is_deliverable IsPlanned
checked-IsPlanned m attempts all index key tab good new h =
    let (only, home, there, idle, free) = check_tab-ok m key _ tab h in
    let (member, shows) = found (get index key) refl only in
    let undelivered = subst (λ k. has_delivery m attempts k ≡ false) (sym shows) new in
    member (λ t. t.tab_id == tab.tab_id && is_deliverable m attempts t)
      (ground (arith, home, there, idle, free, undelivered))
  where
    found :
        (o : Option (List ManagedTab))
        → get index key ≡ o
        → or_else o [] ≡ tab ∷ []
        → IsOf all tab × (tab.snapshot.conversation_key ≡ key)
    found none e only = cc
    found (some ts) e only =
        (subst (All (λ t. IsOf all t × (t.snapshot.conversation_key ≡ key))) only (good key ts e)).0

pending_tabs-IsPlanned :
    (m : AgentMessage) (attempts : List SendAttemptRecord) (all : List ManagedTab)
    (index : List (Text × List ManagedTab)) (keys : List Text) (chosen : List ManagedTab)
    → IsIndexOf all index
    → All (λ key. has_delivery m attempts key ≡ false) keys
    → pending_tabs m index keys ≡ ok chosen
    → All (IsPlanned m attempts all) (map (λ tab. tab.tab_id) chosen)
unfolding pending_tabs
pending_tabs-IsPlanned m attempts all index [] chosen good new h =
    subst (λ c. All (IsPlanned m attempts all) (map (λ tab. tab.tab_id) c)) (ok-injective h) tt
pending_tabs-IsPlanned m attempts all index (key ∷ keys) chosen good new h =
    let (tab, checked, h₁) = >>=-eq-ok (check_tab m key (or_else (get index key) [])) _ h in
    let (tabs, rest, h₂) = >>=-eq-ok (pending_tabs m index keys) _ h₁ in
    let made : tab ∷ tabs ≡ chosen = ok-injective h₂ in
    subst (λ c. All (IsPlanned m attempts all) (map (λ t. t.tab_id) c)) made
      (
        checked-IsPlanned m attempts all index key tab good new.0 checked,
        pending_tabs-IsPlanned m attempts all index keys tabs good new.1 rest,
      )

-- A message that is planned for a tab is planned for one that is open, idle and bound to the message's
-- project (and to its role, if it is for a role), that has no unresolved attempt, and whose conversation
-- no attempt of the message has reached or may have reached.
pub plan_message-IsDeliverable :
    (m : AgentMessage) (attempts : List SendAttemptRecord) (tabs : List ManagedTab)
    (plan : MessageDispatchPlan)
    → plan_message_dispatch m attempts tabs ≡ ok plan
    → All
        (λ id. any (λ tab. tab.tab_id == id && is_deliverable m attempts tab) tabs ≡ true)
        plan.tab_ids
unfolding plan_message_dispatch plan_for IsPlanned
plan_message-IsDeliverable m attempts tabs plan h =
    let (_, _, h₁) = >>=-eq-ok (validate_agent_message m) _ h in
    subst (λ p. All (IsPlanned m attempts tabs) p.tab_ids) (ok-injective h₁)
      (by_consumed (consumed_message_conversations m attempts) refl)
  where
    keys : Result PlanError (List Text)
    keys = recipients m tabs

    by_tabs :
        (ks : List Text) (o : Result PlanError (List ManagedTab))
        → ((chosen : List ManagedTab)
            → o ≡ ok chosen
            → All (IsPlanned m attempts tabs) (map (λ t. t.tab_id) chosen))
        → All (IsPlanned m attempts tabs) (planned ks o).tab_ids
    by_tabs ks (err e) good = tt
    by_tabs ks (ok chosen) good = good chosen refl

    by_keys :
        (consumed : List Text)
        → consumed_message_conversations m attempts ≡ ok consumed
        → (ks : Result PlanError (List Text))
        → All (IsPlanned m attempts tabs) (plan_for m tabs (ok consumed) ks).tab_ids
    by_keys consumed e (err f) = tt
    by_keys consumed e (ok ks) = by_tabs ks _ (λ chosen.
        pending_tabs-IsPlanned m attempts tabs _ _ chosen
          (index-IsIndexOf _ tabs tabs [] (λ key found f. absurd (unfold get in cc))
            (All-IsOf tabs))
          (All-map _
            (λ key (f : not (includes consumed key) ≡ true).
              consumed_complete m attempts consumed key e (ground arith))
            (All-filter (λ key. not (includes consumed key)) ks)))

    by_consumed :
        (o : Result PlanError (List Text))
        → consumed_message_conversations m attempts ≡ o
        → All (IsPlanned m attempts tabs) (plan_for m tabs o keys).tab_ids
    by_consumed (err f) e = tt
    by_consumed (ok consumed) e = by_keys consumed e keys
