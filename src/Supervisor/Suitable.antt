-- ===== src/Supervisor/Suitable.antt =====
-- src/supervisor.ts: a tab is given to a ready task that it suits, and to no other.
use charterion.Prelude.{
  ℕ, zero, suc, ◌+◌, ◌≡◌, refl, sym, subst, Text, Option, none, some, List, [], ◌∷◌, Bool, true,
  not, ◌&&◌, ◌||◌, truthy, trim, if◌then◌else◌, arith, ◌==◌, same, same_refl, is_some, includes,
  nat_eq, get, get-put_cases, any, All, All-map, Bool-cases, inl, inr, Distinct, length, some-eq,
  none-ne-some,
}
use charterion.Contracts.{AgentTask, ManagedTask, ManagedTab, is_idle}
use charterion.Roles.{role_match_score}
use charterion.Supervisor.{
  DispatchDecision, TaskCandidate, TaskCandidates, is_ready, select, allocate, collect,
  better_candidate, decided, candidate_score, candidates_for_task, ready_candidates, insert_item,
  allocation_order, comes_first, plan_ready_dispatches, tab_flexibility, attempt_allows_dispatch,
}
use charterion.Supervisor.Allocation.{
  assigned, collect-Distinct, allocate-Fair, collect-none, collect-some,
}

module _ (to_lower : Text → Text) where
  -- The tab is idle, its last attempt allows another prompt, and it is bound to the task's project,
  -- where the task names one, and to a compatible role.
  unfoldable pub tab_suits : AgentTask → ManagedTab → Bool
  tab_suits t tab =
      is_idle tab.snapshot.status
      && attempt_allows_dispatch t tab
      && (not (truthy t.project) || same (trim tab.binding.project) t.project)
      && is_some (role_match_score to_lower t.target_role tab.binding.role)

  scored_suits :
      (t : AgentTask) (tab : ManagedTab) (score : ℕ)
      → candidate_score to_lower t tab ≡ some score
      → tab_suits t tab ≡ true
  unfolding candidate_score tab_suits
  scored_suits t tab score e = ground arith

  -- A tab of this number suits the task.
  unfoldable pub suits : List ManagedTab → AgentTask → ℕ → Bool
  suits tabs t id = any (λ tab. tab.tab_id == id && tab_suits t tab) tabs

  unfoldable pub decision_suits : List ManagedTask → List ManagedTab → Text → Option ℕ → Bool
  decision_suits tasks tabs task_id none = true
  decision_suits tasks tabs task_id (some id) =
      any (λ m. is_ready m.status && same m.task.id task_id && suits tabs m.task id) tasks

  -- A decision without a tab, or for a ready task that the tab suits.
  abbrev pub IsSuitable : List ManagedTask → List ManagedTab → DispatchDecision → Type 0
  IsSuitable tasks tabs d = decision_suits tasks tabs d.task_id d.tab_id ≡ true

  suits_more :
      (t : AgentTask) (tab : ManagedTab) (tabs : List ManagedTab) (id : ℕ)
      → suits tabs t id ≡ true
      → suits (tab ∷ tabs) t id ≡ true
  unfolding suits any
  suits_more t tab tabs id h = ground arith

  suits_here :
      (t : AgentTask) (tab : ManagedTab) (tabs : List ManagedTab) (score : ℕ)
      → candidate_score to_lower t tab ≡ some score
      → suits (tab ∷ tabs) t tab.tab_id ≡ true
  unfolding suits any
  suits_here t tab tabs score h = rw (scored_suits t tab score h) (ground arith)

  -- The candidates of a task are tabs that suit it.
  candidates_suit :
      (t : AgentTask) (tabs : List ManagedTab)
      → All (λ c. suits tabs t c.tab.tab_id ≡ true) (candidates_for_task to_lower t tabs)
  unfolding candidates_for_task
  candidates_suit t [] = tt
  candidates_suit t (tab ∷ tabs) = go (candidate_score to_lower t tab) refl (
      All-map (candidates_for_task to_lower t tabs) (λ c. suits_more t tab tabs c.tab.tab_id)
        (candidates_suit t tabs))
    where
      rest : List TaskCandidate
      rest = candidates_for_task to_lower t tabs

      go :
          (o : Option ℕ)
          → candidate_score to_lower t tab ≡ o
          → All (λ c. suits (tab ∷ tabs) t c.tab.tab_id ≡ true) rest
          → All
              (λ c. suits (tab ∷ tabs) t c.tab.tab_id ≡ true)
              (elim o [ none ↦ rest | some score ↦ record { tab = tab; score = score } ∷ rest ])
      go none e h = h
      go (some score) e h = (suits_here t tab tabs score e, h)

  -- Every candidate of an item is suitable for its task.
  abbrev IsGood : List ManagedTask → List ManagedTab → TaskCandidates → Type 0
  IsGood tasks tabs item =
      All (λ c. decision_suits tasks tabs item.managed.task.id (some c.tab.tab_id) ≡ true)
        item.candidates

  decision_more :
      (m : ManagedTask) (tasks : List ManagedTask) (tabs : List ManagedTab) (task_id : Text)
      (id : ℕ)
      → decision_suits tasks tabs task_id (some id) ≡ true
      → decision_suits (m ∷ tasks) tabs task_id (some id) ≡ true
  unfolding decision_suits any
  decision_more m tasks tabs task_id id h = ground arith

  decision_here :
      (m : ManagedTask) (tasks : List ManagedTask) (tabs : List ManagedTab) (id : ℕ)
      → is_ready m.status ≡ true
      → suits tabs m.task id ≡ true
      → decision_suits (m ∷ tasks) tabs m.task.id (some id) ≡ true
  unfolding decision_suits any
  decision_here m tasks tabs id h k = ground (arith, same_refl m.task.id)

  ready_candidates-IsGood :
      (index : ℕ) (tasks : List ManagedTask) (tabs : List ManagedTab)
      → All (IsGood tasks tabs) (ready_candidates to_lower index tasks tabs)
  unfolding ready_candidates
  ready_candidates-IsGood index [] tabs = tt
  ready_candidates-IsGood index (m ∷ ms) tabs =
      let rest =
        All-map (ready_candidates to_lower (index + 1) ms tabs)
          (λ item.
            All-map item.candidates
              (λ c. decision_more m ms tabs item.managed.task.id c.tab.tab_id))
          (ready_candidates-IsGood (index + 1) ms tabs) in
      elim (Bool-cases (is_ready m.status)) [
        | inl is_it ↦ rw is_it (
          All-map (candidates_for_task to_lower m.task tabs)
              (λ c. decision_here m ms tabs c.tab.tab_id is_it) (candidates_suit m.task tabs),
          rest,
        )
        | inr not_it ↦ rw not_it rest
      ]

insert-All :
    (locale_le : Text → Text → Bool) (P : TaskCandidates → Type 0) (item : TaskCandidates)
    (items : List TaskCandidates)
    → P item
    → All P items
    → All P (insert_item locale_le item items)
unfolding insert_item
insert-All locale_le P item [] h k = (h, tt)
insert-All locale_le P item (other ∷ others) h k =
    elim (Bool-cases (comes_first locale_le item other)) [
      | inl before ↦ rw before (h, k)
      | inr after ↦ rw after (k.0, insert-All locale_le P item others h k.1)
    ]

allocation_order-All :
    (locale_le : Text → Text → Bool) (P : TaskCandidates → Type 0) (items : List TaskCandidates)
    → All P items
    → All P (allocation_order locale_le items)
unfolding allocation_order
allocation_order-All locale_le P [] h = tt
allocation_order-All locale_le P (item ∷ items) h =
    insert-All locale_le P item (allocation_order locale_le items) h.0
      (allocation_order-All locale_le P items h.1)

-- What holds of every candidate holds of the selected one.
select-All :
    (P : TaskCandidate → Type 0) (claimed : List ℕ) (flexibility : List (ℕ × ℕ))
    (cs : List TaskCandidate) (selected : Option TaskCandidate) (c : TaskCandidate)
    → All P cs
    → ((d : TaskCandidate) → selected ≡ some d → P d)
    → select claimed flexibility cs selected ≡ some c
    → P c
unfolding select
select-All P claimed flexibility [] selected c h before e = before c e
select-All P claimed flexibility (d ∷ cs) selected c h before e =
    select-All P claimed flexibility cs _ c h.1 next e
  where
    next :
        (b : TaskCandidate)
        → (if includes claimed d.tab.tab_id
            then selected
            else if better_candidate d selected flexibility
            then some d
            else selected)
          ≡ some b
        → P b
    next b k =
        elim (Bool-cases
          (not (includes claimed d.tab.tab_id) && better_candidate d selected flexibility)) [
            | inl takes ↦ let is_b : d ≡ b = some-eq (ground arith) in subst P is_b h.0
            | inr leaves ↦ before b (ground arith)
          ]

module _ (to_lower : Text → Text) (tasks : List ManagedTask) (tabs : List ManagedTab) where
  -- Every decision so far is suitable.
  abbrev AllSuitable : List (ℕ × DispatchDecision) → Type 0
  AllSuitable decisions =
      (i : ℕ) (d : DispatchDecision) → get decisions i ≡ some d → IsSuitable to_lower tasks tabs d

  allocate-AllSuitable :
      (flexibility : List (ℕ × ℕ)) (items : List TaskCandidates) (claimed : List ℕ)
      (decisions : List (ℕ × DispatchDecision))
      → All (IsGood to_lower tasks tabs) items
      → AllSuitable decisions
      → AllSuitable (allocate flexibility items claimed decisions)
  unfolding allocate decision_suits
  allocate-AllSuitable flexibility [] claimed decisions good h = h
  allocate-AllSuitable flexibility (item ∷ items) claimed decisions good h =
      allocate-AllSuitable flexibility items _ _ good.1 (λ i d e.
        elim (get-put_cases decisions item.index i
          (decided item (select claimed flexibility item.candidates none)) d e) [
            | inl (new, _) ↦
                subst (IsSuitable to_lower tasks tabs) new
                  (chosen (select claimed flexibility item.candidates none) refl)
            | inr old ↦ h i d old
          ])
    where
      chosen :
          (o : Option TaskCandidate)
          → select claimed flexibility item.candidates none ≡ o
          → IsSuitable to_lower tasks tabs (decided item o)
      chosen none e = refl
      chosen (some c) e =
          select-All
            (λ x.
              decision_suits to_lower tasks tabs item.managed.task.id (some x.tab.tab_id) ≡ true)
            claimed flexibility item.candidates none c good.0 (λ x k. absurd (none-ne-some k)) e

  collect-All :
      (decisions : List (ℕ × DispatchDecision)) (index count : ℕ)
      → AllSuitable decisions
      → All (IsSuitable to_lower tasks tabs) (collect index count decisions)
  unfolding collect
  collect-All decisions index zero h = tt
  collect-All decisions index (suc count) h =
      here (get decisions index) refl (collect-All decisions (index + 1) count h)
    where
      here :
          (o : Option DispatchDecision)
          → get decisions index ≡ o
          → All (IsSuitable to_lower tasks tabs) (collect (index + 1) count decisions)
          → All (IsSuitable to_lower tasks tabs) (collect index (suc count) decisions)
      here none e rest =
          subst (All (IsSuitable to_lower tasks tabs)) (sym (collect-none decisions index count e))
            rest
      here (some d) e rest =
          subst (All (IsSuitable to_lower tasks tabs))
            (sym (collect-some decisions index count d e)) (h index d e, rest)

-- Of the ready tasks no two get the same tab; and a tab is given only to a ready task that it suits: it
-- is idle, its last attempt allows another prompt, and it is bound to a compatible role and, where
-- the task names a project, to that project.
pub plan_ready-IsSuitable :
    (to_lower : Text → Text) (locale_le : Text → Text → Bool) (tasks : List ManagedTask)
    (tabs : List ManagedTab)
    → Distinct (assigned (plan_ready_dispatches to_lower locale_le tasks tabs))
      × All (IsSuitable to_lower tasks tabs) (plan_ready_dispatches to_lower locale_le tasks tabs)
unfolding plan_ready_dispatches
plan_ready-IsSuitable to_lower locale_le tasks tabs =
    let items = ready_candidates to_lower 0 tasks tabs in
    let flexibility = tab_flexibility items [] in
    let (claimed, fair) =
      allocate-Fair flexibility (allocation_order locale_le items) [] [] (record {
        claims = λ i d t h k. absurd (unfold get in cc);
        once = λ i j d e t h k l m. absurd (unfold get in cc);
      }) in
    (
      collect-Distinct claimed _ 0 (length tasks) fair,
      collect-All to_lower tasks tabs _ 0 (length tasks) (
          allocate-AllSuitable to_lower tasks tabs flexibility (allocation_order locale_le items) []
            []
            (allocation_order-All locale_le (IsGood to_lower tasks tabs) items
              (ready_candidates-IsGood to_lower 0 tasks tabs))
            (λ i d e. absurd (unfold get in cc))),
    )
