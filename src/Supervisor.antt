-- ===== src/Supervisor.antt =====
-- src/supervisor.ts: which ready task goes to which tab. The parameters are `toLowerCase` and
-- `left.localeCompare(right) <= 0`, the order of the runtime's locale.
pub mod Allocation
pub mod Suitable
use charterion.Prelude.{
  ℕ, zero, suc, ◌+◌, Text, codes, Option, none, some, List, [], ◌∷◌, Bool, true, false, not, ◌||◌,
  ◌&&◌, if◌then◌else◌, leb, ltb, ◌==◌, same, same_option, starts_with, trim, truthy, present,
  or_else, includes, nat_eq, get, put, length,
}
use charterion.Contracts.{
  AgentTask, ManagedTask, ManagedTab, SendAttemptRecord, TaskDisplayStatus, is_idle, ready,
  uncertain, prepared, dispatched, acknowledged,
}
use charterion.Roles.{role_match_score}

-- The texts of the errors are left out: a decision without a tab is an error.
pub record DispatchDecision : Type 0 where
  pub task_id : Text
  pub tab_id : Option ℕ

abbrev allows : AgentTask → Option SendAttemptRecord → Bool
allows t none = true
allows t (some a) = elim a.state [
  | prepared ↦ false
  | dispatched ↦ false
  | acknowledged ↦ false
  | uncertain ↦ same_option t.retry_after_attempt_id (some a.attempt_id)
  | _ ↦ true
]

unfoldable pub attempt_allows_dispatch : AgentTask → ManagedTab → Bool
attempt_allows_dispatch t tab = allows t tab.last_attempt

pub record TaskCandidate : Type 0 where
  pub tab : ManagedTab
  pub score : ℕ

pub record TaskCandidates : Type 0 where
  pub managed : ManagedTask
  pub index : ℕ
  pub candidates : List TaskCandidate

abbrev pub is_ready : TaskDisplayStatus → Bool
is_ready ready = true
is_ready _ = false

unfoldable pub better_candidate : TaskCandidate → Option TaskCandidate → List (ℕ × ℕ) → Bool
better_candidate candidate none flexibility = true
better_candidate candidate (some current) flexibility =
    let candidate_flexibility = or_else (get flexibility candidate.tab.tab_id) 0 in
    let current_flexibility = or_else (get flexibility current.tab.tab_id) 0 in
    if not (candidate.score == current.score)
    then ltb current.score candidate.score
    else if not (candidate_flexibility == current_flexibility)
    then ltb candidate_flexibility current_flexibility
    else ltb candidate.tab.tab_id current.tab.tab_id

-- The counts of `tabFlexibility`: the tasks that a tab would serve.
unfoldable pub count_candidates : List TaskCandidate → List (ℕ × ℕ) → List (ℕ × ℕ)
count_candidates [] counts = counts
count_candidates (c ∷ cs) counts =
    count_candidates cs (put counts c.tab.tab_id (or_else (get counts c.tab.tab_id) 0 + 1))

unfoldable pub tab_flexibility : List TaskCandidates → List (ℕ × ℕ) → List (ℕ × ℕ)
tab_flexibility [] counts = counts
tab_flexibility (item ∷ items) counts =
    tab_flexibility items (count_candidates item.candidates counts)

-- The best candidate whose tab is not claimed.
unfoldable pub select :
    List ℕ → List (ℕ × ℕ) → List TaskCandidate → Option TaskCandidate → Option TaskCandidate
select claimed flexibility [] selected = selected
select claimed flexibility (c ∷ cs) selected = select claimed flexibility cs (
    if includes claimed c.tab.tab_id
    then selected
    else if better_candidate c selected flexibility
    then some c
    else selected)

abbrev decided : TaskCandidates → Option TaskCandidate → DispatchDecision
decided item none = record { task_id = item.managed.task.id; tab_id = none }
decided item (some c) = record { task_id = item.managed.task.id; tab_id = some c.tab.tab_id }

abbrev claim : Option TaskCandidate → List ℕ → List ℕ
claim none claimed = claimed
claim (some c) claimed = c.tab.tab_id ∷ claimed

-- The loop of the allocation, with `selectedByIndex`.
unfoldable pub allocate :
    List (ℕ × ℕ)
    → List TaskCandidates
    → List ℕ
    → List (ℕ × DispatchDecision)
    → List (ℕ × DispatchDecision)
allocate flexibility [] claimed decisions = decisions
allocate flexibility (item ∷ items) claimed decisions =
    let selected = select claimed flexibility item.candidates none in
    allocate flexibility items (claim selected claimed)
      (put decisions item.index (decided item selected))

-- The decisions for `count` indices from `index` on.
unfoldable pub collect : ℕ → ℕ → List (ℕ × DispatchDecision) → List DispatchDecision
collect index zero decisions = []
collect index (suc count) decisions =
    let rest = collect (index + 1) count decisions in
    elim (get decisions index) [ none ↦ rest | some d ↦ d ∷ rest ]

module _ (to_lower : Text → Text) where
  -- `undefined` is `none`.
  unfoldable pub candidate_score : AgentTask → ManagedTab → Option ℕ
  candidate_score t tab =
      if not (is_idle tab.snapshot.status) || not (attempt_allows_dispatch t tab)
      then none
      else if truthy t.project && not (same (trim tab.binding.project) t.project)
      then none
      else elim (role_match_score to_lower t.target_role tab.binding.role) [
        | none ↦ none
        | some score ↦ some (
            score
            + (if starts_with (codes "conversation:") tab.snapshot.conversation_key then 20 else 0)
            + (if present tab.binding.agent_slot_id then 10 else 0))
      ]

  unfoldable pub candidates_for_task : AgentTask → List ManagedTab → List TaskCandidate
  candidates_for_task t [] = []
  candidates_for_task t (tab ∷ tabs) =
      let rest = candidates_for_task t tabs in
      elim (candidate_score t tab) [
        | none ↦ rest
        | some score ↦ record { tab = tab; score = score } ∷ rest
      ]

  -- The ready tasks with their places from `index` on.
  unfoldable pub ready_candidates : ℕ → List ManagedTask → List ManagedTab → List TaskCandidates
  ready_candidates index [] tabs = []
  ready_candidates index (m ∷ ms) tabs =
      let rest = ready_candidates (index + 1) ms tabs in
      if is_ready m.status
      then record { managed = m; index = index; candidates = candidates_for_task m.task tabs }
        ∷ rest
      else rest

module _ (locale_le : Text → Text → Bool) where
  -- The comparator of the allocation order is not positive.
  unfoldable pub comes_first : TaskCandidates → TaskCandidates → Bool
  comes_first left right =
      if not (length left.candidates == length right.candidates)
      then ltb (length left.candidates) (length right.candidates)
      else if not (left.managed.task.created_at == right.managed.task.created_at)
      then ltb left.managed.task.created_at right.managed.task.created_at
      else if not (left.managed.task.updated_at == right.managed.task.updated_at)
      then ltb left.managed.task.updated_at right.managed.task.updated_at
      else locale_le left.managed.task.id right.managed.task.id

  unfoldable pub insert_item : TaskCandidates → List TaskCandidates → List TaskCandidates
  insert_item item [] = item ∷ []
  insert_item item (other ∷ others) =
      let rest = insert_item item others in
      if comes_first item other then item ∷ other ∷ others else other ∷ rest

  -- `sort`, which is stable.
  unfoldable pub allocation_order : List TaskCandidates → List TaskCandidates
  allocation_order [] = []
  allocation_order (item ∷ items) = insert_item item (allocation_order items)

unfoldable pub plan_ready_dispatches :
    (Text → Text)
    → (Text → Text → Bool)
    → List ManagedTask
    → List ManagedTab
    → List DispatchDecision
plan_ready_dispatches to_lower locale_le tasks tabs =
    let items = ready_candidates to_lower 0 tasks tabs in
    collect 0 (length tasks)
      (allocate (tab_flexibility items []) (allocation_order locale_le items) [] [])
