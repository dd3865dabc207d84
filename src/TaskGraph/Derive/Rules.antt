-- ===== src/TaskGraph/Derive/Rules.antt =====
-- src/taskGraph.ts: the derived statuses satisfy the rules, however the recursion shared its results.
use charterion.Prelude.{
  ◌≡◌, refl, Text, Option, none, some, List, [], ◌∷◌, Bool, true, false, ◌&&◌, arith, text_eq, get,
  any, all,
}
use charterion.Contracts.{AgentTask, ManagedTask, TaskDisplayStatus}
use charterion.TaskGraph.Validate.{TaskMap}
use charterion.TaskGraph.Derive.{
  Cache, Facts, Dependencies, own_status, status_after, derive_dependencies, is_blocking,
  is_terminal,
}

abbrev status_of : Option ManagedTask → Option TaskDisplayStatus
status_of none = none
status_of (some m) = some m.status

-- The status of a dependency by a map of results: none if there is no such task.
abbrev pub dependency_status : TaskMap → Cache → Text → Option TaskDisplayStatus
dependency_status by_id results id = elim (get by_id id) [
  | none ↦ none
  | some t ↦ status_of (get results t.id)
]

abbrev blocks : Option TaskDisplayStatus → Bool
blocks none = false
blocks (some s) = is_blocking s

abbrev settles : Option TaskDisplayStatus → Bool
settles none = true
settles (some s) = is_terminal s

-- The dependencies of a task as a map of results shows them, with no order of evaluation: blocked if
-- any is in a blocking state, terminal if all are completed or skipped. Missing tasks do not count.
unfoldable pub seen : TaskMap → Cache → List Text → Dependencies
seen by_id results ids = record {
  dependency_blocked = any (λ id. blocks (dependency_status by_id results id)) ids;
  dependencies_terminal = all (λ id. settles (dependency_status by_id results id)) ids;
}

-- The status that the rules give: the task's own where it has one, and by its dependencies otherwise.
unfoldable pub rule_status : TaskMap → Cache → AgentTask → Facts → TaskDisplayStatus
rule_status by_id results t f = elim (own_status t f) [
  | some s ↦ s
  | none ↦ status_after t (seen by_id results t.depends_on)
]

-- The steps of the loop over the dependencies.
abbrev pub loop_after :
    TaskMap
    → (AgentTask → Cache → Option (ManagedTask × Cache))
    → List Text
    → Bool
    → Option (ManagedTask × Cache)
    → Option (Dependencies × Cache)
loop_after by_id f ids terminal none = none
loop_after by_id f ids terminal (some (m, c)) = elim (is_blocking m.status) [
  | true ↦ some (record { dependency_blocked = true; dependencies_terminal = terminal }, c)
  | false ↦ derive_dependencies by_id f ids (terminal && is_terminal m.status) c
]

module _ (by_id : TaskMap) (f : AgentTask → Cache → Option (ManagedTask × Cache)) (id : Text)
    (ids : List Text) (terminal : Bool) (c : Cache) where
  pub loop_missing :
      get by_id id ≡ none
      → derive_dependencies by_id f (id ∷ ids) terminal c
        ≡ derive_dependencies by_id f ids terminal c
  unfolding derive_dependencies
  loop_missing e = rw (e, derive_dependencies)

  pub loop_found :
      (u : AgentTask)
      → get by_id id ≡ some u
      → derive_dependencies by_id f (id ∷ ids) terminal c ≡ loop_after by_id f ids terminal (f u c)
  unfolding derive_dependencies
  loop_found u e = rw (e, derive_dependencies)

module _ (by_id : TaskMap) (f : AgentTask → Cache → Option (ManagedTask × Cache)) (ids : List Text)
    (terminal : Bool) (m : ManagedTask) (c : Cache) where
  pub loop_stops :
      is_blocking m.status ≡ true
      → loop_after by_id f ids terminal (some (m, c))
        ≡ some (record { dependency_blocked = true; dependencies_terminal = terminal }, c)
  loop_stops e = ground arith

  pub loop_goes_on :
      is_blocking m.status ≡ false
      → loop_after by_id f ids terminal (some (m, c))
        ≡ derive_dependencies by_id f ids (terminal && is_terminal m.status) c
  loop_goes_on e = ground arith

pub loop_empty :
    (by_id : TaskMap) (f : AgentTask → Cache → Option (ManagedTask × Cache)) (terminal : Bool)
    (c : Cache) {o : Option (Dependencies × Cache)}
    → derive_dependencies by_id f [] terminal c ≡ o
    → some (record { dependency_blocked = false; dependencies_terminal = terminal }, c) ≡ o
unfolding derive_dependencies
loop_empty by_id f terminal c e = e

module _ (by_id : TaskMap) where
  -- What the loop has to have found: the view of a map of results, after the earlier dependencies.
  abbrev pub view : Cache → List Text → Bool → Dependencies
  view later ids terminal = record {
    dependency_blocked = (seen by_id later ids).dependency_blocked;
    dependencies_terminal = terminal && (seen by_id later ids).dependencies_terminal;
  }

  pub view_empty :
      (t : AgentTask) (later : Cache) (terminal : Bool)
      → status_after t (record { dependency_blocked = false; dependencies_terminal = terminal })
        ≡ status_after t (view later [] terminal)
  unfolding seen any all
  view_empty t later true = refl
  view_empty t later false = refl

  pub view_missing :
      (later : Cache) (id : Text) (ids : List Text) (terminal : Bool)
      → get by_id id ≡ none
      → view later (id ∷ ids) terminal ≡ view later ids terminal
  unfolding seen any all
  view_missing later id ids terminal e = ground arith

  pub view_blocked :
      (t u : AgentTask) (m : ManagedTask) (later : Cache) (id : Text) (ids : List Text) (b c : Bool)
      → get by_id id ≡ some u
      → get later u.id ≡ some m
      → is_blocking m.status ≡ true
      → status_after t (record { dependency_blocked = true; dependencies_terminal = b })
        ≡ status_after t (view later (id ∷ ids) c)
  unfolding seen any all status_after
  view_blocked t u m later id ids b c e h k = ground arith

  pub view_passed :
      (u : AgentTask) (m : ManagedTask) (later : Cache) (id : Text) (ids : List Text)
      (terminal : Bool)
      → get by_id id ≡ some u
      → get later u.id ≡ some m
      → is_blocking m.status ≡ false
      → view later ids (terminal && is_terminal m.status) ≡ view later (id ∷ ids) terminal
  unfolding seen any all
  view_passed u m later id ids terminal e h k = ground arith
