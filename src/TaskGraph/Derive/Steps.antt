-- ===== src/TaskGraph/Derive/Steps.antt =====
-- src/taskGraph.ts, `deriveManagedTasks`: the steps of one derivation.
use charterion.Prelude.{ℕ, suc, ◌≡◌, Text, Option, none, some, List, true, arith, text_eq, get, put}
use charterion.Prelude.Json.{Json}
use charterion.Contracts.{AgentTask, ManagedTask, SendAttemptRecord, TaskDisplayStatus}
use charterion.TaskGraph.Validate.{TaskMap}
use charterion.TaskGraph.Derive.{
  Cache, Facts, facts_of, Dependencies, own_status, status_after, managed_task, derive_dependencies,
  store, derive,
}
use charterion.TaskGraph.Derive.Rules.{rule_status, view}

module _ (json_parse : Text → Option Json) (by_id : TaskMap)
    (attempts_by_id : List (Text × SendAttemptRecord)) where
  abbrev pub facts : AgentTask → Facts
  facts t = facts_of json_parse attempts_by_id t

  abbrev pub placed : AgentTask → TaskDisplayStatus → ManagedTask
  placed t s = managed_task t (facts t) s

  abbrev pub derive_at : ℕ → (AgentTask → Cache → Option (ManagedTask × Cache))
  derive_at fuel = derive json_parse by_id attempts_by_id fuel

  -- The steps of a derivation.
  abbrev pub derived_from : AgentTask → Option (Dependencies × Cache) → Option (ManagedTask × Cache)
  derived_from t none = none
  derived_from t (some (d, c)) =
      some (placed t (status_after t d), put c t.id (placed t (status_after t d)))

  pub derive_shared :
      (fuel : ℕ) (t : AgentTask) (c : Cache) (m : ManagedTask)
      → get c t.id ≡ some m
      → derive_at (suc fuel) t c ≡ some (m, c)
  unfolding derive
  derive_shared fuel t c m h = rw (h, derive)

  pub derive_own :
      (fuel : ℕ) (t : AgentTask) (c : Cache) (s : TaskDisplayStatus)
      → get c t.id ≡ none
      → own_status t (facts t) ≡ some s
      → derive_at (suc fuel) t c ≡ some (placed t s, put c t.id (placed t s))
  unfolding derive store
  derive_own fuel t c s h k = ground arith

  pub derive_depending :
      (fuel : ℕ) (t : AgentTask) (c : Cache)
      → get c t.id ≡ none
      → own_status t (facts t) ≡ none
      → derive_at (suc fuel) t c
        ≡ derived_from t (derive_dependencies by_id (derive_at fuel) t.depends_on true c)
  unfolding derive store
  derive_depending fuel t c h k = ground arith

  pub rule_own :
      (t : AgentTask) (later : Cache) (s : TaskDisplayStatus)
      → own_status t (facts t) ≡ some s
      → s ≡ rule_status by_id later t (facts t)
  unfolding rule_status
  rule_own t later s h = ground arith

  pub rule_undecided :
      (t : AgentTask) (later : Cache)
      → own_status t (facts t) ≡ none
      → status_after t (view by_id later t.depends_on true) ≡ rule_status by_id later t (facts t)
  unfolding rule_status
  rule_undecided t later h = ground arith
