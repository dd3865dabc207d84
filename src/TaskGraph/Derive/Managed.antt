-- ===== src/TaskGraph/Derive/Managed.antt =====
-- src/taskGraph.ts: what `deriveManagedTasks` returns for a graph that passed the checks.
use charterion.Prelude.{
  ℕ, suc, ◌<◌, ◌≡◌, refl, sym, ap, ◌∙◌, Text, Option, none, some, List, [], ◌∷◌, true, length-map,
  arith, includes, text_eq, get, All, length, some-eq, ok,
}
use charterion.Prelude.Json.{Json}
use charterion.Contracts.{AgentTask, ManagedTask, SendAttemptRecord}
use charterion.TaskGraph.Validate.{TaskMap, index_tasks, task_ids, validate_task_graph}
use charterion.TaskGraph.Validate.Acyclic.{IsValidated-parts, completion_falls}
use charterion.TaskGraph.Validate.Rank.{rank}
use charterion.TaskGraph.Validate.Outcome.{index-All, index-includes}
use charterion.TaskGraph.Evaluate.{index_attempts_by_id}
use charterion.TaskGraph.Derive.{Cache, facts_of, derive, derive_each, derive_managed_tasks}
use charterion.TaskGraph.Derive.Rules.{rule_status}
use charterion.TaskGraph.Derive.Shared.{Extends, Consistent, derive_obeys}
use charterion.TaskGraph.Derive.Total.{lower-le, derive_returns}

-- One managed task for each task, in order: the entry of the final map, with the task itself and the
-- status that the rules give it by that map.
unfoldable pub FollowsRules :
    (Text → Option Json)
    → TaskMap
    → List (Text × SendAttemptRecord)
    → Cache
    → List AgentTask
    → List ManagedTask
    → Type 0
FollowsRules json_parse by_id attempts results [] [] = Unit
FollowsRules json_parse by_id attempts results [] (m ∷ ms) = ⊥
FollowsRules json_parse by_id attempts results (t ∷ ts) [] = ⊥
FollowsRules json_parse by_id attempts results (t ∷ ts) (m ∷ ms) =
    (m.task ≡ t)
    × (get results t.id ≡ some m)
    × (m.status ≡ rule_status by_id results t (facts_of json_parse attempts t))
    × FollowsRules json_parse by_id attempts results ts ms

module _ (json_parse : Text → Option Json) (by_id : TaskMap)
    (attempts_by_id : List (Text × SendAttemptRecord)) (r : Text → ℕ) (ids : List Text)
    (lookup : (k : Text) (v : AgentTask)
      → get by_id k ≡ some v
      → All (λ d. r d < r v.id) v.depends_on × (v.id ≡ k))
    (listed : (k : Text) (v : AgentTask) → get by_id k ≡ some v → includes ids k ≡ true) where
  abbrev Good : Cache → Type 0
  Good c = Consistent json_parse by_id attempts_by_id r lookup c

  abbrev Outcome : Option (List ManagedTask × Cache) → Cache → List AgentTask → Type 0
  Outcome o c ts =
      (ms : List ManagedTask) × (results : Cache) × (o ≡ some (ms, results))
      × Good results
      × Extends c results
      × ((later : Cache)
          → Good later
          → Extends results later
          → FollowsRules json_parse by_id attempts_by_id later ts ms)

  each_returned :
      (fuel : ℕ) (t : AgentTask) (ts : List AgentTask) (c : Cache) (m : ManagedTask) (c' : Cache)
      (ms : List ManagedTask) (results : Cache)
      → derive json_parse by_id attempts_by_id fuel t c ≡ some (m, c')
      → derive_each json_parse by_id attempts_by_id fuel ts c' ≡ some (ms, results)
      → derive_each json_parse by_id attempts_by_id fuel (t ∷ ts) c ≡ some (m ∷ ms, results)
  unfolding derive_each
  each_returned fuel t ts c m c' ms results e h = ground arith

  each_follows :
      (fuel : ℕ) (ts : List AgentTask) (c : Cache)
      → length ids < fuel
      → All (λ t. get by_id t.id ≡ some t) ts
      → Good c
      → Outcome (derive_each json_parse by_id attempts_by_id fuel ts c) c ts
  unfolding derive_each FollowsRules
  each_follows fuel [] c enough known good = ([], c, refl, good, λ k m h. h, λ later g x. tt)
  each_follows fuel (t ∷ ts) c enough known good =
      go (derive json_parse by_id attempts_by_id fuel t c) refl
        (λ c'. each_follows fuel ts c' enough known.1)
    where
      go :
          (o : Option (ManagedTask × Cache))
          → derive json_parse by_id attempts_by_id fuel t c ≡ o
          → ((c' : Cache)
              → Good c'
              → Outcome (derive_each json_parse by_id attempts_by_id fuel ts c') c' ts)
          → Outcome (derive_each json_parse by_id attempts_by_id fuel (t ∷ ts) c) c (t ∷ ts)
      go none e ih = absurd (
          derive_returns json_parse by_id attempts_by_id r ids lookup listed fuel t c known.0
            (omega (arith, lower-le r ids (r t.id))) e)
      go (some (m, c')) e ih =
          let (g, stored) =
            derive_obeys json_parse by_id attempts_by_id r lookup fuel t c m c' known.0 good e in
          let (ms, results, returned, good', kept, follows) = ih c' g.consistent in
          (
            m ∷ ms,
            results,
            each_returned fuel t ts c m c' ms results e returned,
            good',
            λ k n h. kept k n (g.extends k n h),
            λ later gl x.
                let there : get later t.id ≡ some m = x t.id m (kept t.id m stored) in
                let (status, own) = gl t.id m there later (λ k n h. h) in
                let is_t : m.task ≡ t = some-eq (sym own ∙ known.0) in
                (
                  is_t,
                  there,
                  status
                      ∙ ap (λ u. rule_status by_id later u (facts_of json_parse attempts_by_id u))
                          is_t,
                  follows later gl x,
                ),
          )

index_listed :
    (tasks : List AgentTask) (k : Text) (u : AgentTask)
    → get (index_tasks tasks []) k ≡ some u
    → includes (task_ids tasks) k ≡ true
unfolding get
index_listed tasks k u e = ground (arith, index-includes tasks [] k)

-- On a task graph that passes the checks the derivation ends, and the map that it shares its results in
-- has, for each task, the entry that is returned for it; that entry holds the task itself and the status
-- that the rules give by the entries of its dependencies in the same map: its own status (cancelled,
-- skipped, or by its last attempt) first, then blocked if any dependency blocks, pending or ready while
-- not all are completed or skipped, and ready or the human decision otherwise.
pub derive_managed-FollowsRules :
    (json_parse : Text → Option Json) (tasks : List AgentTask) (attempts : List SendAttemptRecord)
    → validate_task_graph tasks ≡ ok tt
    → (ms : List ManagedTask) × (results : Cache) × (derive_managed_tasks json_parse tasks attempts
        ≡ some (ms, results))
      × FollowsRules json_parse
          (index_tasks tasks [])
          (index_attempts_by_id attempts [])
          results
          tasks
          ms
unfolding derive_managed_tasks
derive_managed-FollowsRules json_parse tasks attempts valid =
    let v = IsValidated-parts tasks valid in
    let r = rank v.marks.visited in
    let by_id = index_tasks tasks [] in
    let (ms, results, returned, good, _, follows) =
      each_follows json_parse by_id (index_attempts_by_id attempts []) r (task_ids tasks)
        (λ k u e.
          index-All (λ w. All (λ d. r d < r w.id) w.depends_on) tasks [] k u
            (completion_falls tasks v) (λ w absent. absurd (unfold get in cc)) e)
        (λ k u e. index_listed tasks k u e) (suc (length tasks)) tasks []
        (omega (arith, length-map tasks (λ t. t.id))) v.indexed
        (λ k m h. absurd (unfold get in cc)) in
    (ms, results, returned, follows results good (λ k m h. h))
