-- ===== src/TaskGraph/Validate/Rank.antt =====
-- src/taskGraph.ts: a task graph that passes the checks has no cycle.
use charterion.Prelude.{
  ℕ, ◌+◌, ◌≤◌, ◌<◌, ◌≡◌, subst, Text, none, some, List, [], ◌∷◌, true, arith, if◌then◌else◌,
  same_iff, same_refl, includes, text_eq, get, put, get-put, length, All, All-map, Bool-cases, inl,
  inr, ◌⊎◌,
}
use charterion.Contracts.{AgentTask}
use charterion.TaskGraph.Validate.{TaskMap, dependencies, index_tasks}
use charterion.TaskGraph.Validate.Search.{AllIn, Topological}

-- The place of an id in the order of completion.
pub rank : List Text → Text → ℕ
rank [] k = 0
rank (v ∷ vs) k = if includes vs k then rank vs k else length vs

pub rank-lt : (vs : List Text) (k : Text) → includes vs k ≡ true → rank vs k < length vs
unfolding rank includes
rank-lt [] k h = cc
rank-lt (v ∷ vs) k h = ground (arith, rank-lt vs k)

pub dependencies_ranked :
    (by_id : TaskMap) (vs : List Text) (v : Text)
    → Topological by_id vs
    → includes vs v ≡ true
    → All (λ d. (includes vs d ≡ true) × (rank vs d < rank vs v)) (dependencies by_id v)
unfolding rank includes
dependencies_ranked by_id [] v t h = cc
dependencies_ranked by_id (w ∷ vs) v t h = elim (Bool-cases (includes vs v)) [
  | inl earlier ↦
      All-map _
        (λ d (k : (includes vs d ≡ true) × (rank vs d < rank vs v)). (ground arith, ground arith))
        (dependencies_ranked by_id vs v t.1 earlier)
  | inr last ↦
      let here : w ≡ v = (same_iff w v).0 (ground arith) in
      All-map _ (λ d (k : includes vs d ≡ true). (ground arith, ground (arith, rank-lt vs d k)))
        (subst (λ u. AllIn vs (dependencies by_id u)) here t.0)
]

-- Putting adds at most one entry, and exactly one only for a new key.
length-put :
    (m : TaskMap) (k : Text) (t : AgentTask)
    → (length (put m k t) ≤ length m + 1) × ((get m k ≡ none) ⊎ (length (put m k t) ≡ length m))
unfolding put get
length-put [] k t = ground arith
length-put ((j, u) ∷ m) k t = ground (arith, length-put m k t)

length-index :
    (ts : List AgentTask) (m : TaskMap) → length (index_tasks ts m) ≤ length m + length ts
unfolding index_tasks
length-index [] m = omega arith
length-index (t ∷ ts) m = omega (arith, length-index ts (put m t.id t), length-put m t.id t)

-- If every task made an entry, then entries are never overwritten.
index_keeps :
    (ts : List AgentTask) (m : TaskMap) (k : Text) (v : AgentTask)
    → length (index_tasks ts m) ≡ length m + length ts
    → get m k ≡ some v
    → get (index_tasks ts m) k ≡ some v
unfolding index_tasks
index_keeps [] m k v e h = h
index_keeps (t ∷ ts) m k v e h =
    index_keeps ts (put m t.id t) k v
      (ground (arith, length-index ts (put m t.id t), length-put m t.id t))
      (ground (
        arith,
        get-put m t.id k t,
        same_iff t.id k,
        length-index ts (put m t.id t),
        length-put m t.id t,
      ))

pub index_own :
    (ts : List AgentTask) (m : TaskMap)
    → length (index_tasks ts m) ≡ length m + length ts
    → All (λ t. get (index_tasks ts m) t.id ≡ some t) ts
unfolding index_tasks
index_own [] m e = tt
index_own (t ∷ ts) m e =
    let e' : length (index_tasks ts (put m t.id t)) ≡ length (put m t.id t) + length ts =
      ground (arith, length-index ts (put m t.id t), length-put m t.id t) in
    (
      index_keeps ts (put m t.id t) t.id t e'
          (ground (arith, get-put m t.id t.id t, same_refl t.id)),
      index_own ts (put m t.id t) e',
    )
