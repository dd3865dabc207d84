-- ===== src/Control/Fleet/Counts.antt =====
-- control/src/elasticFleet.ts: the agents that a plan takes away and adds.
use charterion.Prelude.{
  ℕ, suc, ◌+◌, ◌≤◌, ◌≡◌, ◌⊎◌, min, Option, none, some, List, [], ◌∷◌, ◌++◌, Bool, true, arith,
  filter, text_eq, All, Bool-cases, inl, inr,
}
use charterion.Control.Fleet.{AgentSlot, ElasticFleetDecision, suspend, resume, spawn}
use charterion.Control.Fleet.Plan.{Fleet}

-- The agents that a plan takes away, and those that it adds.
unfoldable pub suspends : List ElasticFleetDecision → ℕ
suspends [] = 0
suspends (suspend id ∷ ds) = suc (suspends ds)
suspends (d ∷ ds) = suspends ds

unfoldable pub starts : List ElasticFleetDecision → ℕ
starts [] = 0
starts (suspend id ∷ ds) = starts ds
starts (d ∷ ds) = suc (starts ds)

pub suspends-append :
    (ds es : List ElasticFleetDecision) → suspends (ds ++ es) ≡ suspends ds + suspends es
unfolding suspends
suspends-append [] es = omega arith
suspends-append (suspend id ∷ ds) es = rw (suspends-append ds es) (omega arith)
suspends-append (resume id ∷ ds) es = suspends-append ds es
suspends-append (spawn role key ∷ ds) es = suspends-append ds es

pub starts-append : (ds es : List ElasticFleetDecision) → starts (ds ++ es) ≡ starts ds + starts es
unfolding starts
starts-append [] es = omega arith
starts-append (suspend id ∷ ds) es = starts-append ds es
starts-append (resume id ∷ ds) es = rw (starts-append ds es) (omega arith)
starts-append (spawn role key ∷ ds) es = rw (starts-append ds es) (omega arith)

-- A suspension is of an agent with the property.
abbrev pub SuspendsOnly : (AgentSlot → Type 0) → ElasticFleetDecision → Type 0
SuspendsOnly P (suspend id) = (agent : AgentSlot) × (agent.id ≡ id) × P agent
SuspendsOnly P _ = Unit

pub filter-All : {A : Type 0} (p : A → Bool) (xs : List A) → All (λ x. p x ≡ true) (filter p xs)
unfolding filter
filter-All p [] = tt
filter-All p (x ∷ xs) = elim (Bool-cases (p x)) [
  | inl keep ↦ rw keep (keep, filter-All p xs)
  | inr drop ↦ rw drop (filter-All p xs)
]

-- Suspensions only, which leave the target or what there was.
abbrev pub Shrinks : (AgentSlot → Type 0) → ℕ → ℕ → List ElasticFleetDecision × Fleet → Type 0
Shrinks P target before r =
    (suspends r.0 + r.1.remaining_active ≡ before)
    × (starts r.0 ≡ 0)
    × (min target before ≤ r.1.remaining_active)
    × All (SuspendsOnly P) r.0

-- New agents only, and none above the limit.
abbrev pub Grows : ℕ → ℕ → List ElasticFleetDecision × Fleet → Type 0
Grows max_slots before r =
    (starts r.0 + before ≡ r.1.remaining_active)
    × (suspends r.0 ≡ 0)
    × ((starts r.0 ≡ 0) ⊎ (r.1.remaining_active ≤ max_slots))

abbrev pub GrowsIf : ℕ → ℕ → Option (List ElasticFleetDecision × Fleet) → Type 0
GrowsIf max_slots before none = Unit
GrowsIf max_slots before (some r) = Grows max_slots before r

pub only_of_none :
    (P : AgentSlot → Type 0) (ds : List ElasticFleetDecision)
    → suspends ds ≡ 0
    → All (SuspendsOnly P) ds
unfolding suspends
only_of_none P [] h = tt
only_of_none P (suspend id ∷ ds) h = absurd (omega arith)
only_of_none P (resume id ∷ ds) h = (tt, only_of_none P ds h)
only_of_none P (spawn role key ∷ ds) h = (tt, only_of_none P ds h)
