-- ===== src/Control/Fleet/Loops.antt =====
-- control/src/elasticFleet.ts: what the loops of the plan do to the number of active agents.
use charterion.Prelude.{
  ℕ, zero, suc, ◌+◌, ◌-◌, ◌<◌, refl, Text, Option, none, some, List, [], ◌∷◌, ◌++◌, Bool,
  if◌then◌else◌, arith, ltb, leb, get, put, or_else, text_eq, All, Bool-cases, inl, inr,
}
use charterion.Roles.{stable_role_label}
use charterion.Control.Fleet.{
  ProjectCell, AgentSlot, ElasticFleetDecision, RoleDemand, resume, spawn, project_is_active,
}
use charterion.Control.Fleet.Demand.{affinity_of}
use charterion.Control.Fleet.Plan.{
  Fleet, target_of, count_of, required_of, suspend_idle, fill_role, fill_roles, spawn_next,
  after_decision, one_more, then_more,
}
use charterion.Control.Fleet.Counts.{
  GrowsIf, Shrinks, starts, starts-append, suspends, suspends-append,
}

module _ (to_lower : Text → Text) (locale_le : Text → Text → Bool) where
  pub suspend_idle-Shrinks :
      (P : AgentSlot → Type 0) (project : ProjectCell) (demand : List (Text × RoleDemand))
      (agents : List AgentSlot) (fleet : Fleet)
      → All P agents
      → Shrinks P
          (target_of project)
          fleet.remaining_active
          (suspend_idle to_lower locale_le project demand agents fleet)
  unfolding suspend_idle suspends starts
  suspend_idle-Shrinks P project demand [] fleet h = (omega arith, refl, omega arith, tt)
  suspend_idle-Shrinks P project demand (agent ∷ agents) fleet h =
      let key = affinity_of to_lower agent.role in
      let required = if project_is_active project.status then required_of (get demand key) else 0 in
      let fewer = record fleet {
        remaining_active = fleet.remaining_active - 1;
        affinity_active =
            put fleet.affinity_active key (or_else (get fleet.affinity_active key) 1 - 1);
      } in
      elim (Bool-cases (leb fleet.remaining_active (target_of project))) [
        | inl met ↦ rw met (omega arith, refl, omega arith, tt)
        | inr above ↦ elim (Bool-cases (leb (count_of fleet.affinity_active key) required)) [
          | inl needed ↦ rw (above, needed) (suspend_idle-Shrinks P project demand agents fleet h.1)
          | inr spare ↦
              let (total, none_started, left, only) =
                suspend_idle-Shrinks P project demand agents fewer h.1 in
              rw (above, spare)
                (ground arith, none_started, ground arith, ((agent, refl, h.0), only))
        ]
      ]

  resume-Grows :
      (max_slots before : ℕ) (id : Text) (o : Option (List ElasticFleetDecision × Fleet))
      → before < max_slots
      → GrowsIf max_slots (before + 1) o
      → GrowsIf max_slots before (after_decision to_lower locale_le (resume id) o)
  unfolding suspends starts
  resume-Grows max_slots before id none room h = tt
  resume-Grows max_slots before id (some r) room h = ground arith

  spawn-Grows :
      (max_slots before : ℕ) (role key : Text) (o : Option (List ElasticFleetDecision × Fleet))
      → before < max_slots
      → GrowsIf max_slots (before + 1) o
      → GrowsIf max_slots before (after_decision to_lower locale_le (spawn role key) o)
  unfolding suspends starts
  spawn-Grows max_slots before role key none room h = tt
  spawn-Grows max_slots before role key (some r) room h = ground arith

  fill_role-Grows :
      (max_slots : ℕ) (key requested : Text) (candidates : List AgentSlot) (missing : ℕ)
      (fleet : Fleet)
      → GrowsIf max_slots fleet.remaining_active
          (fill_role to_lower locale_le max_slots key requested candidates missing fleet)
  unfolding fill_role suspends starts
  fill_role-Grows max_slots key requested candidates zero fleet = (omega arith, refl, inl refl)
  fill_role-Grows max_slots key requested [] (suc missing) fleet =
      elim (Bool-cases (ltb fleet.remaining_active max_slots)) [
        | inl room ↦ rw room (
            spawned (stable_role_label to_lower requested fleet.occupied_roles) (ground arith)
              (λ role.
                fill_role-Grows max_slots key requested [] missing
                  (record (one_more to_lower locale_le fleet key) {
                    occupied_roles = fleet.occupied_roles ++ (role ∷ []);
                  })))
        | inr full ↦ rw full (omega arith, refl, inl refl)
      ]
    where
      spawned :
          (o : Option Text)
          → fleet.remaining_active < max_slots
          → ((role : Text)
              → GrowsIf max_slots (fleet.remaining_active + 1) (
                  fill_role to_lower locale_le max_slots key requested [] missing
                    (record (one_more to_lower locale_le fleet key) {
                      occupied_roles = fleet.occupied_roles ++ (role ∷ []);
                    })))
          → GrowsIf max_slots fleet.remaining_active (
              spawn_next to_lower locale_le key o (λ role.
                fill_role to_lower locale_le max_slots key requested [] missing
                  (record (one_more to_lower locale_le fleet key) {
                    occupied_roles = fleet.occupied_roles ++ (role ∷ []);
                  })))
      spawned none room h = tt
      spawned (some role) room h =
          spawn-Grows max_slots fleet.remaining_active role key _ room (h role)
  fill_role-Grows max_slots key requested (candidate ∷ candidates) (suc missing) fleet =
      elim (Bool-cases (ltb fleet.remaining_active max_slots)) [
        | inl room ↦ rw room (
            resume-Grows max_slots fleet.remaining_active candidate.id _ (ground arith) (
              fill_role-Grows max_slots key requested candidates missing
                (one_more to_lower locale_le fleet key)))
        | inr full ↦ rw full (omega arith, refl, inl refl)
      ]

  pub Grows-then :
      (max_slots before : ℕ) (o : Option (List ElasticFleetDecision × Fleet))
      (next : Fleet → Option (List ElasticFleetDecision × Fleet))
      → GrowsIf max_slots before o
      → ((fleet : Fleet) → GrowsIf max_slots fleet.remaining_active (next fleet))
      → GrowsIf max_slots before (then_more to_lower locale_le o next)
  Grows-then max_slots before none next h k = tt
  Grows-then max_slots before (some (ds, fleet)) next h k = go (next fleet) (k fleet)
    where
      go :
          (o : Option (List ElasticFleetDecision × Fleet))
          → GrowsIf max_slots fleet.remaining_active o
          → GrowsIf max_slots before
              (elim o [ none ↦ none | some (es, last) ↦ some (ds ++ es, last) ])
      go none g = tt
      go (some (es, last)) g = rw (starts-append ds es, suspends-append ds es) (ground arith)

  pub fill_roles-Grows :
      (max_slots : ℕ) (suspended : List AgentSlot) (entries : List (Text × RoleDemand))
      (fleet : Fleet)
      → GrowsIf max_slots fleet.remaining_active
          (fill_roles to_lower locale_le max_slots suspended entries fleet)
  unfolding fill_roles suspends starts
  fill_roles-Grows max_slots suspended [] fleet = (omega arith, refl, inl refl)
  fill_roles-Grows max_slots suspended (entry ∷ entries) fleet =
      Grows-then max_slots fleet.remaining_active _ _
        (fill_role-Grows max_slots entry.0 entry.1.requested_role _ _ fleet)
        (λ later. fill_roles-Grows max_slots suspended entries later)
