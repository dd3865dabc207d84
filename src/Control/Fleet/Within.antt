-- ===== src/Control/Fleet/Within.antt =====
-- control/src/elasticFleet.ts: the plan keeps within the slots of the project, and suspends idle agents
-- only.
use charterion.Control.Rows.Order.{sort_by, sort_by-All}
use charterion.Prelude.{
  All-append, ℕ, ◌+◌, ◌≤◌, ◌≡◌, ◌⊎◌, refl, sym, subst, ap, min, Text, Option, none, some, List,
  ◌++◌, Bool, true, not, arith, length, text_eq, All, Bool-cases, inl, inr, some-eq, none-ne-some,
  if_true, if_false,
}
use charterion.Prelude.Json.{Json}
use charterion.Control.Fleet.{
  AgentSlot, ElasticFleetFacts, ElasticFleetDecision, RoleDemand, grace_of, project_is_active,
}
use charterion.Control.Fleet.Demand.{role_demand}
use charterion.Control.Fleet.Plan.{
  Fleet, active_agents, target_of, cleanup_order, suspended_order, fill_roles, then_more,
  first_fleet, plan_suspensions, plan_with, plan_after, decisions_of, plan_elastic_fleet,
}
use charterion.Control.Fleet.Loops.{suspend_idle-Shrinks, fill_roles-Grows}
use charterion.Control.Fleet.Counts.{
  suspends, starts, suspends-append, starts-append, SuspendsOnly, Shrinks, Grows, GrowsIf,
  only_of_none,
}
use charterion.Control.Fleet.Idle.{IsIdleOf, eligible_among}

module _ (to_lower : Text → Text) (locale_le : Text → Text → Bool) where
  -- What a plan does to the number of active agents, and to whom.
  pub record IsBounded (P : AgentSlot → Type 0) (target max_slots active : ℕ) (may_start : Bool)
      (decisions : List ElasticFleetDecision) : Type 0 where
    pub keeps_target : suspends decisions + min target active ≤ active
    pub keeps_limit :
        (starts decisions ≡ 0) ⊎ (active + starts decisions ≤ max_slots + suspends decisions)
    pub starts_when_active : (may_start ≡ true) ⊎ (starts decisions ≡ 0)
    pub suspends_only : All (SuspendsOnly P) decisions

  Shrinks-IsBounded :
      (P : AgentSlot → Type 0) (target max_slots active : ℕ) (may_start : Bool)
      (r : List ElasticFleetDecision × Fleet)
      → Shrinks P target active r
      → IsBounded P target max_slots active may_start r.0
  Shrinks-IsBounded P target max_slots active may_start r (total, none_started, left, only) =
      record {
        keeps_target = omega arith;
        keeps_limit = inl none_started;
        starts_when_active = inr none_started;
        suspends_only = only;
      }

  Grows-IsBounded :
      (P : AgentSlot → Type 0) (target max_slots active : ℕ)
      (r s : List ElasticFleetDecision × Fleet)
      → Shrinks P target active r
      → Grows max_slots r.1.remaining_active s
      → IsBounded P target max_slots active true (r.0 ++ s.0)
  Grows-IsBounded P target max_slots active r s (total, none_started, left, only)
        (grown, none_suspended, room) =
      let both_suspend = suspends-append r.0 s.0 in
      let both_start = starts-append r.0 s.0 in
      record {
        keeps_target = omega arith;
        keeps_limit = elim room [ inl nothing ↦ inl (omega arith) | inr below ↦ inr (omega arith) ];
        starts_when_active = inl refl;
        suspends_only =
            All-append (SuspendsOnly P) r.0 s.0 only (only_of_none P s.0 none_suspended);
      }

  then_more-IsBounded :
      (P : AgentSlot → Type 0) (target max_slots active : ℕ)
      (r s : List ElasticFleetDecision × Fleet)
      (next : Fleet → Option (List ElasticFleetDecision × Fleet))
      → Shrinks P target active r
      → GrowsIf max_slots r.1.remaining_active (next r.1)
      → then_more to_lower locale_le (some r) next ≡ some s
      → IsBounded P target max_slots active true s.0
  then_more-IsBounded P target max_slots active r s next shrinks = go (next r.1)
    where
      go :
          (o : Option (List ElasticFleetDecision × Fleet))
          → GrowsIf max_slots r.1.remaining_active o
          → (elim o [ none ↦ none | some (es, last) ↦ some (r.0 ++ es, last) ]) ≡ some s
          → IsBounded P target max_slots active true s.0
      go none g h = absurd (none-ne-some h)
      go (some q) g h =
          subst (λ t. IsBounded P target max_slots active true t.0) (some-eq h)
            (Grows-IsBounded P target max_slots active r q shrinks g)

  module _ (json_parse : Text → Option Json) where
    abbrev pub IsWithin : ElasticFleetFacts → ℕ → List ElasticFleetDecision → Type 0
    IsWithin facts grace_ms decisions =
        IsBounded (IsIdleOf facts grace_ms) (target_of facts.project) facts.project.max_slots
          (length (active_agents facts)) (project_is_active facts.project.status) decisions

    plan_with-IsWithin :
        (facts : ElasticFleetFacts) (grace_ms : ℕ) (r : List ElasticFleetDecision × Fleet)
        → plan_with to_lower locale_le json_parse facts grace_ms ≡ some r
        → IsWithin facts grace_ms r.0
    unfolding cleanup_order
    plan_with-IsWithin facts grace_ms r h =
        elim (Bool-cases (project_is_active facts.project.status)) [
          | inl is_active ↦
              subst
                (λ b.
                  IsBounded (IsIdleOf facts grace_ms) (target_of facts.project)
                    facts.project.max_slots (length (active_agents facts)) b r.0)
                (sym is_active)
                (then_more-IsBounded (IsIdleOf facts grace_ms) (target_of facts.project)
                  facts.project.max_slots (length (active_agents facts)) suspensions r
                  (λ later.
                    fill_roles to_lower locale_le facts.project.max_slots
                      (suspended_order to_lower locale_le facts) demand later)
                  shrinks
                  (fill_roles-Grows to_lower locale_le facts.project.max_slots
                    (suspended_order to_lower locale_le facts) demand suspensions.1)
                  (if_false _ _ (ap not is_active) h))
          | inr inactive ↦
              subst (λ q. IsWithin facts grace_ms q.0) (some-eq (if_true _ _ (ap not inactive) h))
                (Shrinks-IsBounded (IsIdleOf facts grace_ms) (target_of facts.project)
                  facts.project.max_slots (length (active_agents facts))
                  (project_is_active facts.project.status) suspensions shrinks)
        ]
      where
        demand : List (Text × RoleDemand)
        demand =
            sort_by (λ a b. locale_le a.0 b.0)
              (role_demand json_parse to_lower facts.project facts.work)

        suspensions : List ElasticFleetDecision × Fleet
        suspensions = plan_suspensions to_lower locale_le json_parse facts grace_ms

        shrinks :
            Shrinks
              (IsIdleOf facts grace_ms)
              (target_of facts.project)
              (length (active_agents facts))
              suspensions
        shrinks =
            suspend_idle-Shrinks to_lower locale_le (IsIdleOf facts grace_ms) facts.project
              (role_demand json_parse to_lower facts.project facts.work) _
              (first_fleet to_lower locale_le json_parse facts)
              (sort_by-All _ (IsIdleOf facts grace_ms) _ (eligible_among facts grace_ms))

    -- A plan suspends only listed agents of the project that are idle beyond the grace and hold nothing,
    -- and no more than leave the target number of active agents; what it resumes and spawns keeps the number of active agents
    -- within the limit of the project, and a project that is not active gets none.
    pub plan_elastic_fleet-IsWithin :
        (facts : ElasticFleetFacts) (grace_ms : ℕ) (decisions : List ElasticFleetDecision)
        → grace_of facts.idle_grace_ms ≡ some grace_ms
        → plan_elastic_fleet to_lower locale_le json_parse facts ≡ some decisions
        → IsWithin facts grace_ms decisions
    unfolding plan_elastic_fleet
    plan_elastic_fleet-IsWithin facts grace_ms decisions is_grace h =
        planned (plan_with to_lower locale_le json_parse facts grace_ms) refl (
          subst (λ o. plan_after to_lower locale_le json_parse facts o ≡ some decisions) is_grace h)
      where
        planned :
            (o : Option (List ElasticFleetDecision × Fleet))
            → plan_with to_lower locale_le json_parse facts grace_ms ≡ o
            → decisions_of to_lower locale_le json_parse o ≡ some decisions
            → IsWithin facts grace_ms decisions
        planned none e k = absurd (none-ne-some k)
        planned (some r) e k =
            subst (IsWithin facts grace_ms) (some-eq k) (plan_with-IsWithin facts grace_ms r e)
