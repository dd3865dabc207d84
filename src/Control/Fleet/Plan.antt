-- ===== src/Control/Fleet/Plan.antt =====
-- control/src/elasticFleet.ts, `planElasticFleet`.
use charterion.Control.Rows.Order.{sort_by}
use charterion.Prelude.{
  ℕ, zero, suc, ◌+◌, ◌-◌, Text, Option, none, some, List, [], ◌∷◌, ◌++◌, Bool, true, false, not,
  ◌&&◌, if◌then◌else◌, ltb, leb, ◌==◌, same, present, includes, filter, map, length, get, put,
  or_else, text_eq,
}
use charterion.Prelude.Json.{Json}
use charterion.Roles.{stable_role_label}
use charterion.Control.Fleet.{
  ProjectCell, AgentSlot, ElasticFleetFacts, ElasticFleetDecision, RoleDemand, suspend, resume,
  spawn, grace_of, project_is_active, wants_active, wants_suspended, is_retired, is_suspended,
  is_open_page, rollover_is_idle, page_is_idle,
}
use charterion.Control.Fleet.Demand.{affinity_of, role_demand}

-- Observed long enough ago; the page was observed at all.
abbrev idle_long_enough : Option ℕ → ℕ → ℕ → Bool
idle_long_enough none now grace_ms = false
idle_long_enough (some observed_at) now grace_ms = leb (observed_at + grace_ms) now

unfoldable pub cleanup_eligible : AgentSlot → ElasticFleetFacts → ℕ → Bool
cleanup_eligible agent facts grace_ms =
    same agent.project_id facts.project.id
    && wants_active agent.desired_state
    && not (is_retired agent.status)
    && is_open_page agent.browser_state
    && rollover_is_idle agent.rollover_state
    && not agent.browser_quarantined
    && page_is_idle agent.browser_page_status
    && idle_long_enough agent.browser_runtime_observed_at facts.now grace_ms
    && not (includes facts.unsettled_browser_slot_ids agent.id)
    && not (includes facts.active_lease_holder_ids agent.id)

unfoldable pub project_agents : ElasticFleetFacts → List AgentSlot
project_agents facts =
    filter (λ agent. same agent.project_id facts.project.id && not (is_retired agent.status))
      facts.agents

unfoldable pub active_agents : ElasticFleetFacts → List AgentSlot
active_agents facts = filter (λ agent. wants_active agent.desired_state) (project_agents facts)

abbrev pub target_of : ProjectCell → ℕ
target_of project = if project_is_active project.status then project.min_slots else 0

abbrev pub count_of : List (Text × ℕ) → Text → ℕ
count_of counts key = or_else (get counts key) 0

abbrev pub required_of : Option RoleDemand → ℕ
required_of none = 0
required_of (some d) = d.required

-- What the loops change.
pub record Fleet : Type 0 where
  pub remaining_active : ℕ
  pub affinity_active : List (Text × ℕ)
  pub occupied_roles : List Text

module _ (to_lower : Text → Text) (locale_le : Text → Text → Bool) where
  unfoldable pub count_affinity : List AgentSlot → List (Text × ℕ) → List (Text × ℕ)
  count_affinity [] counts = counts
  count_affinity (agent ∷ agents) counts =
      let key = affinity_of to_lower agent.role in
      count_affinity agents (put counts key (count_of counts key + 1))

  abbrev longer_idle : ℕ → AgentSlot → AgentSlot → Bool
  longer_idle now a b =
      let left = or_else a.browser_runtime_observed_at now in
      let right = or_else b.browser_runtime_observed_at now in
      if not (left == right) then ltb left right else locale_le a.id b.id

  unfoldable pub cleanup_order : ElasticFleetFacts → ℕ → List AgentSlot
  cleanup_order facts grace_ms =
      sort_by (longer_idle facts.now)
        (filter (λ agent. cleanup_eligible agent facts grace_ms) (active_agents facts))

  -- The suspension loop; it is left where the target is met.
  unfoldable pub suspend_idle :
      ProjectCell
      → List (Text × RoleDemand)
      → List AgentSlot
      → Fleet
      → List ElasticFleetDecision × Fleet
  suspend_idle project demand [] fleet = ([], fleet)
  suspend_idle project demand (agent ∷ agents) fleet =
      let key = affinity_of to_lower agent.role in
      let required = if project_is_active project.status then required_of (get demand key) else 0 in
      let kept = suspend_idle project demand agents fleet in
      let suspended = suspend_idle project demand agents (record fleet {
        remaining_active = fleet.remaining_active - 1;
        affinity_active =
            put fleet.affinity_active key (or_else (get fleet.affinity_active key) 1 - 1);
      }) in
      if leb fleet.remaining_active (target_of project)
      then ([], fleet)
      else if leb (count_of fleet.affinity_active key) required
      then kept
      else (suspend agent.id ∷ suspended.0, suspended.1)

  abbrev reuse_first : AgentSlot → AgentSlot → Bool
  reuse_first a b =
      if present a.conversation_key && not (present b.conversation_key)
      then true
      else if present b.conversation_key && not (present a.conversation_key)
      then false
      else if not (a.updated_at == b.updated_at)
      then ltb b.updated_at a.updated_at
      else locale_le a.id b.id

  unfoldable pub suspended_order : ElasticFleetFacts → List AgentSlot
  suspended_order facts =
      sort_by (λ a b. reuse_first a b)
        (filter (λ agent. wants_suspended agent.desired_state && is_suspended agent.status)
          (project_agents facts))

  abbrev pub one_more : Fleet → Text → Fleet
  one_more fleet key = record fleet {
    remaining_active = fleet.remaining_active + 1;
    affinity_active = put fleet.affinity_active key (count_of fleet.affinity_active key + 1);
  }

  abbrev pub after_decision :
      ElasticFleetDecision
      → Option (List ElasticFleetDecision × Fleet)
      → Option (List ElasticFleetDecision × Fleet)
  after_decision d none = none
  after_decision d (some (ds, fleet)) = some (d ∷ ds, fleet)

  -- A new agent under a free label; `none` is the error where there is no free label.
  abbrev pub spawn_next :
      Text
      → Option Text
      → (Text → Option (List ElasticFleetDecision × Fleet))
      → Option (List ElasticFleetDecision × Fleet)
  spawn_next key none next = none
  spawn_next key (some role) next = after_decision (spawn role key) (next role)

  -- The `while` loop of one key. `missing` is how many agents it still lacks: the count of the key
  -- grows by one in each pass. The candidates are those after the cursor.
  unfoldable pub fill_role :
      ℕ
      → Text
      → Text
      → List AgentSlot
      → (missing : ℕ) → Fleet
      → Option (List ElasticFleetDecision × Fleet)
  fill_role max_slots key requested candidates zero fleet = some ([], fleet)
  fill_role max_slots key requested [] (suc missing) fleet =
      let next : Text → Option (List ElasticFleetDecision × Fleet) = λ role.
        fill_role max_slots key requested [] missing
          (record (one_more fleet key) { occupied_roles = fleet.occupied_roles ++ (role ∷ []) }) in
      if ltb fleet.remaining_active max_slots
      then spawn_next key (stable_role_label to_lower requested fleet.occupied_roles) next
      else some ([], fleet)
  fill_role max_slots key requested (candidate ∷ candidates) (suc missing) fleet =
      let rest = fill_role max_slots key requested candidates missing (one_more fleet key) in
      if ltb fleet.remaining_active max_slots
      then after_decision (resume candidate.id) rest
      else some ([], fleet)

  abbrev pub then_more :
      Option (List ElasticFleetDecision × Fleet)
      → (Fleet → Option (List ElasticFleetDecision × Fleet))
      → Option (List ElasticFleetDecision × Fleet)
  then_more none next = none
  then_more (some (ds, fleet)) next = elim (next fleet) [
    | none ↦ none
    | some (es, last) ↦ some (ds ++ es, last)
  ]

  -- The loop over the demands. The keys are distinct, so each starts at its first suspended agent.
  unfoldable pub fill_roles :
      ℕ
      → List AgentSlot
      → List (Text × RoleDemand)
      → Fleet
      → Option (List ElasticFleetDecision × Fleet)
  fill_roles max_slots suspended [] fleet = some ([], fleet)
  fill_roles max_slots suspended (entry ∷ entries) fleet =
      let group = filter (λ agent. same (affinity_of to_lower agent.role) entry.0) suspended in
      then_more
        (fill_role max_slots entry.0 entry.1.requested_role group
          (entry.1.required - count_of fleet.affinity_active entry.0) fleet)
        (λ later. fill_roles max_slots suspended entries later)

  module _ (json_parse : Text → Option Json) where
    abbrev pub first_fleet : ElasticFleetFacts → Fleet
    first_fleet facts = record {
      remaining_active = length (active_agents facts);
      affinity_active = count_affinity (active_agents facts) [];
      occupied_roles = map (λ agent. agent.role) (project_agents facts);
    }

    abbrev pub plan_suspensions : ElasticFleetFacts → ℕ → List ElasticFleetDecision × Fleet
    plan_suspensions facts grace_ms =
        suspend_idle facts.project (role_demand json_parse to_lower facts.project facts.work)
          (cleanup_order facts grace_ms) (first_fleet facts)

    abbrev pub plan_with : ElasticFleetFacts → ℕ → Option (List ElasticFleetDecision × Fleet)
    plan_with facts grace_ms =
        let (suspensions, fleet) = plan_suspensions facts grace_ms in
        let demand =
          sort_by (λ a b. locale_le a.0 b.0)
            (role_demand json_parse to_lower facts.project facts.work) in
        if not (project_is_active facts.project.status)
        then some (suspensions, fleet)
        else then_more (some (suspensions, fleet))
            (λ later. fill_roles facts.project.max_slots (suspended_order facts) demand later)

    abbrev pub decisions_of :
        Option (List ElasticFleetDecision × Fleet) → Option (List ElasticFleetDecision)
    decisions_of none = none
    decisions_of (some (decisions, fleet)) = some decisions

    abbrev pub plan_after : ElasticFleetFacts → Option ℕ → Option (List ElasticFleetDecision)
    plan_after facts none = none
    plan_after facts (some grace_ms) = decisions_of (plan_with facts grace_ms)

    -- `none` is an error.
    unfoldable pub plan_elastic_fleet : ElasticFleetFacts → Option (List ElasticFleetDecision)
    plan_elastic_fleet facts = plan_after facts (grace_of facts.idle_grace_ms)
