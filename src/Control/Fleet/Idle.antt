-- ===== src/Control/Fleet/Idle.antt =====
-- control/src/elasticFleet.ts: the agents that may be suspended.
use charterion.Prelude.{
  All-map, filter, includes, same_iff, [], ◌∷◌, false, ℕ, ◌+◌, ◌≤◌, ◌≡◌, refl, Option, none, some,
  List, Bool, true, arith, text_eq, All, Bool-cases, inl, inr,
}
use charterion.Control.Rows.History.{AnyOf}
use charterion.Control.Fleet.{
  AgentDesiredState, AgentBrowserState, AgentRolloverState, AgentPageStatus, AgentSlot,
  ElasticFleetFacts,
}
use charterion.Control.Fleet.Plan.{cleanup_eligible, project_agents, active_agents}
use charterion.Control.Fleet.Counts.{filter-All}

-- One of the agents that the facts list, which belongs to the project, is to be active, has an open idle
-- page that was seen at least the time of grace ago, is in no rollover or quarantine, and holds neither
-- unsettled work of the browser nor a lease.
pub record IsIdleOf (facts : ElasticFleetFacts) (grace_ms : ℕ) (agent : AgentSlot) : Type 0 where
  pub listed : AnyOf (λ a. a ≡ agent) facts.agents
  pub of_project : agent.project_id ≡ facts.project.id
  pub is_active : agent.desired_state ≡ AgentDesiredState.active
  pub page_open : agent.browser_state ≡ AgentBrowserState.open_page
  pub no_rollover : agent.rollover_state ≡ AgentRolloverState.idle
  pub no_quarantine : agent.browser_quarantined ≡ false
  pub page_idle : agent.browser_page_status ≡ some AgentPageStatus.idle
  pub seen : ℕ
  pub seen_then : agent.browser_runtime_observed_at ≡ some seen
  pub over_grace : seen + grace_ms ≤ facts.now
  pub settled : includes facts.unsettled_browser_slot_ids agent.id ≡ false
  pub no_lease : includes facts.active_lease_holder_ids agent.id ≡ false

is_idle_of :
    (facts : ElasticFleetFacts) (grace_ms : ℕ) (agent : AgentSlot)
    → AnyOf (λ a. a ≡ agent) facts.agents
    → cleanup_eligible agent facts grace_ms ≡ true
    → IsIdleOf facts grace_ms agent
unfolding cleanup_eligible
is_idle_of facts grace_ms agent listed h = go agent.browser_runtime_observed_at refl
  where
    go : (o : Option ℕ) → agent.browser_runtime_observed_at ≡ o → IsIdleOf facts grace_ms agent
    go none e = absurd (ground arith)
    go (some seen) e = record {
      listed = listed;
      of_project = (same_iff agent.project_id facts.project.id).0 (ground arith);
      is_active = ground arith;
      page_open = ground arith;
      no_rollover = ground arith;
      no_quarantine = ground arith;
      page_idle = ground arith;
      seen = seen;
      seen_then = e;
      over_grace = ground arith;
      settled = ground arith;
      no_lease = ground arith;
    }

filter-among :
    {A : Type 0} (P : A → Type 0) (p : A → Bool) (xs : List A) → All P xs → All P (filter p xs)
unfolding filter
filter-among P p [] h = tt
filter-among P p (x ∷ xs) h = elim (Bool-cases (p x)) [
  | inl keep ↦ rw keep (h.0, filter-among P p xs h.1)
  | inr drop ↦ rw drop (filter-among P p xs h.1)
]

each_listed : {A : Type 0} (xs : List A) → All (λ x. AnyOf (λ y. y ≡ x) xs) xs
each_listed [] = tt
each_listed (x ∷ xs) = (inl refl, All-map xs (λ y h. inr h) (each_listed xs))

both :
    {A : Type 0} (P Q R : A → Type 0) (xs : List A)
    → ((x : A) → P x → Q x → R x)
    → All P xs
    → All Q xs
    → All R xs
both P Q R [] f h k = tt
both P Q R (x ∷ xs) f h k = (f x h.0 k.0, both P Q R xs f h.1 k.1)

pub eligible_among :
    (facts : ElasticFleetFacts) (grace_ms : ℕ)
    → All
        (IsIdleOf facts grace_ms)
        (filter (λ agent. cleanup_eligible agent facts grace_ms) (active_agents facts))
unfolding active_agents project_agents
eligible_among facts grace_ms =
    both (λ agent. AnyOf (λ a. a ≡ agent) facts.agents)
      (λ agent. cleanup_eligible agent facts grace_ms ≡ true) (IsIdleOf facts grace_ms) _
      (is_idle_of facts grace_ms)
      (filter-among _ _ _ (filter-among _ _ _ (filter-among _ _ _ (each_listed facts.agents))))
      (filter-All (λ agent. cleanup_eligible agent facts grace_ms) (active_agents facts))
