-- ===== src/Samples/Paces.antt =====
-- Runs of the pace of prompts and of the size of a fleet.
use charterion.Control.Rows.Order.{sort_by, insert_by}
use charterion.Prelude.{
  starts_with, ℕ, ◌≡◌, refl, Text, codes, Option, none, some, List, [], ◌∷◌, Bool, true, false, ◌+◌,
  ◌*◌, same_option, same, trim, all, get, put, includes, filter,
}
use charterion.Prelude.Json.{Json, Number, Fields, member}
use charterion.Dispatch.Governor.{
  PromptDispatchScope, PromptDispatchGovernorState, Governor, default_prompt_dispatch_policy,
}
use charterion.Dispatch.Governor.Acquire.{
  Pass, AcquireResult, acquire, IsSettled, acquire-IsSettled,
}
use charterion.Dispatch.Governor.{normalize_key}
use charterion.Control.Fleet.{
  ElasticFleetFacts, ElasticFleetDecision, AgentSlot, ProjectStatus, AgentSlotStatus,
  AgentDesiredState, AgentBrowserState, AgentRolloverState, AgentPageStatus,
}
use charterion.Control.Fleet.Plan.{
  plan_elastic_fleet, fill_roles, fill_role, suspend_idle, cleanup_order, active_agents,
  cleanup_eligible, count_affinity, project_agents, suspended_order,
}
use charterion.Control.Fleet.Demand.{
  role_demand, demand_of_tasks, task_terminal, affinity_of, by_field, terminal_ids, texts_in,
}
use charterion.Protocol.Block.{index_of}
use charterion.Roles.{
  agent_role_class, collapse_spaces, normalized_role, pieces, role_affinity_key, role_tokens,
  split_tokens, stable_role_label,
}
use charterion.Runner.{CoalescingRunner, new_runner, kick, drain, end_run, finish, Trace}
use charterion.Runner.Kicks.{kick-starts}
use charterion.Prelude.{◌<◌, inl, arith}
use charterion.Control.Fleet.Within.{IsWithin, plan_elastic_fleet-IsWithin}

abbrev unchanged : Text → Text
unchanged t = t

abbrev scope : PromptDispatchScope
scope = record {
  project = some (codes "p");
  slot_id = none;
  reservation_key = none;
  active_generations = 0;
}

abbrev sent_state : PromptDispatchGovernorState
sent_state = record {
  recent_dispatches = 99000 ∷ [];
  project_last_dispatch = (codes "p", 99000) ∷ [];
  slot_last_dispatch = [];
  backoff_until = 0;
  rate_limit_strikes = 1;
  last_rate_limit_at = some 5;
}

abbrev governor : Governor
governor = record { state = sent_state; generation_reservations = []; reservation_sequence = 0 }

-- A pass every five seconds, with nothing else going on.
abbrev every_five_seconds : ℕ → Pass
every_five_seconds index = record {
  now = 100000 + 5000 * index;
  reserved_at = 100000 + 5000 * index;
  written = true;
  jitter = 3;
  others = λ g. g;
}

acquire-IsSettled_example :
    (a : AcquireResult) × (acquire unchanged default_prompt_dispatch_policy scope every_five_seconds
        100000 governor
      ≡ some a)
    × IsSettled unchanged default_prompt_dispatch_policy every_five_seconds a
unfolding normalize_key trim same
acquire-IsSettled_example =
    acquire-IsSettled unchanged default_prompt_dispatch_policy scope every_five_seconds 100000
      governor (record { some_in_window = omega arith; own_project = refl; own_slot = tt })

abbrev slot : Text → ℕ → AgentSlot
slot id observed_at = record {
  id = id;
  project_id = codes "p";
  role = codes "tester";
  status = AgentSlotStatus.idle;
  desired_state = AgentDesiredState.active;
  browser_state = AgentBrowserState.open_page;
  conversation_key = none;
  rollover_state = AgentRolloverState.idle;
  browser_page_status = some AgentPageStatus.idle;
  browser_runtime_observed_at = some observed_at;
  browser_quarantined = false;
  updated_at = 1;
}

-- A task for an architect, and two idle testers.
abbrev facts : ElasticFleetFacts
facts = record {
  project = record {
    id = codes "p";
    name = codes "n";
    status = ProjectStatus.active;
    min_slots = 1;
    max_slots = 2;
  };
  agents = slot (codes "a") 5 ∷ slot (codes "b") 1 ∷ [];
  work = record {
    tasks =
        Fields.field (codes "id") (Json.str (codes "t")) (
          Fields.field (codes "project") (Json.str (codes "n"))
            (Fields.field (codes "targetRole") (Json.str (codes "architect")) Fields.end))
        ∷ [];
    attempts = [];
  };
  active_lease_holder_ids = [];
  unsettled_browser_slot_ids = [];
  now = 10;
  idle_grace_ms = some (Number.natural 2);
}

abbrev no_json : Text → Option Json
no_json t = none

abbrev always_first : Text → Text → Bool
always_first a b = true

abbrev planned : List ElasticFleetDecision
planned =
    ElasticFleetDecision.suspend (codes "b")
    ∷ ElasticFleetDecision.spawn (codes "ARCHITECT") (codes "class:architect")
    ∷ []

plan_elastic_fleet-IsWithin_example : IsWithin unchanged always_first no_json facts 2 planned
unfolding plan_elastic_fleet fill_roles sort_by role_demand demand_of_tasks same_option member same
    trim task_terminal all get put insert_by fill_role suspend_idle cleanup_order affinity_of
    by_field terminal_ids texts_in active_agents cleanup_eligible count_affinity project_agents
    suspended_order includes filter index_of agent_role_class collapse_spaces normalized_role pieces
    role_affinity_key role_tokens split_tokens stable_role_label starts_with
plan_elastic_fleet-IsWithin_example =
    plan_elastic_fleet-IsWithin unchanged always_first no_json facts 2 planned refl refl

-- A runner that was kicked twice, and whose first run fails.
abbrev kicked_runner : CoalescingRunner
kicked_runner = kick new_runner

abbrev failed_runner : CoalescingRunner
failed_runner = end_run true (kick kicked_runner)

kick-starts_example : 1 < (finish failed_runner).started
unfolding kick drain end_run
kick-starts_example =
    kick-starts kicked_runner (finish failed_runner) 2
      (Trace.ended (kick kicked_runner) true refl
        (Trace.finished failed_runner refl (Trace.here (finish failed_runner))))
      (inl (omega arith))
