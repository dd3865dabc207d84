-- ===== src/Control/Fleet.antt =====
-- control/src/elasticFleet.ts: which agents are suspended, resumed or spawned for the work at hand. The
-- tasks and attempts are JSON objects of unknown shape. `JSON.parse`, `toLowerCase` and
-- `left.localeCompare(right) <= 0` are parameters, and the texts of the reasons are left out.
pub mod Idle
pub mod Counts
pub mod Demand
pub mod Loops
pub mod Plan
pub mod Within
use charterion.Prelude.{
  ℕ, zero, suc, ◌+◌, Text, codes, Option, none, some, List, [], ◌∷◌, ◌++◌, Bool, true, false, not,
  ◌&&◌, ◌||◌, if◌then◌else◌, ltb, leb, ◌==◌, same, same_option, is_some, trim, truthy, filter, map,
  get_last?, get, put, or_else, text_eq,
}
use charterion.Prelude.Json.{Json, Number, Items, Fields, member, items}

pub data ProjectStatus : Type 0 where
  active draining paused archived : ProjectStatus

pub data AgentSlotStatus : Type 0 where
  idle assigned suspended retired : AgentSlotStatus

pub data AgentDesiredState : Type 0 where
  active suspended retired : AgentDesiredState

pub data AgentBrowserState : Type 0 where
  absent opening open_page closing error : AgentBrowserState

pub data AgentRolloverState : Type 0 where
  idle requested opening bootstrapping : AgentRolloverState

pub data AgentPageStatus : Type 0 where
  idle generating blocked unauthorized error unknown unavailable : AgentPageStatus

-- The fields that are read.
pub record ProjectCell : Type 0 where
  pub id : Text
  pub name : Text
  pub status : ProjectStatus
  pub min_slots : ℕ
  pub max_slots : ℕ

pub record AgentSlot : Type 0 where
  pub id : Text
  pub project_id : Text
  pub role : Text
  pub status : AgentSlotStatus
  pub desired_state : AgentDesiredState
  pub browser_state : AgentBrowserState
  pub conversation_key : Option Text
  pub rollover_state : AgentRolloverState
  pub browser_page_status : Option AgentPageStatus
  pub browser_runtime_observed_at : Option ℕ
  pub browser_quarantined : Bool
  pub updated_at : ℕ

pub record KernelWork : Type 0 where
  pub tasks : List Fields
  pub attempts : List Fields

pub record ElasticFleetFacts : Type 0 where
  pub project : ProjectCell
  pub agents : List AgentSlot
  pub work : KernelWork
  pub active_lease_holder_ids : List Text
  pub unsettled_browser_slot_ids : List Text
  pub now : ℕ
  pub idle_grace_ms : Option Number

pub data ElasticFleetDecision : Type 0 where
  suspend resume : (slot_id : Text) → ElasticFleetDecision
  spawn : (role affinity_key : Text) → ElasticFleetDecision

pub record RoleDemand : Type 0 where
  pub required : ℕ
  pub requested_role : Text

abbrev pub default_idle_suspend_grace_ms : ℕ
default_idle_suspend_grace_ms = 120000

-- The grace in whole milliseconds: between whole times a part of one counts as one. `none` is the error.
abbrev pub grace_of : Option Number → Option ℕ
grace_of none = some default_idle_suspend_grace_ms
grace_of (some (Number.natural n)) = some n
grace_of (some (Number.fraction floor)) = some (suc floor)
grace_of (some _) = none

abbrev pub project_is_active : ProjectStatus → Bool
project_is_active ProjectStatus.active = true
project_is_active _ = false

abbrev pub wants_active : AgentDesiredState → Bool
wants_active AgentDesiredState.active = true
wants_active _ = false

abbrev pub wants_suspended : AgentDesiredState → Bool
wants_suspended AgentDesiredState.suspended = true
wants_suspended _ = false

abbrev pub is_retired : AgentSlotStatus → Bool
is_retired AgentSlotStatus.retired = true
is_retired _ = false

abbrev pub is_suspended : AgentSlotStatus → Bool
is_suspended AgentSlotStatus.suspended = true
is_suspended _ = false

abbrev pub is_open_page : AgentBrowserState → Bool
is_open_page AgentBrowserState.open_page = true
is_open_page _ = false

abbrev pub rollover_is_idle : AgentRolloverState → Bool
rollover_is_idle AgentRolloverState.idle = true
rollover_is_idle _ = false

abbrev pub page_is_idle : Option AgentPageStatus → Bool
page_is_idle (some AgentPageStatus.idle) = true
page_is_idle _ = false
