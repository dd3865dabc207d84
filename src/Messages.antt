-- ===== src/Messages.antt =====
-- src/messageBus.ts: messages between agents, their validation, and the plan of their delivery.
pub mod Index
pub mod Consumed
pub mod Delivery
use charterion.Prelude.{
  ℕ, Text, Option, none, some, List, [], ◌∷◌, ◌++◌, map, Bool, true, false, not, ◌||◌, ◌&&◌,
  if◌then◌else◌, trim, truthy, present, same, includes, text_eq, get, put, filter, any, length,
  ◌==◌, ltb, Result, ok, err, ◌>>=◌, ◌>>◌, throw_if, or_else,
}
use charterion.Contracts.{
  AgentMessage, AgentMessageTarget, CreateAgentMessageInput, ManagedTab, SendAttemptRecord,
  SendAttemptState, is_idle, role, project, prepared, dispatched, acknowledged, reply_observed,
  failed, uncertain,
}

abbrev pub max_message_content_chars : ℕ
max_message_content_chars = 20000

pub data MessageError : Type 0 where
  id_required project_required sender_required content_required content_too_large role_required
        recipients_empty recipients_not_unique :
      MessageError

-- The items of `new Set(list)`, in the order of their last occurrence.
unfoldable pub set_of : List Text → List Text
set_of [] = []
set_of (x ∷ xs) = let rest = set_of xs in if includes xs x then rest else x ∷ rest

abbrev lacks_role : AgentMessageTarget → Bool
lacks_role (role r) = not (truthy (trim r))
lacks_role project = false

abbrev pub is_empty : List Text → Bool
is_empty [] = true
is_empty (x ∷ xs) = false

unfoldable pub check_recipients : Option (List Text) → Result MessageError (Unit {0})
check_recipients none = ok tt
check_recipients (some ks) = do
  throw_if (is_empty ks) recipients_empty
  throw_if (not (length (set_of ks) == length ks)) recipients_not_unique

unfoldable pub validate_agent_message : AgentMessage → Result MessageError (Unit {0})
unfolding check_recipients
validate_agent_message m = do
  throw_if (not (truthy (trim m.id))) id_required
  throw_if (not (truthy (trim m.project))) project_required
  throw_if (not (truthy (trim m.from_role))) sender_required
  throw_if (not (truthy (trim m.content))) content_required
  throw_if (ltb max_message_content_chars (length m.content)) content_too_large
  throw_if (lacks_role m.target) role_required
  check_recipients m.recipient_conversation_keys

abbrev trim_target : AgentMessageTarget → AgentMessageTarget
trim_target (role r) = role (trim r)
trim_target project = project

-- `if (input.taskId?.trim()) message.taskId = input.taskId.trim()`.
abbrev trim_task : Option Text → Option Text
trim_task none = none
trim_task (some t) = if truthy (trim t) then some (trim t) else none

unfoldable pub create_agent_message :
    CreateAgentMessageInput → Text → ℕ → Result MessageError AgentMessage
create_agent_message input id now =
    let message : AgentMessage = record {
      id = id;
      project = trim input.project;
      from_role = trim input.from_role;
      target = trim_target input.target;
      type = input.type;
      content = trim input.content;
      task_id = trim_task input.task_id;
      attempt_ids = [];
      recipient_conversation_keys = none;
      created_at = now;
      updated_at = now;
    } in
    validate_agent_message message >> ok message

-- `ACTIVE_ATTEMPT_STATES.has(state) || state === 'uncertain'`.
abbrev pub is_unresolved : SendAttemptState → Bool
is_unresolved prepared = true
is_unresolved dispatched = true
is_unresolved acknowledged = true
is_unresolved uncertain = true
is_unresolved _ = false

-- `CONSUMED_ATTEMPT_STATES.has(state)`.
abbrev pub is_consumed : SendAttemptState → Bool
is_consumed dispatched = true
is_consumed acknowledged = true
is_consumed reply_observed = true
is_consumed _ = false

abbrev pub is_uncertain : SendAttemptState → Bool
is_uncertain uncertain = true
is_uncertain _ = false

abbrev pub is_failed : SendAttemptState → Bool
is_failed failed = true
is_failed _ = false

unfoldable pub tab_has_unresolved_attempt : ManagedTab → Bool
tab_has_unresolved_attempt tab = elim tab.last_attempt [
  | none ↦ false
  | some a ↦ is_unresolved a.state
]

pub data DeliveryError : Type 0 where
  uncertain_delivery not_failed : DeliveryError

unfoldable pub check_deliveries :
    List Text → Text → List SendAttemptRecord → Result DeliveryError (Unit {0})
check_deliveries owned key [] = ok tt
check_deliveries owned key (a ∷ more) =
    let rest = check_deliveries owned key more in
    if not (includes owned a.attempt_id) || not (same a.conversation_key key)
    then rest
    else if is_uncertain a.state
    then err uncertain_delivery
    else if not (is_failed a.state)
    then err not_failed
    else rest

unfoldable pub assert_message_delivery_available :
    AgentMessage → List SendAttemptRecord → Text → Result DeliveryError (Unit {0})
assert_message_delivery_available m attempts key =
    if is_empty m.attempt_ids then ok tt else check_deliveries m.attempt_ids key attempts

pub data PlanError : Type 0 where
  may_duplicate : PlanError
  no_tab_for_role ambiguous_role : Text → PlanError
  no_tab_for_project : PlanError
  not_open open_twice left_project left_role not_reusable : Text → PlanError

pub record MessageDispatchPlan : Type 0 where
  pub tab_ids : List ℕ
  pub recipient_conversation_keys : Option (List Text)
  pub error : Option PlanError

-- `tabRole === role`, or any role at all for a message to the project.
abbrev pub addressed : AgentMessageTarget → ManagedTab → Bool
addressed (role r) tab = same (trim tab.binding.role) r
addressed project tab = truthy (trim tab.binding.role)

abbrev checked_matches : AgentMessageTarget → List ManagedTab → Result PlanError (List ManagedTab)
checked_matches (role r) [] = err (no_tab_for_role r)
checked_matches (role r) (t ∷ []) = ok (t ∷ [])
checked_matches (role r) (t ∷ u ∷ ts) = err (ambiguous_role r)
checked_matches project [] = err no_tab_for_project
checked_matches project (t ∷ ts) = ok (t ∷ ts)

unfoldable pub discover_recipients :
    AgentMessage → List ManagedTab → Result PlanError (List ManagedTab)
discover_recipients m tabs =
    checked_matches m.target
      (filter (λ tab. same (trim tab.binding.project) m.project && addressed m.target tab) tabs)

unfoldable pub consumed_by :
    List Text → List SendAttemptRecord → List Text → Result PlanError (List Text)
consumed_by owned [] consumed = ok consumed
consumed_by owned (a ∷ more) consumed =
    let mine = includes owned a.attempt_id in
    let rest =
      consumed_by owned more
        (if mine && is_consumed a.state then a.conversation_key ∷ consumed else consumed) in
    if mine && is_uncertain a.state then err may_duplicate else rest

unfoldable pub consumed_message_conversations :
    AgentMessage → List SendAttemptRecord → Result PlanError (List Text)
consumed_message_conversations m attempts =
    if is_empty m.attempt_ids then ok [] else consumed_by m.attempt_ids attempts []

unfoldable pub index_pending_tabs :
    List Text → List ManagedTab → List (Text × List ManagedTab) → List (Text × List ManagedTab)
index_pending_tabs pending [] index = index
index_pending_tabs pending (tab ∷ tabs) index =
    let key = tab.snapshot.conversation_key in
    index_pending_tabs pending tabs (
      if includes pending key
      then put index key (or_else (get index key) [] ++ (tab ∷ []))
      else index)

-- `message.target.kind === 'role' && tab.binding.role.trim() !== message.target.role`.
abbrev pub left : AgentMessageTarget → ManagedTab → Bool
left (role r) tab = not (same (trim tab.binding.role) r)
left project tab = false

unfoldable pub check_tab : AgentMessage → Text → List ManagedTab → Result PlanError ManagedTab
check_tab m key [] = err (not_open key)
check_tab m key (t ∷ u ∷ ts) = err (open_twice key)
check_tab m key (tab ∷ []) = do
  throw_if (not (same (trim tab.binding.project) m.project)) (left_project key)
  throw_if (left m.target tab) (left_role key)
  throw_if (not (is_idle tab.snapshot.status) || tab_has_unresolved_attempt tab) (not_reusable key)
  ok tab

unfoldable pub pending_tabs :
    AgentMessage → List (Text × List ManagedTab) → List Text → Result PlanError (List ManagedTab)
pending_tabs m index [] = ok []
pending_tabs m index (key ∷ keys) = do
  tab ← check_tab m key (or_else (get index key) [])
  tabs ← pending_tabs m index keys
  ok (tab ∷ tabs)

abbrev pub recipients : AgentMessage → List ManagedTab → Result PlanError (List Text)
recipients m tabs = elim m.recipient_conversation_keys [
  | some keys ↦ ok keys
  | none ↦
      discover_recipients m tabs >>= λ found. ok (map (λ tab. tab.snapshot.conversation_key) found)
]

abbrev pub planned : List Text → Result PlanError (List ManagedTab) → MessageDispatchPlan
planned keys (err e) = record {
  tab_ids = [];
  recipient_conversation_keys = some keys;
  error = some e;
}
planned keys (ok tabs) = record {
  tab_ids = map (λ tab. tab.tab_id) tabs;
  recipient_conversation_keys = some keys;
  error = none;
}

abbrev refused : PlanError → MessageDispatchPlan
refused e = record { tab_ids = []; recipient_conversation_keys = none; error = some e }

unfoldable pub plan_for :
    AgentMessage
    → List ManagedTab
    → Result PlanError (List Text)
    → Result PlanError (List Text)
    → MessageDispatchPlan
plan_for m tabs (err e) keys = refused e
plan_for m tabs (ok consumed) (err e) = refused e
plan_for m tabs (ok consumed) (ok keys) =
    let pending = filter (λ key. not (includes consumed key)) keys in
    planned keys (pending_tabs m (index_pending_tabs pending tabs []) pending)

-- With no pending recipient the loop of the source has nothing to do, as here.
unfoldable pub plan_message_dispatch :
    AgentMessage
    → List SendAttemptRecord
    → List ManagedTab
    → Result MessageError MessageDispatchPlan
plan_message_dispatch m attempts tabs = do
  validate_agent_message m
  ok (plan_for m tabs (consumed_message_conversations m attempts) (recipients m tabs))
