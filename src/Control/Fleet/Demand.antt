-- ===== src/Control/Fleet/Demand.antt =====
-- control/src/elasticFleet.ts: the roles that the ready tasks of a project ask for.
use charterion.Prelude.{
  zero, ◌+◌, Text, codes, Option, none, some, List, [], ◌∷◌, ◌++◌, Bool, true, false, not, ◌&&◌,
  ◌||◌, if◌then◌else◌, same, same_option, is_some, trim, truthy, present, includes, all, get_last?,
  get, put, or_else, text_eq, Result, ok, err,
}
use charterion.Prelude.Json.{Json, Number, Items, Fields, member}
use charterion.Protocol.Block.{Block, find_block}
use charterion.Protocol.Keys.{sorted_keys}
use charterion.Protocol.Review.{review_open, review_close}
use charterion.Protocol.Structured.{parse_structured_task_result}
use charterion.Roles.{AgentRoleClass, role_affinity_key}
use charterion.Control.Fleet.{ProjectCell, KernelWork, RoleDemand}

-- `text(value)`.
abbrev pub text_of : Json → Option Text
text_of (Json.str t) = if truthy (trim t) then some (trim t) else none
text_of _ = none

-- `value?.[key]`.
abbrev pub field_of : Json → Text → Json
field_of (Json.obj fs) key = member fs key
field_of _ key = Json.undefined

abbrev pub is_number : Json → Bool
is_number (Json.num n) = true
is_number _ = false

-- A value of JSON counts as true; it is never NaN.
abbrev pub counts_as_true : Json → Bool
counts_as_true Json.undefined = false
counts_as_true Json.null = false
counts_as_true (Json.bool b) = b
counts_as_true (Json.num (Number.natural zero)) = false
counts_as_true (Json.str t) = truthy t
counts_as_true _ = true

abbrev only_texts : Json → List Text → List Text
only_texts (Json.str t) rest = t ∷ rest
only_texts _ rest = rest

unfoldable pub texts_in : Items → List Text
texts_in Items.nil = []
texts_in (Items.cons j js) = only_texts j (texts_in js)

-- `Array.isArray(value) ? value.filter(string) : []`.
abbrev pub texts_of : Json → List Text
texts_of (Json.arr js) = texts_in js
texts_of _ = []

-- The map of the objects under the text of one of their fields; a later one replaces an earlier one.
unfoldable pub by_field : Text → List Fields → List (Text × Fields) → List (Text × Fields)
by_field key [] m = m
by_field key (fs ∷ rest) m = by_field key rest (put m (or_else (text_of (member fs key)) []) fs)

abbrev pub attempt_by_id : KernelWork → List (Text × Fields)
attempt_by_id work = by_field (codes "attemptId") work.attempts []

abbrev attempt_field : Option Fields → Text → Option Text
attempt_field none key = none
attempt_field (some fs) key = text_of (member fs key)

abbrev pub is_observed : Option Fields → Bool
is_observed attempt =
    same_option (attempt_field attempt (codes "state")) (some (codes "reply-observed"))

abbrev is_text : Text → Json → Bool
is_text expected (Json.str t) = same t expected
is_text expected _ = false

abbrev pub passing_value : Option Json → Bool
passing_value (some (Json.obj fs)) =
    same (sorted_keys fs) (codes "decision,nextInstruction,reason")
    && is_text (codes "pass") (member fs (codes "decision"))
    && is_some (text_of (member fs (codes "reason")))
    && is_text [] (member fs (codes "nextInstruction"))
passing_value _ = false

module _ (to_lower : Text → Text) where
  abbrev class_name : AgentRoleClass → Text
  class_name AgentRoleClass.supervisor = codes "supervisor"
  class_name AgentRoleClass.architect = codes "architect"
  class_name AgentRoleClass.implementer = codes "implementer"
  class_name AgentRoleClass.tester = codes "tester"
  class_name AgentRoleClass.integrator = codes "integrator"
  class_name AgentRoleClass.researcher = codes "researcher"
  class_name AgentRoleClass.operator = codes "operator"
  class_name AgentRoleClass.general = codes "general"

  abbrev spelled : AgentRoleClass × Text → Text
  spelled (AgentRoleClass.general, role) = codes "role:" ++ role
  spelled (role_class, role) = codes "class:" ++ class_name role_class

  unfoldable pub affinity_of : Text → Text
  affinity_of role = spelled (role_affinity_key to_lower role)

module _ (json_parse : Text → Option Json) where
  abbrev passing_block : Block → Bool
  passing_block (Block.found raw) = passing_value (json_parse raw)
  passing_block _ = false

  abbrev passing_reply : Option Text → Bool
  passing_reply none = false
  passing_reply (some reply) = passing_block (find_block review_open review_close (trim reply))

  unfoldable pub review_attempt_passed : Option Fields → Bool
  review_attempt_passed attempt =
      is_observed attempt && passing_reply (attempt_field attempt (codes "replyTextTail"))

  abbrev is_ok : {E A : Type 0} → Result E A → Bool
  is_ok (ok a) = true
  is_ok (err e) = false

  abbrev decides : Json → Bool
  decides decision =
      is_text (codes "approve") (field_of decision (codes "decision"))
      || is_text (codes "reject") (field_of decision (codes "decision"))

  -- The attempt of an id, when there is one.
  abbrev attempt_of : List (Text × Fields) → Option Text → Option Fields
  attempt_of attempts none = none
  attempt_of attempts (some id) = if truthy id then get attempts id else none

  abbrev terminal_under : Text → Fields → Option Fields → Bool
  terminal_under policy t attempt =
      if same policy (codes "reply")
      then is_observed attempt
      else if same policy (codes "structured-result")
      then is_observed attempt
        && is_ok (
            parse_structured_task_result json_parse
              (or_else (attempt_field attempt (codes "replyTextTail")) []))
      else if same policy (codes "review-pass")
      then review_attempt_passed attempt
      else if same policy (codes "human-approval")
      then decides (member t (codes "humanDecision"))
      else false

  unfoldable pub task_terminal : Fields → List (Text × Fields) → Bool
  task_terminal t attempts =
      let latest = get_last? (texts_of (member t (codes "attemptIds"))) in
      if is_number (member t (codes "skippedAt"))
        || is_number (member t (codes "cancelledAt"))
        || counts_as_true (member t (codes "machineCompletion"))
      then true
      else if present latest
          && same_option (text_of (member t (codes "retryAfterAttemptId"))) latest
      then false
      else terminal_under (or_else (text_of (member t (codes "completionPolicy"))) (codes "reply"))
          t (attempt_of attempts latest)

  -- The ids of the tasks that are at their end.
  unfoldable pub terminal_ids : List (Text × Fields) → List (Text × Fields) → List Text
  terminal_ids [] attempts = []
  terminal_ids (entry ∷ entries) attempts =
      let rest = terminal_ids entries attempts in
      if task_terminal entry.1 attempts then entry.0 ∷ rest else rest

  -- A task of the project that is ready for its role.
  abbrev asks : ProjectCell → List (Text × Fields) → List Text → Fields → Bool
  asks project attempts terminal t =
      same_option (text_of (member t (codes "project"))) (some project.name)
      && not (task_terminal t attempts)
      && all (λ id. includes terminal id) (texts_of (member t (codes "dependsOn")))

  module _ (to_lower : Text → Text) where
    abbrev add_demand :
        List (Text × RoleDemand) → Text → Text → Option RoleDemand → List (Text × RoleDemand)
    add_demand demand key role none =
        put demand key (record { required = 1; requested_role = role })
    add_demand demand key role (some d) = put demand key (record d { required = d.required + 1 })

    abbrev demand_for : List (Text × RoleDemand) → Option Text → List (Text × RoleDemand)
    demand_for demand none = demand
    demand_for demand (some role) =
        add_demand demand (affinity_of to_lower role) role (get demand (affinity_of to_lower role))

    unfoldable pub demand_of_tasks :
        ProjectCell
        → List (Text × Fields)
        → List Text
        → List Fields
        → List (Text × RoleDemand)
        → List (Text × RoleDemand)
    demand_of_tasks project attempts terminal [] demand = demand
    demand_of_tasks project attempts terminal (t ∷ ts) demand =
        demand_of_tasks project attempts terminal ts (
          if asks project attempts terminal t
          then demand_for demand (text_of (member t (codes "targetRole")))
          else demand)

    unfoldable pub role_demand : ProjectCell → KernelWork → List (Text × RoleDemand)
    role_demand project work =
        let attempts = attempt_by_id work in
        demand_of_tasks project attempts
          (terminal_ids (by_field (codes "id") work.tasks []) attempts) work.tasks []
