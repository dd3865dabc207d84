-- ===== src/Bindings.antt =====
-- src/bindingStore.ts: the roles that conversations and tabs are bound to. A storage holds one value under
-- the store's key, of any shape; what is written is read back as it was. Keys that name members of every
-- JavaScript object are left aside.
pub mod Resolved
pub mod Stored
use charterion.Roles.{decimal}
use charterion.Prelude.{
  ℕ, suc, Text, codes, Option, none, some, List, [], ◌∷◌, Bool, true, false, not, ◌||◌, ◌&&◌,
  if◌then◌else◌, same, same_option, is_some, starts_with, present, get, put, delete, text_eq,
  nat_eq,
}
use charterion.Prelude.Json.{Json, Fields, member, undefined, str, obj, field, end}
use charterion.Contracts.{ChatSnapshot, RoleBinding}

abbrev pub empty_binding : RoleBinding
empty_binding = record { role = []; project = []; notes = []; agent_slot_id = none }

pub record BindingStores : Type 0 where
  pub persistent : List (Text × RoleBinding)
  pub ephemeral : List (Text × RoleBinding)
  pub dirty : Bool

-- The values of `storage.local` and `storage.session` under the store's keys.
pub record BindingStorage : Type 0 where
  pub local : Json
  pub session : Json

-- `String(tabId)`; a number has fewer digits than it counts, or one.
abbrev pub tab_key : ℕ → Text
tab_key tab_id = decimal (suc tab_id) tab_id

-- The four fields as they are found.
unfoldable pub binding_of : Json → Json → Json → Json → Option RoleBinding
binding_of (str role) (str project) (str notes) undefined =
    some (record { role = role; project = project; notes = notes; agent_slot_id = none })
binding_of (str role) (str project) (str notes) (str slot) =
    some (record { role = role; project = project; notes = notes; agent_slot_id = some slot })
binding_of _ _ _ _ = none

unfoldable pub parse_binding : Json → Option RoleBinding
parse_binding (obj fs) =
    binding_of (member fs (codes "role")) (member fs (codes "project")) (member fs (codes "notes"))
      (member fs (codes "agentSlotId"))
parse_binding _ = none

unfoldable pub parse_entries : Fields → List (Text × RoleBinding) → List (Text × RoleBinding)
parse_entries end result = result
parse_entries (field key raw fs) result =
    parse_entries fs (elim (parse_binding raw) [ none ↦ result | some b ↦ put result key b ])

unfoldable pub parse_binding_map : Json → List (Text × RoleBinding)
parse_binding_map (obj fs) = parse_entries fs []
parse_binding_map _ = []

unfoldable pub same_binding : Option RoleBinding → RoleBinding → Bool
same_binding none b = false
same_binding (some a) b =
    same a.role b.role
    && same a.project b.project
    && same a.notes b.notes
    && same_option a.agent_slot_id b.agent_slot_id

-- The object that a map of bindings is.
abbrev slot_field : Option Text → Fields
slot_field none = end
slot_field (some slot) = field (codes "agentSlotId") (str slot) end

abbrev pub binding_value : RoleBinding → Json
binding_value b = obj (
    field (codes "role") (str b.role) (
      field (codes "project") (str b.project)
        (field (codes "notes") (str b.notes) (slot_field b.agent_slot_id))))

unfoldable pub binding_fields : List (Text × RoleBinding) → Fields
binding_fields [] = end
binding_fields (e ∷ es) = field e.0 (binding_value e.1) (binding_fields es)

abbrev pub map_value : List (Text × RoleBinding) → Json
map_value bindings = obj (binding_fields bindings)

abbrev pub read_persistent : BindingStorage → List (Text × RoleBinding)
read_persistent storage = parse_binding_map storage.local

abbrev pub read_ephemeral : BindingStorage → List (Text × RoleBinding)
read_ephemeral storage = parse_binding_map storage.session

unfoldable pub read : BindingStorage → BindingStores
read storage = record {
  persistent = read_persistent storage;
  ephemeral = read_ephemeral storage;
  dirty = false;
}

abbrev write_persistent : BindingStorage → List (Text × RoleBinding) → BindingStorage
write_persistent storage bindings = record storage { local = map_value bindings }

abbrev write_ephemeral : BindingStorage → List (Text × RoleBinding) → BindingStorage
write_ephemeral storage bindings = record storage { session = map_value bindings }

-- The binding, with the stores after the call.
unfoldable pub resolve : ℕ → ChatSnapshot → BindingStores → RoleBinding × BindingStores
resolve tab_id snapshot stores = elim (get stores.persistent snapshot.conversation_key) [
  | some durable ↦ (durable, stores)
  | none ↦ elim (get stores.ephemeral (tab_key tab_id)) [
    | none ↦ (empty_binding, stores)
    | some temporary ↦
        if present snapshot.conversation_id
        then (
          temporary,
          record {
            persistent = put stores.persistent snapshot.conversation_key temporary;
            ephemeral = delete stores.ephemeral (tab_key tab_id);
            dirty = true;
          },
        )
        else (temporary, stores)
  ]
]

-- The storage and the stores after the writes.
unfoldable pub persist : BindingStorage → BindingStores → BindingStorage × BindingStores
persist storage stores = if not stores.dirty then (storage, stores) else (
  write_ephemeral (write_persistent storage stores.persistent) stores.ephemeral,
  record stores { dirty = false },
)

-- The storage after a binding was set, unless it is there, or was deleted, if it is there.
unfoldable pub set_persistent : BindingStorage → Text → RoleBinding → BindingStorage
set_persistent storage key binding =
    if same_binding (get (read_persistent storage) key) binding
    then storage
    else write_persistent storage (put (read_persistent storage) key binding)

unfoldable pub set_ephemeral : BindingStorage → Text → RoleBinding → BindingStorage
set_ephemeral storage key binding =
    if same_binding (get (read_ephemeral storage) key) binding
    then storage
    else write_ephemeral storage (put (read_ephemeral storage) key binding)

unfoldable pub drop_persistent : BindingStorage → Text → BindingStorage
drop_persistent storage key =
    if is_some (get (read_persistent storage) key)
    then write_persistent storage (delete (read_persistent storage) key)
    else storage

unfoldable pub drop_ephemeral : BindingStorage → Text → BindingStorage
drop_ephemeral storage key =
    if is_some (get (read_ephemeral storage) key)
    then write_ephemeral storage (delete (read_ephemeral storage) key)
    else storage

unfoldable pub update : BindingStorage → ℕ → Text → RoleBinding → BindingStorage
update storage tab_id conversation_key binding =
    if not (starts_with (codes "conversation:") conversation_key)
    then set_ephemeral storage (tab_key tab_id) binding
    else drop_ephemeral (set_persistent storage conversation_key binding) (tab_key tab_id)

abbrev key_or : Option Text → Text
key_or none = []
key_or (some key) = key

abbrev drop_tab : BindingStorage → Option ℕ → BindingStorage
drop_tab storage none = storage
drop_tab storage (some tab_id) = drop_ephemeral storage (tab_key tab_id)

-- Each of the two keys that is given.
unfoldable pub clear : BindingStorage → Option Text → Option ℕ → BindingStorage
clear storage conversation_key tab_id =
    drop_tab
      (if present conversation_key
        then drop_persistent storage (key_or conversation_key)
        else storage)
      tab_id
