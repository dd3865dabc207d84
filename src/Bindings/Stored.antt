-- ===== src/Bindings/Stored.antt =====
-- src/bindingStore.ts: a map of bindings that was written is read back.
use charterion.Prelude.{
  ◌≡◌, refl, ◌∙◌, ap, subst, Text, Option, none, some, List, [], ◌∷◌, false, arith, same, same_iff,
  get, put, delete, get-put, get-put_same, get-delete, same_refl, text_eq, Bool-cases, inl, inr,
}
use charterion.Prelude.Json.{Json, Fields, member}
use charterion.Contracts.{RoleBinding}
use charterion.Bindings.{
  binding_of, parse_binding, parse_entries, parse_binding_map, binding_value, binding_fields,
  map_value,
}

abbrev Bindings : Type 0
Bindings = List (Text × RoleBinding)

-- No key has two entries, as in an object.
abbrev pub KeysUnique : Bindings → Type 0
KeysUnique [] = Unit
KeysUnique (e ∷ m) = (get m e.0 ≡ none) × KeysUnique m

put-KeysUnique : (m : Bindings) (k : Text) (b : RoleBinding) → KeysUnique m → KeysUnique (put m k b)
unfolding put get
put-KeysUnique [] k b h = (refl, tt)
put-KeysUnique ((j, c) ∷ m) k b h = elim (Bool-cases (same j k)) [
  | inl is_it ↦ rw is_it (h.0, h.1)
  | inr other ↦ rw other (apart other, put-KeysUnique m k b h.1)
]
  where
    apart : same j k ≡ false → get (put m k b) j ≡ none
    apart other = ground (arith, get-put m k j b, same_iff j k, same_iff k j)

delete-KeysUnique : (m : Bindings) (k : Text) → KeysUnique m → KeysUnique (delete m k)
unfolding delete get
delete-KeysUnique [] k h = tt
delete-KeysUnique ((j, c) ∷ m) k h = elim (Bool-cases (same j k)) [
  | inl is_it ↦ rw is_it (delete-KeysUnique m k h.1)
  | inr other ↦ rw other (ground (arith, get-delete m k j), delete-KeysUnique m k h.1)
]

parse_binding-value : (b : RoleBinding) → parse_binding (binding_value b) ≡ some b
unfolding parse_binding binding_of member same
parse_binding-value b = go b.agent_slot_id
  where
    go :
        (o : Option Text)
        → parse_binding (binding_value (record b { agent_slot_id = o }))
          ≡ some (record b { agent_slot_id = o })
    go none = refl
    go (some slot) = refl

abbrev entry_or : Option RoleBinding → Option RoleBinding → Option RoleBinding
entry_or none o = o
entry_or (some b) o = some b

get-parse_entries :
    (m result : Bindings) (k : Text)
    → KeysUnique m
    → get (parse_entries (binding_fields m) result) k ≡ entry_or (get m k) (get result k)
unfolding parse_entries binding_fields get
get-parse_entries [] result k h = refl
get-parse_entries ((j, b) ∷ m) result k h =
    ap
      (λ o.
        get (parse_entries (binding_fields m) (elim o [ none ↦ result | some c ↦ put result j c ]))
          k)
      (parse_binding-value b)
    ∙ get-parse_entries m (put result j b) k h.1
    ∙ ap (entry_or (get m k)) (get-put result j k b)
    ∙ elim (Bool-cases (same j k)) [
      | inl is_it ↦
          let absent = subst (λ i. get m i ≡ none) ((same_iff j k).0 is_it) h.0 in
          rw (is_it, absent) refl
      | inr other ↦ rw other refl
    ]

-- The entries that were written are found again.
pub get-written :
    (m : Bindings) (k : Text) → KeysUnique m → get (parse_binding_map (map_value m)) k ≡ get m k
unfolding parse_binding_map get
get-written m k h = get-parse_entries m [] k h ∙ settled (get m k)
  where
    settled : (o : Option RoleBinding) → entry_or o none ≡ o
    settled none = refl
    settled (some b) = refl

parse_entries-KeysUnique :
    (fs : Fields) (result : Bindings) → KeysUnique result → KeysUnique (parse_entries fs result)
unfolding parse_entries
parse_entries-KeysUnique Fields.end result h = h
parse_entries-KeysUnique (Fields.field key raw fs) result h =
    parse_entries-KeysUnique fs _ (added (parse_binding raw))
  where
    added :
        (o : Option RoleBinding) → KeysUnique (elim o [ none ↦ result | some b ↦ put result key b ])
    added none = h
    added (some b) = put-KeysUnique result key b h

read-KeysUnique : (value : Json) → KeysUnique (parse_binding_map value)
unfolding parse_binding_map
read-KeysUnique (Json.obj fs) = parse_entries-KeysUnique fs [] tt
read-KeysUnique _ = tt

-- What is found in a value that was read, changed by one entry, written and read again.
module _ (value : Json) (k : Text) where
  pub get-written_put :
      (b : RoleBinding)
      → get (parse_binding_map (map_value (put (parse_binding_map value) k b))) k ≡ some b
  get-written_put b =
      get-written _ k (put-KeysUnique (parse_binding_map value) k b (read-KeysUnique value))
      ∙ get-put_same (parse_binding_map value) k b

  pub get-written_delete :
      get (parse_binding_map (map_value (delete (parse_binding_map value) k))) k ≡ none
  get-written_delete =
      get-written _ k (delete-KeysUnique (parse_binding_map value) k (read-KeysUnique value))
      ∙ ground (arith, get-delete (parse_binding_map value) k k, same_refl k)
