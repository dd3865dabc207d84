-- ===== src/Bindings/Resolved.antt =====
-- src/bindingStore.ts: what is resolved after an update, a promotion and a clearing.
use charterion.Prelude.{
  ◌∙◌, present, ℕ, Text, codes, ◌≡◌, refl, sym, subst, ap, Option, none, some, true, false, not,
  ◌||◌, arith, same_iff, same_option_iff, is_some, starts_with, get, get-put_same, text_eq, nat_eq,
  truthy, Bool-cases, inl, inr,
}
use charterion.Bindings.Stored.{get-written_put, get-written_delete}
use charterion.Contracts.{ChatSnapshot, RoleBinding}
use charterion.Bindings.{
  empty_binding, BindingStores, BindingStorage, same_binding, read, resolve, update, clear, tab_key,
  read_persistent, read_ephemeral, set_persistent, set_ephemeral, drop_persistent, drop_ephemeral,
  parse_binding_map,
}

same_binding-eq : (a : Option RoleBinding) (b : RoleBinding) → same_binding a b ≡ true → a ≡ some b
unfolding same_binding
same_binding-eq none b h = cc
same_binding-eq (some a) b h = ap some (
    fields a b ((same_iff a.role b.role).0 (ground arith))
      ((same_iff a.project b.project).0 (ground arith))
      ((same_iff a.notes b.notes).0 (ground arith))
      ((same_option_iff a.agent_slot_id b.agent_slot_id).0 (ground arith)))
  where
    fields :
        (x y : RoleBinding)
        → x.role ≡ y.role
        → x.project ≡ y.project
        → x.notes ≡ y.notes
        → x.agent_slot_id ≡ y.agent_slot_id
        → x ≡ y
    fields x y e₁ e₂ e₃ e₄ = cc

-- A map in which an entry was set has the entry, and one from which it was dropped does not; the other
-- map is as it was.
module _ (storage : BindingStorage) (key : Text) where
  set_persistent-get :
      (b : RoleBinding) → get (read_persistent (set_persistent storage key b)) key ≡ some b
  unfolding set_persistent
  set_persistent-get b = elim (Bool-cases (same_binding (get (read_persistent storage) key) b)) [
    | inl there ↦ rw there (same_binding-eq (get (read_persistent storage) key) b there)
    | inr absent ↦ rw absent (get-written_put storage.local key b)
  ]

  set_ephemeral-get :
      (b : RoleBinding)
      → (get (read_ephemeral (set_ephemeral storage key b)) key ≡ some b)
        × ((set_ephemeral storage key b).local ≡ storage.local)
  unfolding set_ephemeral
  set_ephemeral-get b = elim (Bool-cases (same_binding (get (read_ephemeral storage) key) b)) [
    | inl there ↦ rw there (same_binding-eq (get (read_ephemeral storage) key) b there, refl)
    | inr absent ↦ rw absent (get-written_put storage.session key b, refl)
  ]

  drop_persistent-get : get (read_persistent (drop_persistent storage key)) key ≡ none
  unfolding drop_persistent
  drop_persistent-get = elim (Bool-cases (is_some (get (read_persistent storage) key))) [
    | inl there ↦ rw there (get-written_delete storage.local key)
    | inr absent ↦ rw absent (ground arith)
  ]

  drop_ephemeral-get :
      (get (read_ephemeral (drop_ephemeral storage key)) key ≡ none)
      × ((drop_ephemeral storage key).local ≡ storage.local)
  unfolding drop_ephemeral
  drop_ephemeral-get = elim (Bool-cases (is_some (get (read_ephemeral storage) key))) [
    | inl there ↦ rw there (get-written_delete storage.session key, refl)
    | inr absent ↦ rw absent (ground arith, refl)
  ]

resolve-durable :
    (tab_id : ℕ) (snapshot : ChatSnapshot) (stores : BindingStores) (b : RoleBinding)
    → get stores.persistent snapshot.conversation_key ≡ some b
    → (resolve tab_id snapshot stores).0 ≡ b
unfolding resolve
resolve-durable tab_id snapshot stores b h = ground arith

resolve-temporary :
    (tab_id : ℕ) (snapshot : ChatSnapshot) (stores : BindingStores) (b : RoleBinding)
    → get stores.persistent snapshot.conversation_key ≡ none
    → get stores.ephemeral (tab_key tab_id) ≡ some b
    → (resolve tab_id snapshot stores).0 ≡ b
unfolding resolve
resolve-temporary tab_id snapshot stores b h k = ground arith

update-durable :
    (storage : BindingStorage) (tab_id : ℕ) (key : Text) (b : RoleBinding)
    → starts_with (codes "conversation:") key ≡ true
    → get (read_persistent (update storage tab_id key b)) key ≡ some b
unfolding update
update-durable storage tab_id key b h =
    rw (h, update)
      (subst (λ value. get (parse_binding_map value) key ≡ some b)
        (sym (drop_ephemeral-get (set_persistent storage key b) (tab_key tab_id)).1)
        (set_persistent-get storage key b))

update-temporary :
    (storage : BindingStorage) (tab_id : ℕ) (key : Text) (b : RoleBinding)
    → starts_with (codes "conversation:") key ≡ false
    → (get (read_ephemeral (update storage tab_id key b)) (tab_key tab_id) ≡ some b)
      × ((update storage tab_id key b).local ≡ storage.local)
unfolding update
update-temporary storage tab_id key b h =
    rw (h, update) (set_ephemeral-get storage (tab_key tab_id) b)

promotes :
    (tab_id : ℕ) (snapshot : ChatSnapshot) (stores : BindingStores) (b : RoleBinding)
    → present snapshot.conversation_id ≡ true
    → get stores.persistent snapshot.conversation_key ≡ none
    → get stores.ephemeral (tab_key tab_id) ≡ some b
    → get (resolve tab_id snapshot stores).1.persistent snapshot.conversation_key ≡ some b
unfolding resolve
promotes tab_id snapshot stores b h k e =
    ground (arith, get-put_same stores.persistent snapshot.conversation_key b)

keeps :
    (tab_id : ℕ) (snapshot : ChatSnapshot) (stores : BindingStores) (b : RoleBinding)
    → get stores.persistent snapshot.conversation_key ≡ some b
    → get (resolve tab_id snapshot stores).1.persistent snapshot.conversation_key ≡ some b
unfolding resolve
keeps tab_id snapshot stores b h = ground arith

-- What was set for a tab and its page is what is resolved for them: for the page of a conversation in
-- any case, and for another page where its key has no durable binding.
pub resolve-update :
    (storage : BindingStorage) (tab_id : ℕ) (snapshot : ChatSnapshot) (b : RoleBinding)
    → (starts_with (codes "conversation:") snapshot.conversation_key
        || not (is_some (get (read_persistent storage) snapshot.conversation_key)))
      ≡ true
    → (resolve tab_id snapshot (read (update storage tab_id snapshot.conversation_key b))).0 ≡ b
unfolding read
resolve-update storage tab_id snapshot b h =
    elim (Bool-cases (starts_with (codes "conversation:") snapshot.conversation_key)) [
      | inl durable ↦
          resolve-durable tab_id snapshot (read (update storage tab_id snapshot.conversation_key b))
            b (update-durable storage tab_id snapshot.conversation_key b durable)
      | inr temporary ↦
          let (there, same_local) =
            update-temporary storage tab_id snapshot.conversation_key b temporary in
          resolve-temporary tab_id snapshot
            (read (update storage tab_id snapshot.conversation_key b)) b
            (subst (λ value. get (parse_binding_map value) snapshot.conversation_key ≡ none)
              (sym same_local) (ground arith))
            there
    ]

clear-none :
    (storage : BindingStorage) (key : Text) (tab_id : ℕ)
    → truthy key ≡ true
    → (get (read_persistent (clear storage (some key) (some tab_id))) key ≡ none)
      × (get (read_ephemeral (clear storage (some key) (some tab_id))) (tab_key tab_id) ≡ none)
unfolding clear
clear-none storage key tab_id h =
    rw (h, clear)
      (
        subst (λ value. get (parse_binding_map value) key ≡ none)
            (sym (drop_ephemeral-get (drop_persistent storage key) (tab_key tab_id)).1)
            (drop_persistent-get storage key),
        (drop_ephemeral-get (drop_persistent storage key) (tab_key tab_id)).0,
      )

resolve-none :
    (tab_id : ℕ) (snapshot : ChatSnapshot) (stores : BindingStores)
    → get stores.persistent snapshot.conversation_key ≡ none
    → get stores.ephemeral (tab_key tab_id) ≡ none
    → (resolve tab_id snapshot stores).0 ≡ empty_binding
unfolding resolve
resolve-none tab_id snapshot stores h k = ground arith

-- Once both keys are cleared nothing is resolved for the tab and the page.
pub resolve-clear :
    (storage : BindingStorage) (tab_id : ℕ) (snapshot : ChatSnapshot)
    → truthy snapshot.conversation_key ≡ true
    → (resolve tab_id snapshot
        (read (clear storage (some snapshot.conversation_key) (some tab_id)))).0
      ≡ empty_binding
unfolding read
resolve-clear storage tab_id snapshot h =
    let (no_local, no_session) = clear-none storage snapshot.conversation_key tab_id h in
    resolve-none tab_id snapshot
      (read (clear storage (some snapshot.conversation_key) (some tab_id))) no_local no_session

-- On the page of a conversation, a binding that is found for one tab, the conversation's or the tab's
-- own, is found from then on for every tab that shows the conversation.
pub resolve-promoted :
    (tab_id other : ℕ) (snapshot : ChatSnapshot) (stores : BindingStores)
    → present snapshot.conversation_id ≡ true
    → (is_some (get stores.persistent snapshot.conversation_key)
        || is_some (get stores.ephemeral (tab_key tab_id)))
      ≡ true
    → (resolve other snapshot (resolve tab_id snapshot stores).1).0
      ≡ (resolve tab_id snapshot stores).0
resolve-promoted tab_id other snapshot stores h k =
    by_durable (get stores.persistent snapshot.conversation_key) refl
  where
    Goal : Type 0
    Goal =
        (resolve other snapshot (resolve tab_id snapshot stores).1).0
        ≡ (resolve tab_id snapshot stores).0

    by_temporary :
        get stores.persistent snapshot.conversation_key ≡ none
        → (o : Option RoleBinding) → get stores.ephemeral (tab_key tab_id) ≡ o
        → Goal
    by_temporary absent none e = absurd (ground arith)
    by_temporary absent (some b) e =
        resolve-durable other snapshot (resolve tab_id snapshot stores).1 b
          (promotes tab_id snapshot stores b h absent e)
        ∙ sym (resolve-temporary tab_id snapshot stores b absent e)

    by_durable :
        (o : Option RoleBinding) → get stores.persistent snapshot.conversation_key ≡ o → Goal
    by_durable none e = by_temporary e (get stores.ephemeral (tab_key tab_id)) refl
    by_durable (some b) e =
        resolve-durable other snapshot (resolve tab_id snapshot stores).1 b
          (keeps tab_id snapshot stores b e)
        ∙ sym (resolve-durable tab_id snapshot stores b e)
