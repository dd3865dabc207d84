-- ===== src/Roles/Label.antt =====
-- shared/agentRole.ts: which roles match, and the labels for new ones.
use charterion.Prelude.{
  ℕ, zero, suc, ◌+◌, ◌≡◌, subst, Text, codes, some, List, ◌++◌, false, arith, includes, text_eq,
  map, some-eq, none-ne-some, Bool-cases, inl, inr,
}
use charterion.Roles.{
  free_label, stable_role_label, normalized_role, agent_role_class, role_label, decimal,
}

module _ (to_lower : Text → Text) where
  free_label_free :
      (base : Text) (occupied : List Text) (index fuel : ℕ) (label : Text)
      → free_label to_lower base occupied index fuel ≡ some label
      → includes occupied (normalized_role to_lower label) ≡ false
  unfolding free_label
  free_label_free base occupied index zero label h = absurd (none-ne-some h)
  free_label_free base occupied index (suc fuel) label h =
      let candidate = base ++ codes "_" ++ decimal 4 index in
      elim (Bool-cases (includes occupied (normalized_role to_lower candidate))) [
        | inl taken ↦ free_label_free base occupied (index + 1) fuel label (ground arith)
        | inr open_label ↦
            let is_label : candidate ≡ label = some-eq (ground arith) in
            subst (λ l. includes occupied (normalized_role to_lower l) ≡ false) is_label open_label
      ]

  -- A label that is given to a new role is not, but for spaces and case, one of the occupied roles.
  pub stable_role_label-free :
      (requested : Text) (occupied : List Text) (label : Text)
      → stable_role_label to_lower requested occupied ≡ some label
      → includes (map (normalized_role to_lower) occupied) (normalized_role to_lower label) ≡ false
  unfolding stable_role_label
  stable_role_label-free requested occupied label h =
      let base = role_label (agent_role_class to_lower requested) requested in
      let taken_roles = map (normalized_role to_lower) occupied in
      elim (Bool-cases (includes taken_roles (normalized_role to_lower base))) [
        | inl taken ↦ free_label_free base taken_roles 2 9998 label (ground arith)
        | inr open_label ↦
            let is_label : base ≡ label = some-eq (ground arith) in
            subst (λ l. includes taken_roles (normalized_role to_lower l) ≡ false) is_label
              open_label
      ]
