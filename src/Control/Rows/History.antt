-- ===== src/Control/Rows/History.antt =====
-- The tables of control/src over time: what a later row keeps of an earlier one is an interface, and
-- every row of a table goes on in the tables that the operations make of it.
use charterion.Prelude.{
  ◌≡◌, ◌⊎◌, refl, sym, subst, some, arith, same_iff, Bool-cases, some-eq, Text, List, [], ◌∷◌, ◌++◌,
  Bool, true, false, if◌then◌else◌, same, All, All-map, inl, inr,
}
use charterion.Control.Rows.{find_row, update_rows, has_row, unique_rows, update_rows-absent}

-- How a row may change: not at all, or by one change after another.
pub record History (A : Type 0) : Type 1 where
  pub evolves : A → A → Type 0
  pub unchanged : (x : A) → evolves x x
  pub then_changed : (x y z : A) → evolves x y → evolves y z → evolves x z

-- Some row of the list has the property.
abbrev pub AnyOf : {A : Type 0} → (A → Type 0) → List A → Type 0
AnyOf P [] = ⊥
AnyOf P (x ∷ rows) = P x ⊎ AnyOf P rows

pub AnyOf-map :
    {A : Type 0} {P Q : A → Type 0} (rows : List A)
    → ((x : A) → P x → Q x)
    → AnyOf P rows
    → AnyOf Q rows
AnyOf-map [] f h = absurd h
AnyOf-map (x ∷ rows) f (inl h) = inl (f x h)
AnyOf-map (x ∷ rows) f (inr h) = inr (AnyOf-map rows f h)

module _ {A : Type 0} (history : History A) where
  -- Every row goes on in the later table.
  abbrev pub GoesOn : (rows later : List A) → Type 0
  GoesOn rows later = All (λ x. AnyOf (history.evolves x) later) rows

  GoesOn-more : (rows later : List A) (y : A) → GoesOn rows later → GoesOn rows (y ∷ later)
  GoesOn-more rows later y = All-map rows (λ x h. inr h)

  pub GoesOn-self : (rows : List A) → GoesOn rows rows
  GoesOn-self [] = tt
  GoesOn-self (x ∷ rows) = (inl (history.unchanged x), GoesOn-more rows rows x (GoesOn-self rows))

  pub GoesOn-trans :
      (rows later last : List A) → GoesOn rows later → GoesOn later last → GoesOn rows last
  GoesOn-trans rows later last h k = All-map rows (λ x a. follow x later a k) h
    where
      follow :
          (x : A) (middle : List A)
          → AnyOf (history.evolves x) middle
          → GoesOn middle last
          → AnyOf (history.evolves x) last
      follow x [] a g = absurd a
      follow x (y ∷ middle) (inl e) g = AnyOf-map last (λ z e'. history.then_changed x y z e e') g.0
      follow x (y ∷ middle) (inr a) g = follow x middle a g.1

  pub GoesOn-append : (rows : List A) (y : A) → GoesOn rows (rows ++ (y ∷ []))
  GoesOn-append [] y = tt
  GoesOn-append (x ∷ rows) y =
      (inl (history.unchanged x), GoesOn-more rows (rows ++ (y ∷ [])) x (GoesOn-append rows y))

  pub GoesOn-update :
      (key : A → Text) (f : A → A) (rows : List A) (id : Text)
      → ((x : A) → history.evolves x (f x))
      → GoesOn rows (update_rows key f rows id)
  unfolding update_rows
  GoesOn-update key f [] id h = tt
  GoesOn-update key f (x ∷ rows) id h = (
    inl (one (same (key x) id)),
    GoesOn-more rows (update_rows key f rows id) (if same (key x) id then f x else x)
        (GoesOn-update key f rows id h),
  )
    where
      one : (b : Bool) → history.evolves x (if b then f x else x)
      one true = h x
      one false = history.unchanged x

  -- The change of a row that was found.
  pub GoesOn-update_found :
      (key : A → Text) (f : A → A) (rows : List A) (id : Text) (r : A)
      → unique_rows key rows ≡ true
      → find_row key rows id ≡ some r
      → history.evolves r (f r)
      → GoesOn rows (update_rows key f rows id)
  unfolding update_rows find_row unique_rows
  GoesOn-update_found key f [] id r u e h = tt
  GoesOn-update_found key f (x ∷ rows) id r u e h = elim (Bool-cases (same (key x) id)) [
    | inl is_it ↦
        let found : x ≡ r = some-eq (ground arith) in
        let same_key : key x ≡ id = (same_iff (key x) id).0 is_it in
        let alone : has_row key rows id ≡ false =
          subst (λ k. has_row key rows k ≡ false) same_key (ground arith) in
        let changed : update_rows key f (x ∷ rows) id ≡ (f x ∷ rows) =
          rw (is_it, update_rows-absent key f rows id alone) refl in
        subst (GoesOn (x ∷ rows)) (sym changed) (
          inl (subst (λ y. history.evolves y (f y)) (sym found) h),
          GoesOn-more rows rows (f x) (GoesOn-self rows),
        )
    | inr other ↦
        let changed : update_rows key f (x ∷ rows) id ≡ (x ∷ update_rows key f rows id) =
          rw other refl in
        subst (GoesOn (x ∷ rows)) (sym changed) (
          inl (history.unchanged x),
          GoesOn-more rows (update_rows key f rows id) x
              (GoesOn-update_found key f rows id r (ground arith) (ground arith) h),
        )
  ]
