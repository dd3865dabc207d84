-- ===== src/Control/Rows.antt =====
-- The tables of control/src: rows under a primary key, read by `SELECT … WHERE id=?` and changed by
-- `UPDATE … WHERE id=?`.
pub mod History
pub mod Order
pub mod Tests
use charterion.Prelude.{
  ◌≡◌, refl, sym, subst, ap, Text, Option, none, some, List, [], ◌∷◌, ◌++◌, Bool, true, false, not,
  ◌&&◌, if◌then◌else◌, arith, same, same_iff, any, All, Bool-cases, inl, inr, some-eq, none-ne-some,
}

module _ {A : Type 0} (key : A → Text) where
  unfoldable pub find_row : List A → Text → Option A
  find_row [] id = none
  find_row (r ∷ rs) id = if same (key r) id then some r else find_row rs id

  unfoldable pub update_rows : (A → A) → List A → Text → List A
  update_rows f [] id = []
  update_rows f (r ∷ rs) id = (if same (key r) id then f r else r) ∷ update_rows f rs id

  unfoldable pub has_row : List A → Text → Bool
  has_row rows id = any (λ r. same (key r) id) rows

  unfoldable pub unique_rows : List A → Bool
  unique_rows [] = true
  unique_rows (r ∷ rs) = not (has_row rs (key r)) && unique_rows rs

  pub find_row-All :
      (P : A → Type 0) (rows : List A) (id : Text) (r : A)
      → find_row rows id ≡ some r
      → All P rows
      → P r × (key r ≡ id)
  unfolding find_row
  find_row-All P [] id r e h = absurd (none-ne-some e)
  find_row-All P (x ∷ rows) id r e h = elim (Bool-cases (same (key x) id)) [
    | inl is_it ↦
        let found : x ≡ r = some-eq (ground arith) in
        subst (λ y. P y × (key y ≡ id)) found (h.0, (same_iff (key x) id).0 is_it)
    | inr other ↦ find_row-All P rows id r (ground arith) h.1
  ]

  -- Where no row has the key, an update changes none.
  pub update_rows-absent :
      (f : A → A) (rows : List A) (id : Text)
      → has_row rows id ≡ false
      → update_rows f rows id ≡ rows
  unfolding update_rows has_row any
  update_rows-absent f [] id h = refl
  update_rows-absent f (x ∷ rows) id h =
      let other : same (key x) id ≡ false = ground arith in
      rw (other, update_rows-absent f rows id (ground arith)) refl

  -- An update changes the row that was found and no other.
  pub update_rows-All :
      (P Q : A → Type 0) (f : A → A) (rows : List A) (id : Text) (r : A)
      → unique_rows rows ≡ true
      → find_row rows id ≡ some r
      → Q (f r)
      → ((x : A) → P x → Q x)
      → All P rows
      → All Q (update_rows f rows id)
  unfolding update_rows find_row unique_rows
  update_rows-All P Q f [] id r u e changed kept h = tt
  update_rows-All P Q f (x ∷ rows) id r u e changed kept h = elim (Bool-cases (same (key x) id)) [
    | inl is_it ↦
        let found : x ≡ r = some-eq (ground arith) in
        let same_key : key x ≡ id = (same_iff (key x) id).0 is_it in
        let alone : has_row rows id ≡ false =
          subst (λ k. has_row rows k ≡ false) same_key (ground arith) in
        rw is_it (
          subst (λ y. Q (f y)) (sym found) changed,
          rw (update_rows-absent f rows id alone) (All_kept rows h.1),
        )
    | inr other ↦
        rw other (
          kept x h.0,
          update_rows-All P Q f rows id r (ground arith) (ground arith) changed kept h.1,
        )
  ]
    where
      All_kept : (rest : List A) → All P rest → All Q rest
      All_kept [] k = tt
      All_kept (y ∷ rest) k = (kept y k.0, All_kept rest k.1)

  pub find_row-update :
      (f : A → A) (rows : List A) (id : Text) (r : A)
      → ((x : A) → key (f x) ≡ key x)
      → find_row rows id ≡ some r
      → find_row (update_rows f rows id) id ≡ some (f r)
  unfolding update_rows find_row
  find_row-update f [] id r keeps e = absurd (none-ne-some e)
  find_row-update f (x ∷ rows) id r keeps e = elim (Bool-cases (same (key x) id)) [
    | inl is_it ↦
        let found : x ≡ r = some-eq (ground arith) in
        rw (is_it, keeps x, is_it) (ap (λ y. some (f y)) found)
    | inr other ↦ rw (other, other) (find_row-update f rows id r keeps (ground arith))
  ]

  pub has_row-update :
      (f : A → A) (rows : List A) (id other : Text)
      → ((x : A) → key (f x) ≡ key x)
      → has_row (update_rows f rows id) other ≡ has_row rows other
  unfolding update_rows has_row any
  has_row-update f [] id other keeps = refl
  has_row-update f (x ∷ rows) id other keeps = elim (Bool-cases (same (key x) id)) [
    | inl is_it ↦ rw (is_it, keeps x, has_row-update f rows id other keeps) refl
    | inr no_it ↦ rw (no_it, has_row-update f rows id other keeps) refl
  ]

  pub unique_rows-update :
      (f : A → A) (rows : List A) (id : Text)
      → ((x : A) → key (f x) ≡ key x)
      → unique_rows rows ≡ true
      → unique_rows (update_rows f rows id) ≡ true
  unfolding update_rows unique_rows
  unique_rows-update f [] id keeps u = refl
  unique_rows-update f (x ∷ rows) id keeps u = elim (Bool-cases (same (key x) id)) [
    | inl is_it ↦
        rw
          (
            is_it,
            keeps x,
            has_row-update f rows id (key x) keeps,
            unique_rows-update f rows id keeps (ground arith),
          )
          (ground arith)
    | inr no_it ↦
        rw
          (
            no_it,
            has_row-update f rows id (key x) keeps,
            unique_rows-update f rows id keeps (ground arith),
          )
          (ground arith)
  ]

  pub has_row-append :
      (rows : List A) (new : A) (id : Text)
      → has_row rows id ≡ false
      → same (key new) id ≡ false
      → has_row (rows ++ (new ∷ [])) id ≡ false
  unfolding has_row any
  has_row-append [] new id h k = ground arith
  has_row-append (x ∷ rows) new id h k =
      let rest = has_row-append rows new id (ground arith) k in ground arith

  pub same_sym_false : (s t : Text) → same s t ≡ false → same t s ≡ false
  same_sym_false s t h = elim (Bool-cases (same t s)) [
    | inl is_it ↦ let back = (same_iff s t).1 (sym ((same_iff t s).0 is_it)) in ground arith
    | inr other ↦ other
  ]

  -- An insertion under a new key.
  pub unique_rows-append :
      (rows : List A) (new : A)
      → unique_rows rows ≡ true
      → has_row rows (key new) ≡ false
      → unique_rows (rows ++ (new ∷ [])) ≡ true
  unfolding unique_rows has_row any
  unique_rows-append [] new u h = refl
  unique_rows-append (x ∷ rows) new u h =
      let apart = same_sym_false (key x) (key new) (ground arith) in
      let alone = has_row-append rows new (key x) (ground arith) apart in
      let rest = unique_rows-append rows new (ground arith) (ground arith) in ground arith

  pub update_rows-All_each :
      (P : A → Type 0) (f : A → A) (rows : List A) (id : Text)
      → ((x : A) → P x → P (f x))
      → All P rows
      → All P (update_rows f rows id)
  unfolding update_rows
  update_rows-All_each P f [] id h k = tt
  update_rows-All_each P f (x ∷ rows) id h k =
      (one (same (key x) id), update_rows-All_each P f rows id h k.1)
    where
      one : (b : Bool) → P (if b then f x else x)
      one true = h x k.0
      one false = k.0

  pub find_row-key : (rows : List A) (id : Text) (r : A) → find_row rows id ≡ some r → key r ≡ id
  find_row-key rows id r e = (find_row-All (λ x. Unit {0}) rows id r e (All_unit rows)).1
    where
      All_unit : (xs : List A) → All (λ x. Unit {0}) xs
      All_unit [] = tt
      All_unit (x ∷ xs) = (tt, All_unit xs)
