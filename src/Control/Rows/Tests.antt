-- ===== src/Control/Rows/Tests.antt =====
-- The tables of control/src: tests on the rows.
use charterion.Prelude.{
  ◌≡◌, refl, sym, subst, Text, some, List, [], ◌∷◌, ◌++◌, Bool, true, false, not, ◌||◌, arith, same,
  same_iff, any, all, Bool-cases, inl, inr, some-eq, none-ne-some,
}
use charterion.Control.Rows.{find_row, update_rows, has_row, unique_rows}

pub all-append_one :
    {A : Type 0} (q : A → Bool) (rows : List A) (new : A)
    → all q rows ≡ true
    → q new ≡ true
    → all q (rows ++ (new ∷ [])) ≡ true
unfolding all
all-append_one q [] new h k = ground arith
all-append_one q (x ∷ rows) new h k =
    let rest = all-append_one q rows new (ground arith) k in ground arith

pub any-append_one :
    {A : Type 0} (q : A → Bool) (rows : List A) (new : A)
    → any q rows ≡ true
    → any q (rows ++ (new ∷ [])) ≡ true
unfolding any
any-append_one q [] new h = cc
any-append_one q (x ∷ rows) new h = elim (Bool-cases (q x)) [
  | inl here ↦ ground arith
  | inr not_here ↦ let rest = any-append_one q rows new (ground arith) in ground arith
]

module _ {A : Type 0} (key : A → Text) where
  -- A test that an update does not touch.
  pub all-update_rows :
      (q : A → Bool) (f : A → A) (rows : List A) (id : Text)
      → ((x : A) → q (f x) ≡ q x)
      → all q (update_rows key f rows id) ≡ all q rows
  unfolding update_rows all
  all-update_rows q f [] id h = refl
  all-update_rows q f (x ∷ rows) id h = elim (Bool-cases (same (key x) id)) [
    | inl is_it ↦ rw (is_it, h x, all-update_rows q f rows id h) refl
    | inr other ↦ rw (other, all-update_rows q f rows id h) refl
  ]

  pub absent_all :
      (q : A → Bool) (rows : List A) (id : Text)
      → has_row key rows id ≡ false
      → all (λ x. not (same (key x) id) || q x) rows ≡ true
  unfolding has_row any all
  absent_all q [] id h = refl
  absent_all q (x ∷ rows) id h = let rest = absent_all q rows id (ground arith) in ground arith

  -- The rows under a key that was found are the one that was found.
  pub find_row-only :
      (q : A → Bool) (rows : List A) (id : Text) (r : A)
      → unique_rows key rows ≡ true
      → find_row key rows id ≡ some r
      → q r ≡ true
      → all (λ x. not (same (key x) id) || q x) rows ≡ true
  unfolding unique_rows find_row all
  find_row-only q [] id r u e h = refl
  find_row-only q (x ∷ rows) id r u e h = elim (Bool-cases (same (key x) id)) [
    | inl is_it ↦
        let found : x ≡ r = some-eq (ground arith) in
        let same_key : key x ≡ id = (same_iff (key x) id).0 is_it in
        let alone : has_row key rows id ≡ false =
          subst (λ k. has_row key rows k ≡ false) same_key (ground arith) in
        let here : q x ≡ true = subst (λ y. q y ≡ true) (sym found) h in
        let rest = absent_all q rows id alone in ground arith
    | inr other ↦
        let rest = find_row-only q rows id r (ground arith) (ground arith) h in ground arith
  ]

  pub find_row-has_row :
      (rows : List A) (id : Text) (r : A)
      → find_row key rows id ≡ some r
      → has_row key rows id ≡ true
  unfolding find_row has_row any
  find_row-has_row [] id r e = absurd (none-ne-some e)
  find_row-has_row (x ∷ rows) id r e = elim (Bool-cases (same (key x) id)) [
    | inl is_it ↦ ground arith
    | inr other ↦ let rest = find_row-has_row rows id r (ground arith) in ground arith
  ]

  -- Two keys of which one has a row and the other has none.
  pub has_row-apart :
      (rows : List A) (a b : Text)
      → has_row key rows a ≡ true
      → has_row key rows b ≡ false
      → same b a ≡ false
  has_row-apart rows a b h k = elim (Bool-cases (same b a)) [
    | inl is_it ↦ absurd (clash ((same_iff b a).0 is_it))
    | inr apart ↦ apart
  ]
    where
      clash : b ≡ a → ⊥
      clash e = let here = subst (λ c. has_row key rows c ≡ false) e k in ground arith
