-- ===== src/Control/Rows/Order.antt =====
-- `sort` and `ORDER BY`, which is stable, under a comparator that is not positive.
use charterion.Prelude.{List, [], ◌∷◌, Bool, if◌then◌else◌, All, Bool-cases, inl, inr}

module _ {A : Type 0} (not_after : A → A → Bool) where
  unfoldable pub insert_by : A → List A → List A
  insert_by x [] = x ∷ []
  insert_by x (y ∷ ys) = let rest = insert_by x ys in if not_after x y then x ∷ y ∷ ys else y ∷ rest

  unfoldable pub sort_by : List A → List A
  sort_by [] = []
  sort_by (x ∷ xs) = insert_by x (sort_by xs)

  insert_by-All : (P : A → Type 0) (x : A) (ys : List A) → P x → All P ys → All P (insert_by x ys)
  unfolding insert_by
  insert_by-All P x [] h k = (h, tt)
  insert_by-All P x (y ∷ ys) h k = elim (Bool-cases (not_after x y)) [
    | inl before ↦ rw before (h, k)
    | inr after ↦ rw after (k.0, insert_by-All P x ys h k.1)
  ]

  pub sort_by-All : (P : A → Type 0) (xs : List A) → All P xs → All P (sort_by xs)
  unfolding sort_by
  sort_by-All P [] h = tt
  sort_by-All P (x ∷ xs) h = insert_by-All P x (sort_by xs) h.0 (sort_by-All P xs h.1)
