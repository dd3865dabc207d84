-- ===== src/Prelude/Uniqueness.antt =====
-- Lists with no item twice, by Boolean membership.
use mathlib.Core.Path.{◌≡◌, refl, ◌∙◌, subst}
use mathlib.Core.Logic.{inl, inr}
use mathlib.Core.Bool.{Bool, true, false}
use mathlib.Core.List.{List, [], ◌∷◌, ◌++◌, reverse, reverse-cons, map}
use native.Mathlib.Omega.{arith}
use charterion.Prelude.Tests.{Bool-cases}
use charterion.Prelude.Lists.{All, filter}
use charterion.Prelude.Filters.{All-map}
use charterion.Prelude.Dicts.{Eq, includes, includes-append}

module _ {ℓ} {A : Type ℓ} ⦃e : Eq A⦄ where
  abbrev pub Distinct : List A → Type 0
  Distinct [] = Unit
  Distinct (x ∷ xs) = (includes xs x ≡ false) × Distinct xs

  pub includes-reverse : (xs : List A) (a : A) → includes (reverse xs) a ≡ includes xs a
  unfolding includes
  includes-reverse [] a = refl
  includes-reverse (x ∷ xs) a =
      rw (reverse-cons x xs, includes-append (reverse xs) (x ∷ []) a, includes-reverse xs a)
        (ground arith)

  pub Distinct-snoc :
      (xs : List A) (a : A) → Distinct xs → includes xs a ≡ false → Distinct (xs ++ a ∷ [])
  unfolding includes
  Distinct-snoc [] a d h = (refl, tt)
  Distinct-snoc (x ∷ xs) a d h = (
    ground (arith, includes-append xs (a ∷ []) x, e.beq_iff a x, e.beq_iff x a, d.0),
    Distinct-snoc xs a d.1 (ground arith),
  )

  pub Distinct-reverse : (xs : List A) → Distinct xs → Distinct (reverse xs)
  Distinct-reverse [] d = tt
  Distinct-reverse (x ∷ xs) d =
      rw (reverse-cons x xs)
        (Distinct-snoc (reverse xs) x (Distinct-reverse xs d.1) (includes-reverse xs x ∙ d.0))

module _ {ℓ κ} {A : Type ℓ} {K : Type κ} ⦃e : Eq K⦄ (key : A → K) where
  includes-map-filter :
      (p : A → Bool) (xs : List A) (k : K)
      → includes (map key xs) k ≡ false
      → includes (map key (filter p xs)) k ≡ false
  unfolding includes filter
  includes-map-filter p [] k h = refl
  includes-map-filter p (x ∷ xs) k h = ground (arith, includes-map-filter p xs k)

  pub Distinct-filter :
      (p : A → Bool) (xs : List A) → Distinct (map key xs) → Distinct (map key (filter p xs))
  unfolding filter
  Distinct-filter p [] d = tt
  Distinct-filter p (x ∷ xs) d = elim (Bool-cases (p x)) [
    | inl e ↦ rw e (includes-map-filter p xs (key x) d.0, Distinct-filter p xs d.1)
    | inr e ↦ rw e (Distinct-filter p xs d.1)
  ]

  -- A key that is not among the keys is the key of no item.
  pub All-ne_key :
      (xs : List A) (k : K)
      → includes (map key xs) k ≡ false
      → All (λ x. e.beq k (key x) ≡ false) xs
  unfolding includes
  All-ne_key [] k h = tt
  All-ne_key (x ∷ xs) k h =
      (ground (arith, h, e.beq_iff k (key x), e.beq_iff (key x) k), All-ne_key xs k (ground arith))

-- What holds of every item holds of one that the list includes.
pub All-at {ℓ κ} :
    {A : Type ℓ} ⦃e : Eq A⦄ (P : A → Type κ) (xs : List A) (a : A)
    → All P xs
    → includes xs a ≡ true
    → P a
unfolding includes
All-at P [] a h m = cc
All-at ⦃e⦄ P (x ∷ xs) a h m = elim (Bool-cases (e.beq x a)) [
  | inl here ↦ subst P ((e.beq_iff x a).0 here) h.0
  | inr there ↦ All-at P xs a h.1 (ground arith)
]

-- A list includes its items.
pub All-self {ℓ} : {A : Type ℓ} ⦃e : Eq A⦄ (xs : List A) → All (λ x. includes xs x ≡ true) xs
unfolding includes
All-self [] = tt
All-self ⦃e⦄ (x ∷ xs) = (
  ground (arith, (e.beq_iff x x).1 refl),
  All-map xs (λ y (h : includes xs y ≡ true). ground arith) (All-self xs),
)
