-- ===== src/Prelude/Dicts.antt =====
-- `Map` and `Record`: dictionaries as association lists, which keep the order of first insertion.
use Prim.Native.Nat.{ℕ}
use mathlib.Core.Path.{◌≡◌, refl}
use mathlib.Core.Logic.{◌≢◌, ◌↔◌, ◌⊎◌}
use mathlib.Core.Bool.{Bool, true, false, not, ◌&&◌, ◌||◌}
use mathlib.Core.List.{List, [], ◌∷◌, ◌++◌}
use mathlib.Core.Option.{Option, none, some}
use native.Mathlib.Omega.{arith}
use charterion.Prelude.Tests.{◌==◌, ==_iff, if◌then◌else◌}
use charterion.Prelude.Texts.{Text, same, same_iff}

-- `===` on keys.
pub record Eq {ℓ} (A : Type ℓ) : Type ℓ where
  pub beq : A → A → Bool
  pub beq_iff : (a b : A) → (beq a b ≡ true) ↔ (a ≡ b)

instance abbrev pub nat_eq : Eq ℕ
nat_eq = record { beq = ◌==◌; beq_iff = ==_iff }

instance abbrev pub text_eq : Eq Text
text_eq = record { beq = same; beq_iff = same_iff }

-- `list.includes(item)`, and `set.has(item)` for a set held as the list of its items.
module _ {ℓ} {A : Type ℓ} ⦃e : Eq A⦄ where
  unfoldable pub includes : List A → A → Bool
  includes [] a = false
  includes (x ∷ xs) a = e.beq x a || includes xs a

  unfoldable pub without : List A → A → List A
  without [] a = []
  without (x ∷ xs) a = if e.beq x a then without xs a else x ∷ without xs a

  pub includes-append :
      (xs ys : List A) (a : A) → includes (xs ++ ys) a ≡ (includes xs a || includes ys a)
  unfolding includes
  includes-append [] ys a = refl
  includes-append (x ∷ xs) ys a = ground (arith, includes-append xs ys a)

  pub includes-without :
      (xs : List A) (a b : A) → includes (without xs a) b ≡ (includes xs b && not (e.beq a b))
  unfolding includes without
  includes-without [] a b = refl
  includes-without (x ∷ xs) a b =
      ground (arith, includes-without xs a b, e.beq_iff x a, e.beq_iff x b, e.beq_iff a b)

module _ {ℓ κ} {K : Type ℓ} {V : Type κ} ⦃e : Eq K⦄ where
  unfoldable pub get : List (K × V) → K → Option V
  get [] k = none
  get ((j, v) ∷ m) k = if e.beq j k then some v else get m k

  unfoldable pub put : List (K × V) → K → V → List (K × V)
  put [] k v = (k, v) ∷ []
  put ((j, w) ∷ m) k v = if e.beq j k then (j, v) ∷ m else (j, w) ∷ put m k v

  unfoldable pub delete : List (K × V) → K → List (K × V)
  delete [] k = []
  delete ((j, w) ∷ m) k = if e.beq j k then delete m k else (j, w) ∷ delete m k

  pub get-put :
      (m : List (K × V)) (k j : K) (v : V)
      → get (put m k v) j ≡ (if e.beq k j then some v else get m j)
  unfolding get put
  get-put [] k j v = refl
  get-put ((i, w) ∷ m) k j v =
      ground (arith, get-put m k j v, e.beq_iff i k, e.beq_iff i j, e.beq_iff k j)

  pub get-delete :
      (m : List (K × V)) (k j : K) → get (delete m k) j ≡ (if e.beq k j then none else get m j)
  unfolding get delete
  get-delete [] k j = ground arith
  get-delete ((i, w) ∷ m) k j =
      ground (arith, get-delete m k j, e.beq_iff i k, e.beq_iff i j, e.beq_iff k j)

  pub get-put_same : (m : List (K × V)) (k : K) (v : V) → get (put m k v) k ≡ some v
  get-put_same m k v = ground (arith, get-put m k k v, e.beq_iff k k)

  pub get-put_other : (m : List (K × V)) (k j : K) (v : V) → k ≢ j → get (put m k v) j ≡ get m j
  get-put_other m k j v ne = ground (arith, get-put m k j v, e.beq_iff k j)

  pub get-put_cases :
      (m : List (K × V)) (k j : K) (v w : V)
      → get (put m k v) j ≡ some w
      → ((v ≡ w) × (k ≡ j)) ⊎ (get m j ≡ some w)
  get-put_cases m k j v w h = ground (arith, get-put m k j v, e.beq_iff k j)

  pub get-put_kept :
      (m : List (K × V)) (k j : K) (v w : V)
      → get m k ≡ none
      → get m j ≡ some w
      → get (put m k v) j ≡ some w
  get-put_kept m k j v w free h = ground (arith, get-put m k j v, e.beq_iff k j)
