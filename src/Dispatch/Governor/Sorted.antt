-- ===== src/Dispatch/Governor/Sorted.antt =====
-- src/promptDispatchGovernor.ts, the times of `recentDispatches`: sorted, the last one is the latest, and
-- the one that many places from the end tells how many are late.
use charterion.Prelude.{
  ℕ, zero, suc, ◌-◌, ◌≤◌, ◌<◌, ◌≡◌, refl, some, List, [], ◌∷◌, Bool, false, arith, leb, filter,
  length, length-filter-le, get_elem?, get_last?, All, All-map, Bool-cases, inl, subst, some-eq,
  inr,
}
use charterion.Dispatch.Governor.{insert, sort}

abbrev pub Sorted : List ℕ → Type 0
Sorted [] = Unit
Sorted (x ∷ xs) = All (λ y. x ≤ y) xs × Sorted xs

insert-All : (P : ℕ → Type 0) (n : ℕ) (ms : List ℕ) → P n → All P ms → All P (insert n ms)
unfolding insert
insert-All P n [] h k = (h, tt)
insert-All P n (m ∷ ms) h k = elim (Bool-cases (leb n m)) [
  | inl le ↦ rw le (h, k)
  | inr gt ↦ rw gt (k.0, insert-All P n ms h k.1)
]

insert-Sorted : (n : ℕ) (ms : List ℕ) → Sorted ms → Sorted (insert n ms)
unfolding insert
insert-Sorted n [] h = (tt, tt)
insert-Sorted n (m ∷ ms) h = elim (Bool-cases (leb n m)) [
  | inl le ↦
      let first : n ≤ m = ground arith in
      rw le ((first, All-map ms (λ y (k : m ≤ y). omega arith) h.0), h)
  | inr gt ↦ rw gt (insert-All (λ y. m ≤ y) n ms (ground arith) h.0, insert-Sorted n ms h.1)
]

pub sort-Sorted : (ns : List ℕ) → Sorted (sort ns)
unfolding sort
sort-Sorted [] = tt
sort-Sorted (n ∷ ns) = insert-Sorted n (sort ns) (sort-Sorted ns)

insert-All_back : (P : ℕ → Type 0) (n : ℕ) (ms : List ℕ) → All P (insert n ms) → P n × All P ms
unfolding insert
insert-All_back P n [] h = h
insert-All_back P n (m ∷ ms) h = elim (Bool-cases (leb n m)) [
  | inl le ↦ rw le at h
  | inr gt ↦ let rest = insert-All_back P n ms (rw gt at h).1 in (rest.0, ((rw gt at h).0, rest.1))
]

pub sort-All_back : (P : ℕ → Type 0) (ns : List ℕ) → All P (sort ns) → All P ns
unfolding sort
sort-All_back P [] h = tt
sort-All_back P (n ∷ ns) h =
    let rest = insert-All_back P n (sort ns) h in (rest.0, sort-All_back P ns rest.1)

-- The times of a list for which a test holds.
abbrev pub count : (ℕ → Bool) → List ℕ → ℕ
count q xs = length (filter q xs)

insert-count : (q : ℕ → Bool) (n : ℕ) (ms : List ℕ) → count q (insert n ms) ≡ count q (n ∷ ms)
unfolding insert filter
insert-count q n [] = refl
insert-count q n (m ∷ ms) = elim (Bool-cases (leb n m)) [
  | inl le ↦ rw le refl
  | inr gt ↦ rw gt (ground (arith, insert-count q n ms))
]

pub sort-count : (q : ℕ → Bool) (ns : List ℕ) → count q (sort ns) ≡ count q ns
unfolding sort filter
sort-count q [] = refl
sort-count q (n ∷ ns) = ground (arith, insert-count q n (sort ns), sort-count q ns)

-- The last of sorted times is the latest.
pub Sorted-last :
    (xs : List ℕ) (last : ℕ) → Sorted xs → get_last? xs ≡ some last → All (λ t. t ≤ last) xs
Sorted-last [] last h e = tt
Sorted-last (x ∷ []) last h e = (ground arith, tt)
Sorted-last (x ∷ y ∷ xs) last h e =
    let rest = Sorted-last (y ∷ xs) last h.1 e in
    let first = h.0.0 in let second = rest.0 in (omega arith, rest)

pub get_elem-within : (xs : List ℕ) (i : ℕ) → i < length xs → (t : ℕ) × (get_elem? xs i ≡ some t)
get_elem-within [] i h = absurd (omega arith)
get_elem-within (x ∷ xs) zero h = (x, refl)
get_elem-within (x ∷ xs) (suc i) h = get_elem-within xs i (omega arith)

All-elem : (P : ℕ → Type 0) (xs : List ℕ) (i t : ℕ) → All P xs → get_elem? xs i ≡ some t → P t
All-elem P [] i t h e = cc
All-elem P (x ∷ xs) zero t h e = subst P (some-eq e) h.0
All-elem P (x ∷ xs) (suc i) t h e = All-elem P xs i t h.1 e

-- Where the time that many places from the end fails the test, and what is no later does too, fewer
-- than that many pass it.
pub Sorted-count :
    (q : ℕ → Bool) (many : ℕ) (xs : List ℕ) (t : ℕ)
    → ((a b : ℕ) → a ≤ b → q b ≡ false → q a ≡ false)
    → 0 < many
    → many ≤ length xs
    → Sorted xs
    → get_elem? xs (length xs - many) ≡ some t
    → q t ≡ false
    → count q xs < many
unfolding filter
Sorted-count q many [] t mono pos le h e f = absurd (omega arith)
Sorted-count q many (x ∷ xs) t mono pos le h e f = elim (Bool-cases (leb many (length xs))) [
  | inl more ↦
      let shift : suc (length xs) - many ≡ suc (length xs - many) = ground arith in
      let there : get_elem? xs (length xs - many) ≡ some t =
        subst (λ i. get_elem? (x ∷ xs) i ≡ some t) shift e in
      let first = mono x t (All-elem (λ y. x ≤ y) xs (length xs - many) t h.0 there) f in
      rw first (Sorted-count q many xs t mono pos (ground arith) h.1 there f)
  | inr all_of_them ↦
      let shift : suc (length xs) - many ≡ 0 = ground arith in
      let there : x ≡ t = some-eq (subst (λ i. get_elem? (x ∷ xs) i ≡ some t) shift e) in
      let first = mono x t (let eq = there in omega arith) f in
      let bound = length-filter-le q xs in rw first (ground arith)
]
