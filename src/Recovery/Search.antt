-- ===== src/Recovery/Search.antt =====
-- src/restartRecoveryPolicy.ts: the ledger searched by id, and filtered.
use charterion.Prelude.{
  ◌≡◌, All-ne_key, refl, ◌∙◌, Text, some, List, [], ◌∷◌, Bool, true, false, not, map, arith, same,
  same_refl, includes, filter, find, All, All-map, Distinct, text_eq, inl, inr, Bool-cases,
}
use charterion.Contracts.{SendAttemptRecord}
use charterion.Recovery.{with_id}

abbrev pub ids : List SendAttemptRecord → List Text
ids = map (λ a. a.attempt_id)

pub All-filter :
    (P : SendAttemptRecord → Type 0) (p : SendAttemptRecord → Bool) (xs : List SendAttemptRecord)
    → All P xs
    → All (λ a. P a × (p a ≡ true)) (filter p xs)
unfolding filter
All-filter P p [] h = tt
All-filter P p (x ∷ xs) h = elim (Bool-cases (p x)) [
  | inl e ↦ rw e ((h.0, e), All-filter P p xs h.1)
  | inr e ↦ rw e (All-filter P p xs h.1)
]

pub All-zip :
    (P Q : SendAttemptRecord → Type 0) (xs : List SendAttemptRecord)
    → All P xs
    → All Q xs
    → All (λ a. P a × Q a) xs
All-zip P Q [] h k = tt
All-zip P Q (x ∷ xs) h k = ((h.0, k.0), All-zip P Q xs h.1 k.1)

pub find-cons_ne :
    (k : Text) (x : SendAttemptRecord) (xs : List SendAttemptRecord)
    → same x.attempt_id k ≡ false
    → find (with_id k) (x ∷ xs) ≡ find (with_id k) xs
unfolding find
find-cons_ne k x xs e = rw e

-- With distinct ids a search by the id of a record finds that record.
pub find_self :
    (xs : List SendAttemptRecord)
    → Distinct (ids xs)
    → All (λ a. find (with_id a.attempt_id) xs ≡ some a) xs
find_self [] d = tt
find_self (x ∷ xs) d = (
  unfold find in rw (same_refl x.attempt_id),
  All-map xs
      (λ a
          (h : (find (with_id a.attempt_id) xs ≡ some a)
            × (same x.attempt_id a.attempt_id ≡ false)).
        find-cons_ne a.attempt_id x xs h.1 ∙ h.0)
      (All-zip _ _ xs (find_self xs d.1)
        (All-ne_key (λ (a : SendAttemptRecord). a.attempt_id) xs x.attempt_id d.0)),
)

pub find-with_id :
    (k : Text) (xs : List SendAttemptRecord) (a : SendAttemptRecord)
    → find (with_id k) xs ≡ some a
    → same a.attempt_id k ≡ true
unfolding find
find-with_id k [] a e = cc
find-with_id k (x ∷ xs) a e = ground (arith, find-with_id k xs a)

pub ids-dropped :
    (k : Text) (xs : List SendAttemptRecord)
    → includes (ids (filter (λ a. not (with_id k a)) xs)) k ≡ false
unfolding includes filter
ids-dropped k [] = refl
ids-dropped k (x ∷ xs) = ground (arith, ids-dropped k xs)
