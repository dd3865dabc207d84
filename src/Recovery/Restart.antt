-- ===== src/Recovery/Restart.antt =====
-- src/restartRecoveryPolicy.ts: no prepared candidate is left prepared by a restart.
use mathlib.Core.List.{map-append}
use charterion.Prelude.{
  Text, All-of_All, All-append, ℕ, ◌+◌, or_else, ◌≡◌, ◌≢◌, Distinct-snoc, refl, ◌∙◌, ap, sym, none,
  some, List, [], ◌∷◌, Bool, true, false, not, ◌||◌, ◌&&◌, arith, same, same_iff, filter, find, any,
  All, All-map, Distinct, Distinct-filter, text_eq, Option-cases, inl, inr, Bool-cases,
}
use charterion.Contracts.{SendAttemptRecord, SendAttemptState, prepared}
use charterion.Ledger.{retain_attempt_ledger}
use charterion.Recovery.{
  AttemptRecoveryObservation, RestartRecoveryState, with_id, replace_attempt, recovered,
  recover_all, apply_restart_recovery, index_observations,
}
use charterion.Recovery.Search.{ids, All-filter, All-zip, find_self, find-with_id, ids-dropped}

abbrev is_prepared : SendAttemptState → Bool
is_prepared prepared = true
is_prepared _ = false

-- One of the records has the id and is prepared.
abbrev pub has_prepared : List SendAttemptRecord → Text → Bool
has_prepared cs id = any (λ c. with_id id c && is_prepared c.state) cs

-- A record that recovery writes keeps its id and is not prepared.
recovered-some :
    (c latest r : SendAttemptRecord) (m : List (ℕ × AttemptRecoveryObservation)) (t : ℕ × ℕ)
    → recovered c (some latest) m t ≡ some r
    → (r.attempt_id ≡ latest.attempt_id) × (is_prepared r.state ≡ false)
unfolding recovered
recovered-some c latest r m (now, later) h = ground arith

recovered-none :
    (c r : SendAttemptRecord) (m : List (ℕ × AttemptRecoveryObservation)) (t : ℕ × ℕ)
    → recovered c none m t ≢ some r
unfolding recovered
recovered-none c r m (now, later) h = cc

-- A prepared record whose candidate is prepared is rewritten.
recovered-prepared :
    (c latest : SendAttemptRecord) (m : List (ℕ × AttemptRecoveryObservation)) (t : ℕ × ℕ)
    → is_prepared c.state ≡ true
    → is_prepared latest.state ≡ true
    → recovered c (some latest) m t ≢ none
unfolding recovered
recovered-prepared c latest m (now, later) h k = ground arith

-- Unless it reports a change, the loop leaves the ledger as it was.
recover_all_unchanged :
    (current : RestartRecoveryState) (m : List (ℕ × AttemptRecoveryObservation)) (clock : ℕ → ℕ × ℕ)
    (i : ℕ) (cs attempts : List SendAttemptRecord) (changed : Bool)
    → (recover_all current m clock i cs attempts changed).1 ≡ false
    → (changed ≡ false) × ((recover_all current m clock i cs attempts changed).0 ≡ attempts)
unfolding recover_all
recover_all_unchanged current m clock i [] attempts changed h = (h, refl)
recover_all_unchanged current m clock i (c ∷ cs) attempts changed h =
    let next = recovered c (find (with_id c.attempt_id) attempts) m (clock i) in
    let (quiet, same_rest) = recover_all_unchanged current m clock (i + 1) cs _ _ h in
    elim (Option-cases next) [
      | inl skipped ↦ (ground arith, same_rest ∙ rw skipped)
      | inr (r, e) ↦ absurd (ground arith)
    ]

module _ (spared : Text → Bool) where
  -- A prepared attempt has a prepared candidate of the same id among those still to come, or is spared.
  abbrev covered : List SendAttemptRecord → SendAttemptRecord → Bool
  covered cs a = not (is_prepared a.state) || has_prepared cs a.attempt_id || spared a.attempt_id

  abbrev Covered : List SendAttemptRecord → List SendAttemptRecord → Type 0
  Covered cs = All (λ a. covered cs a ≡ true)

  -- The loop's invariant.
  record Inv (cs attempts : List SendAttemptRecord) : Type 0 where
    covers : Covered cs attempts
    distinct : Distinct (ids attempts)

  module _ (current : RestartRecoveryState) (c : SendAttemptRecord)
      (cs attempts : List SendAttemptRecord) (inv : Inv (c ∷ cs) attempts) where
    -- Replacing the candidate's record by one that is not prepared settles the candidate.
    replace-Inv :
        (r : SendAttemptRecord)
        → r.attempt_id ≡ c.attempt_id
        → is_prepared r.state ≡ false
        → Inv cs (replace_attempt current attempts r)
    unfolding replace_attempt retain_attempt_ledger any
    replace-Inv r same_id settled = record {
      covers =
          All-map _ (λ a h. h.0)
            (All-filter _ _ _ (
              All-append _ _ (r ∷ [])
                (All-map _
                  (λ a (h : (covered (c ∷ cs) a ≡ true) × (not (with_id r.attempt_id a) ≡ true)).
                    covered_rest a h.0 h.1)
                  (All-filter _ (λ a. not (with_id r.attempt_id a)) attempts inv.covers))
                (ground arith, tt)));
      distinct =
          Distinct-filter (λ (a : SendAttemptRecord). a.attempt_id) _ _
            (rw map-append (
              Distinct-snoc (ids (filter (λ a. not (with_id r.attempt_id a)) attempts)) r.attempt_id
                (Distinct-filter (λ (a : SendAttemptRecord). a.attempt_id) _ attempts inv.distinct)
                (ids-dropped r.attempt_id attempts)));
    }
      where
        covered_rest :
            (a : SendAttemptRecord)
            → covered (c ∷ cs) a ≡ true
            → not (with_id r.attempt_id a) ≡ true
            → covered cs a ≡ true
        covered_rest a h k =
            ground (arith, same_iff a.attempt_id r.attempt_id, same_iff c.attempt_id a.attempt_id)

    -- A candidate that the body skips leaves no prepared record behind.
    skip-Inv :
        (m : List (ℕ × AttemptRecoveryObservation)) (t : ℕ × ℕ)
        → recovered c (find (with_id c.attempt_id) attempts) m t ≡ none
        → Inv cs attempts
    unfolding any
    skip-Inv m t skipped = record {
      covers =
          All-map attempts
            (λ a
                (h : (covered (c ∷ cs) a ≡ true) × (find (with_id a.attempt_id) attempts ≡ some a)).
              covered_rest a h.0 h.1)
            (All-zip _ _ attempts inv.covers (find_self attempts inv.distinct));
      distinct = inv.distinct;
    }
      where
        covered_rest :
            (a : SendAttemptRecord)
            → covered (c ∷ cs) a ≡ true
            → find (with_id a.attempt_id) attempts ≡ some a
            → covered cs a ≡ true
        covered_rest a h found =
            elim (Bool-cases
              (same c.attempt_id a.attempt_id && (is_prepared c.state && is_prepared a.state))) [
                | inl hit ↦
                    let same_id = (same_iff c.attempt_id a.attempt_id).0 (ground arith) in
                    absurd (
                      recovered-prepared c a m t (ground arith) (ground arith) (
                        ap (λ o. recovered c o m t)
                          (sym found ∙ ap (λ k. find (with_id k) attempts) (sym same_id))
                        ∙ skipped))
                | inr miss ↦ ground arith
              ]

    step-Inv :
        (m : List (ℕ × AttemptRecoveryObservation)) (t : ℕ × ℕ)
        → Inv cs (elim (recovered c (find (with_id c.attempt_id) attempts) m t) [
          | none ↦ attempts
          | some r ↦ replace_attempt current attempts r
        ])
    step-Inv m t = elim (Option-cases (recovered c (find (with_id c.attempt_id) attempts) m t)) [
      | inl skipped ↦ rw skipped (skip-Inv m t skipped)
      | inr (r, e) ↦ let (same_id, settled) = written r e in rw e (replace-Inv r same_id settled)
    ]
      where
        written :
            (r : SendAttemptRecord)
            → recovered c (find (with_id c.attempt_id) attempts) m t ≡ some r
            → (r.attempt_id ≡ c.attempt_id) × (is_prepared r.state ≡ false)
        written r e = elim (Option-cases (find (with_id c.attempt_id) attempts)) [
          | inl absent ↦ absurd (recovered-none c r m t (rw absent at e))
          | inr (latest, found) ↦
              let (kept, settled) = recovered-some c latest r m t (rw found at e) in
              (
                kept
                    ∙ (same_iff latest.attempt_id c.attempt_id).0
                        (find-with_id c.attempt_id attempts latest found),
                settled,
              )
        ]

  recover_all-Inv :
      (current : RestartRecoveryState) (m : List (ℕ × AttemptRecoveryObservation))
      (clock : ℕ → ℕ × ℕ) (i : ℕ) (cs attempts : List SendAttemptRecord) (changed : Bool)
      → Inv cs attempts
      → Inv [] (recover_all current m clock i cs attempts changed).0
  unfolding recover_all
  recover_all-Inv current m clock i [] attempts changed inv = inv
  recover_all-Inv current m clock i (c ∷ cs) attempts changed inv =
      recover_all-Inv current m clock (i + 1) cs _ _
        (step-Inv current c cs attempts inv m (clock i))

-- The ledger after a restart: `candidates` were taken from the ledger as it was read before the pages were
-- observed.
abbrev pub after_restart :
    RestartRecoveryState
    → List SendAttemptRecord
    → List AttemptRecoveryObservation
    → (ℕ → ℕ × ℕ)
    → List SendAttemptRecord
after_restart current candidates observations clock =
    or_else (apply_restart_recovery current candidates observations clock) current.attempts

-- No record that is prepared now was a prepared candidate.
abbrev pub NoneLeft : List SendAttemptRecord → List SendAttemptRecord → Type 0
NoneLeft candidates =
    All (λ a. (is_prepared a.state && has_prepared candidates a.attempt_id) ≡ false)

-- If the ids of the ledger are distinct, then after recovery, whatever candidates were taken before,
-- whatever pages are observed and whatever the clock says, no attempt whose id a prepared candidate had
-- is prepared, and the ids are distinct still.
pub restart-NoneLeft :
    (current : RestartRecoveryState) (candidates : List SendAttemptRecord)
    (observations : List AttemptRecoveryObservation) (clock : ℕ → ℕ × ℕ)
    → Distinct (ids current.attempts)
    → NoneLeft candidates (after_restart current candidates observations clock)
      × Distinct (ids (after_restart current candidates observations clock))
unfolding apply_restart_recovery any
restart-NoneLeft current candidates observations clock d =
    let m = index_observations observations [] in
    let inv =
      recover_all-Inv spared current m clock 0 candidates current.attempts false
        (record { covers = All-of_All current.attempts (λ a. ground arith); distinct = d }) in
    elim (Bool-cases (recover_all current m clock 0 candidates current.attempts false).1) [
      | inl changed ↦ rw changed (settled _ inv.covers, inv.distinct)
      | inr quiet ↦
          let (_, kept) =
            recover_all_unchanged current m clock 0 candidates current.attempts false quiet in
          rw quiet (rw kept at (settled _ inv.covers), d)
    ]
  where
    spared : Text → Bool
    spared id = not (has_prepared candidates id)

    settled : (xs : List SendAttemptRecord) → Covered spared [] xs → NoneLeft candidates xs
    settled xs h = All-map xs (λ a e. ground arith) h
