-- ===== src/TaskGraph/Derive/Total.antt =====
-- src/taskGraph.ts, `deriveManagedTasks`: the recursion over the dependencies ends.
use charterion.Prelude.{
  ℕ, zero, suc, ◌≤◌, ◌<◌, ◌≡◌, ◌≢◌, refl, sym, subst, ap, ◌∙◌, Text, Option, none, some, List, [],
  ◌∷◌, Bool, true, ◌&&◌, arith, ltb, same, same_iff, includes, text_eq, get, All, All-map,
  Bool-cases, inl, inr, length, none-ne-some, filter, length-filter-le,
}
use charterion.Prelude.Json.{Json}
use charterion.Contracts.{AgentTask, ManagedTask, SendAttemptRecord}
use charterion.TaskGraph.Validate.{TaskMap}
use charterion.TaskGraph.Derive.{Cache, derive_dependencies, derive, is_blocking, is_terminal}
use charterion.TaskGraph.Derive.Rules.{
  loop_missing, loop_found, loop_after, loop_stops, loop_goes_on,
}

-- How many of the ids have a rank below a bound: the fuel that a derivation needs.
pub lower : (Text → ℕ) → List Text → ℕ → ℕ
lower r ids bound = length (filter (λ k. ltb (r k) bound) ids)

lower_mono : (r : Text → ℕ) (ids : List Text) (a b : ℕ) → a ≤ b → lower r ids a ≤ lower r ids b
unfolding lower filter
lower_mono r [] a b h = omega arith
lower_mono r (k ∷ ks) a b h = ground (arith, lower_mono r ks a b)

lower-lt :
    (r : Text → ℕ) (ids : List Text) (k : Text) (b : ℕ)
    → includes ids k ≡ true
    → r k < b
    → lower r ids (r k) < lower r ids b
unfolding lower filter includes
lower-lt r [] k b h l = cc
lower-lt r (j ∷ js) k b h l = elim (Bool-cases (same j k)) [
  | inl here ↦
      let is_k : j ≡ k = (same_iff j k).0 here in
      let e = ap r is_k in ground (arith, lower_mono r js (r k) b)
  | inr there ↦ ground (arith, lower-lt r js k b, lower_mono r js (r k) b)
]

pub lower-le : (r : Text → ℕ) (ids : List Text) (b : ℕ) → lower r ids b ≤ length ids
unfolding lower
lower-le r ids b = length-filter-le _ ids

-- The loop returns if every call that it makes returns.
loop_returns :
    (by_id : TaskMap) (f : AgentTask → Cache → Option (ManagedTask × Cache)) (ids : List Text)
    (terminal : Bool) (c : Cache)
    → All (λ d. (u : AgentTask) → get by_id d ≡ some u → (c' : Cache) → f u c' ≢ none) ids
    → derive_dependencies by_id f ids terminal c ≢ none
unfolding derive_dependencies
loop_returns by_id f [] terminal c calls e = none-ne-some (sym e)
loop_returns by_id f (id ∷ ids) terminal c calls e =
    by_task (λ b c'. loop_returns by_id f ids b c' calls.1) (get by_id id) refl
  where
    Rest : Type 0
    Rest = (b : Bool) (c' : Cache) → derive_dependencies by_id f ids b c' ≢ none

    by_call :
        Rest
        → (u : AgentTask) → get by_id id ≡ some u
        → (o : Option (ManagedTask × Cache)) → f u c ≡ o
        → ⊥
    by_call rest u there none called = calls.0 u there c called
    by_call rest u there (some (m, c')) called =
        let h : loop_after by_id f ids terminal (some (m, c')) ≡ none =
          (sym (ap (loop_after by_id f ids terminal) called)
            ∙ sym (loop_found by_id f id ids terminal c u there)
            ∙ e) in
        elim (Bool-cases (is_blocking m.status)) [
          | inl stops ↦ none-ne-some (sym h ∙ loop_stops by_id f ids terminal m c' stops)
          | inr goes_on ↦
              rest (terminal && is_terminal m.status) c'
                (sym (loop_goes_on by_id f ids terminal m c' goes_on) ∙ h)
        ]

    by_task : Rest → (o : Option AgentTask) → get by_id id ≡ o → ⊥
    by_task rest none missing =
        rest terminal c (sym (loop_missing by_id f id ids terminal c missing) ∙ e)
    by_task rest (some u) there = by_call rest u there (f u c) refl

module _ (json_parse : Text → Option Json) (by_id : TaskMap)
    (attempts_by_id : List (Text × SendAttemptRecord)) (r : Text → ℕ) (ids : List Text)
    (lookup : (k : Text) (v : AgentTask)
      → get by_id k ≡ some v
      → All (λ d. r d < r v.id) v.depends_on × (v.id ≡ k))
    (listed : (k : Text) (v : AgentTask) → get by_id k ≡ some v → includes ids k ≡ true) where
  -- A derivation whose dependencies return does.
  derive-none :
      (fuel : ℕ) (t : AgentTask) (c : Cache)
      → derive json_parse by_id attempts_by_id (suc fuel) t c ≡ none
      → derive_dependencies by_id (derive json_parse by_id attempts_by_id fuel) t.depends_on true c
        ≡ none
  unfolding derive
  derive-none fuel t c e = ground arith

  pub derive_returns :
      (fuel : ℕ) (t : AgentTask) (c : Cache)
      → get by_id t.id ≡ some t
      → lower r ids (r t.id) < fuel
      → derive json_parse by_id attempts_by_id fuel t c ≢ none
  derive_returns zero t c known enough e = absurd (omega arith)
  derive_returns (suc fuel) t c known enough e =
      loop_returns by_id (derive json_parse by_id attempts_by_id fuel) t.depends_on true c
        (All-map _
          (λ d (below : r d < r t.id) u there c'.
            let own = (lookup d u there).1 in
            let low = lower-lt r ids d (r t.id) (listed d u there) below in
            derive_returns fuel u c' (subst (λ k. get by_id k ≡ some u) (sym own) there)
              (subst (λ k. lower r ids (r k) < fuel) (sym own) (omega arith)))
          (lookup t.id t known).0)
        (derive-none fuel t c e)
