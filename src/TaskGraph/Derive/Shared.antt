-- ===== src/TaskGraph/Derive/Shared.antt =====
-- src/taskGraph.ts, `deriveManagedTasks`: the results are shared between the tasks, and yet each obeys
-- the rules by the final map of results.
use charterion.Prelude.{
  ℕ, zero, suc, ◌≤◌, ◌<◌, ◌≡◌, refl, sym, subst, ap, ◌∙◌, Text, Option, none, some, List, [], ◌∷◌,
  Bool, true, ◌&&◌, arith, text_eq, get, get-put_same, get-put_other, get-put_cases, get-put_kept,
  put, All, Bool-cases, inl, inr, none-ne-some, some-eq,
}
use charterion.Prelude.Json.{Json}
use charterion.Contracts.{AgentTask, ManagedTask, SendAttemptRecord, TaskDisplayStatus}
use charterion.TaskGraph.Validate.{TaskMap}
use charterion.TaskGraph.Derive.{
  Cache, Dependencies, own_status, status_after, managed_task, derive_dependencies, derive,
  is_blocking, is_terminal,
}
use charterion.TaskGraph.Derive.Rules.{
  rule_status, view, view_empty, view_missing, view_blocked, view_passed, loop_missing, loop_found,
  loop_after, loop_stops, loop_goes_on, loop_empty,
}
use charterion.TaskGraph.Derive.Steps.{
  facts, placed, derive_at, derived_from, derive_shared, derive_own, derive_depending, rule_own,
  rule_undecided,
}

-- A later map of results keeps the entries of an earlier one.
abbrev pub Extends : Cache → Cache → Type 0
Extends c c' = (k : Text) (m : ManagedTask) → get c k ≡ some m → get c' k ≡ some m

module _ (json_parse : Text → Option Json) (by_id : TaskMap)
    (attempts_by_id : List (Text × SendAttemptRecord)) (r : Text → ℕ)
    (lookup : (k : Text) (v : AgentTask)
      → get by_id k ≡ some v
      → All (λ d. r d < r v.id) v.depends_on × (v.id ≡ k)) where
  -- Every entry obeys the rules, by this map and by any later one.
  abbrev pub Consistent : Cache → Type 0
  Consistent c =
      (k : Text) (m : ManagedTask)
      → get c k ≡ some m
      → (c' : Cache) → Extends c c'
      → (m.status ≡ rule_status by_id c' m.task (facts json_parse by_id attempts_by_id m.task))
        × (get by_id k ≡ some m.task)

  -- A call that returned: `bound` is above the ranks of the entries that it may have added.
  pub record Grown (bound : ℕ) (c c' : Cache) : Type 0 where
    pub consistent : Consistent c'
    pub extends : Extends c c'
    pub untouched : (k : Text) → bound ≤ r k → get c' k ≡ get c k

  Grown-trans : {b : ℕ} {c d e : Cache} → Grown b c d → Grown b d e → Grown b c e
  Grown-trans g h = record {
    consistent = h.consistent;
    extends = λ k m p. h.extends k m (g.extends k m p);
    untouched = λ k p. h.untouched k p ∙ g.untouched k p;
  }

  Grown-mono : {a b : ℕ} {c d : Cache} → a ≤ b → Grown a c d → Grown b c d
  Grown-mono le g = record {
    consistent = g.consistent;
    extends = g.extends;
    untouched = λ k p. g.untouched k (omega arith);
  }

  abbrev Deriver : Type 0
  Deriver = AgentTask → Cache → Option (ManagedTask × Cache)

  -- What is shown of a recursive call.
  abbrev Derives : Deriver → Type 0
  Derives f =
      (t : AgentTask) (c : Cache) (m : ManagedTask) (c' : Cache)
      → get by_id t.id ≡ some t
      → Consistent c
      → f t c ≡ some (m, c')
      → Grown (suc (r t.id)) c c' × (get c' t.id ≡ some m)

  -- What is shown of the loop.
  abbrev Finds : ℕ → List Text → Bool → Cache → Dependencies → Cache → Type 0
  Finds bound ids terminal c d c' =
      Grown bound c c'
      × ((t : AgentTask) (later : Cache)
          → Extends c' later
          → status_after t d ≡ status_after t (view by_id later ids terminal))

  module _ (f : Deriver) (step : Derives f) (bound : ℕ) where
    find_next :
        (id : Text) (ids : List Text) (terminal : Bool) (c : Cache) (d : Dependencies) (c' : Cache)
        → r id < bound
        → Consistent c
        → ((b : Bool) (from : Cache)
            → Consistent from
            → derive_dependencies by_id f ids b from ≡ some (d, c')
            → Finds bound ids b from d c')
        → (o : Option AgentTask) → get by_id id ≡ o
        → derive_dependencies by_id f (id ∷ ids) terminal c ≡ some (d, c')
        → Finds bound (id ∷ ids) terminal c d c'
    find_next id ids terminal c d c' below good ih none missing e =
        let (g, found) =
          ih terminal c good (sym (loop_missing by_id f id ids terminal c missing) ∙ e) in
        (
          g,
          λ t later x.
              found t later x
              ∙ ap (status_after t) (sym (view_missing by_id later id ids terminal missing)),
        )
    find_next id ids terminal c d c' below good ih (some u) there e =
        after (f u c) refl (sym (loop_found by_id f id ids terminal c u there) ∙ e)
      where
        own : (All (λ k. r k < r u.id) u.depends_on) × (u.id ≡ id)
        own = lookup id u there

        low : suc (r u.id) ≤ bound
        low = subst (λ k. suc (r k) ≤ bound) (sym own.1) below

        after :
            (o : Option (ManagedTask × Cache))
            → f u c ≡ o
            → loop_after by_id f ids terminal o ≡ some (d, c')
            → Finds bound (id ∷ ids) terminal c d c'
        after none called h = absurd (none-ne-some h)
        after (some (m, c₁)) called h = elim (Bool-cases (is_blocking m.status)) [
          | inl stops ↦
              let (g, stored) =
                step u c m c₁ (subst (λ k. get by_id k ≡ some u) (sym own.1) there) good called in
              let ends = some-eq (sym (loop_stops by_id f ids terminal m c₁ stops) ∙ h) in
              subst (λ (p : Dependencies × Cache). Finds bound (id ∷ ids) terminal c p.0 p.1) ends
                (
                  Grown-mono low g,
                  λ t later x.
                      view_blocked by_id t u m later id ids terminal terminal there
                        (x u.id m stored) stops,
                )
          | inr goes_on ↦
              let (g, stored) =
                step u c m c₁ (subst (λ k. get by_id k ≡ some u) (sym own.1) there) good called in
              let (g', found) =
                ih (terminal && is_terminal m.status) c₁ g.consistent
                  (sym (loop_goes_on by_id f ids terminal m c₁ goes_on) ∙ h) in
              (
                Grown-trans (Grown-mono low g) g',
                λ t later x.
                    found t later x
                    ∙ ap (status_after t) (
                        view_passed by_id u m later id ids terminal there
                          (x u.id m (g'.extends u.id m stored)) goes_on),
              )
        ]

    Finds-loop :
        (ids : List Text) (terminal : Bool) (c : Cache) (d : Dependencies) (c' : Cache)
        → All (λ k. r k < bound) ids
        → Consistent c
        → derive_dependencies by_id f ids terminal c ≡ some (d, c')
        → Finds bound ids terminal c d c'
    Finds-loop [] terminal c d c' below good e =
        subst (λ (p : Dependencies × Cache). Finds bound [] terminal c p.0 p.1)
          (some-eq (loop_empty by_id f terminal c e))
          (
            record { consistent = good; extends = λ k m h. h; untouched = λ k h. refl },
            λ t later x. view_empty by_id t later terminal,
          )
    Finds-loop (id ∷ ids) terminal c d c' below good e =
        find_next id ids terminal c d c' below.0 good (λ b from. Finds-loop ids b from d c' below.1)
          (get by_id id) refl e

  -- A new entry whose status obeys the rules.
  store_grows :
      (t : AgentTask) (s : TaskDisplayStatus) (c : Cache)
      → Consistent c
      → get c t.id ≡ none
      → get by_id t.id ≡ some t
      → ((later : Cache)
          → Extends c later
          → s ≡ rule_status by_id later t (facts json_parse by_id attempts_by_id t))
      → Grown (suc (r t.id)) c (put c t.id (placed json_parse by_id attempts_by_id t s))
        × (get (put c t.id (placed json_parse by_id attempts_by_id t s)) t.id
            ≡ some (placed json_parse by_id attempts_by_id t s))
  unfolding managed_task
  store_grows t s c good free known obeys = (
    record {
      consistent = λ k m h later x.
          elim (get-put_cases c t.id k (placed json_parse by_id attempts_by_id t s) m h) [
            | inl (new, own) ↦
                subst
                  (λ j.
                    (m.status
                      ≡ rule_status by_id later m.task
                          (facts json_parse by_id attempts_by_id m.task))
                    × (get by_id j ≡ some m.task))
                  own
                  (subst
                    (λ n.
                      (n.status
                        ≡ rule_status by_id later n.task
                            (facts json_parse by_id attempts_by_id n.task))
                      × (get by_id t.id ≡ some n.task))
                    new (obeys later (before later x), known))
            | inr old ↦ good k m old later (before later x)
          ];
      extends =
          λ k m h. get-put_kept c t.id k (placed json_parse by_id attempts_by_id t s) m free h;
      untouched = λ k le.
          get-put_other c t.id k (placed json_parse by_id attempts_by_id t s)
            (λ h. let e = ap r h in omega arith);
    },
    get-put_same c t.id (placed json_parse by_id attempts_by_id t s),
  )
    where
      before :
          (later : Cache)
          → Extends (put c t.id (placed json_parse by_id attempts_by_id t s)) later
          → Extends c later
      before later x k m h =
          x k m (get-put_kept c t.id k (placed json_parse by_id attempts_by_id t s) m free h)

  derive_next :
      (fuel : ℕ) (step : Derives (derive_at json_parse by_id attempts_by_id fuel)) (t : AgentTask)
      (c : Cache) (m : ManagedTask) (c' : Cache)
      → get by_id t.id ≡ some t
      → Consistent c
      → derive_at json_parse by_id attempts_by_id (suc fuel) t c ≡ some (m, c')
      → Grown (suc (r t.id)) c c' × (get c' t.id ≡ some m)
  derive_next fuel step t c m c' known good e = by_cache (get c t.id) refl
    where
      Goal : Type 0
      Goal = Grown (suc (r t.id)) c c' × (get c' t.id ≡ some m)

      ends :
          {p : ManagedTask × Cache}
          → Grown (suc (r t.id)) c p.1 × (get p.1 t.id ≡ some p.0)
          → derive_at json_parse by_id attempts_by_id (suc fuel) t c ≡ some p
          → Goal
      ends {p} g h =
          subst (λ q. Grown (suc (r t.id)) c q.1 × (get q.1 t.id ≡ some q.0)) (some-eq (sym h ∙ e))
            g

      by_dependencies :
          get c t.id ≡ none
          → own_status t (facts json_parse by_id attempts_by_id t) ≡ none
          → (o : Option (Dependencies × Cache))
          → derive_dependencies by_id
              (derive_at json_parse by_id attempts_by_id fuel)
              t.depends_on
              true
              c
            ≡ o
          → Goal
      by_dependencies free undecided none found = absurd (
          none-ne-some (
            sym (ap (derived_from json_parse by_id attempts_by_id t) found)
            ∙ sym (derive_depending json_parse by_id attempts_by_id fuel t c free undecided)
            ∙ e))
      by_dependencies free undecided (some (d, c₁)) found =
          let (g, sees) =
            Finds-loop (derive_at json_parse by_id attempts_by_id fuel) step (r t.id) t.depends_on
              true c d c₁ (lookup t.id t known).0 good found in
          let (g', stored) =
            store_grows t (status_after t d) c₁ g.consistent (g.untouched t.id (omega arith) ∙ free)
              known
              (λ later x.
                sees t later x
                ∙ rule_undecided json_parse by_id attempts_by_id t later undecided) in
          ends (Grown-trans (Grown-mono (omega arith) g) g', stored)
            (derive_depending json_parse by_id attempts_by_id fuel t c free undecided
              ∙ ap (derived_from json_parse by_id attempts_by_id t) found)

      by_own :
          get c t.id ≡ none
          → (o : Option TaskDisplayStatus)
          → own_status t (facts json_parse by_id attempts_by_id t) ≡ o
          → Goal
      by_own free none h =
          by_dependencies free h
            (derive_dependencies by_id (derive_at json_parse by_id attempts_by_id fuel) t.depends_on
              true c)
            refl
      by_own free (some s) h =
          ends
            (store_grows t s c good free known
              (λ later x. rule_own json_parse by_id attempts_by_id t later s h))
            (derive_own json_parse by_id attempts_by_id fuel t c s free h)

      by_cache : (o : Option ManagedTask) → get c t.id ≡ o → Goal
      by_cache none h = by_own h (own_status t (facts json_parse by_id attempts_by_id t)) refl
      by_cache (some n) h =
          ends (record { consistent = good; extends = λ k i p. p; untouched = λ k p. refl }, h)
            (derive_shared json_parse by_id attempts_by_id fuel t c n h)

  pub derive_obeys : (fuel : ℕ) → Derives (derive_at json_parse by_id attempts_by_id fuel)
  unfolding derive
  derive_obeys zero t c m c' known good e = absurd (none-ne-some e)
  derive_obeys (suc fuel) t c m c' known good e =
      derive_next fuel (derive_obeys fuel) t c m c' known good e
