-- ===== src/Dispatch/Governor/Run.antt =====
-- src/promptDispatchGovernor.ts: what holds of the governor whatever operations it serves, in whatever
-- order. Its operations run one after another (`serialize`), so a run is a list of them.
use charterion.Prelude.{
  ℕ, suc, ◌+◌, ◌≤◌, ◌<◌, ◌≡◌, refl, sym, subst, Text, Option, none, some, List, [], ◌∷◌, ◌++◌, Bool,
  true, false, not, if◌then◌else◌, arith, ltb, All, Bool-cases, inl, inr, length, length-filter-le,
  put, delete, nat_eq, some-eq, same,
}
use charterion.Dispatch.Governor.{
  PromptDispatchPolicy, PromptDispatchGovernorState, PromptDispatchScope, PromptDispatchPermit,
  Governor, reserve, try_acquire, note_rate_limit, release_generation_reservation,
  release_generation_reservations_for_key, normalize, is_allowed, plan_prompt_dispatch,
  reserve_dispatch, waits, Wait, rate_limit_backoff,
}
use charterion.Dispatch.Governor.Plan.{plan_prompt-waits}
use charterion.Dispatch.Governor.Waits.{IsOver}

-- An operation with what it is given by the clock and the store.
pub data Operation : Type 0 where
  acquire :
      (scope : PromptDispatchScope) (started_at now reserved_at : ℕ) (written : Bool) → Operation
  limit : (now : ℕ) (written : Bool) → Operation
  release : ℕ → Operation
  release_key : Text → Operation

length-delete : (m : List (ℕ × Text)) (k : ℕ) → length (delete m k) ≤ length m
unfolding delete
length-delete [] k = omega arith
length-delete ((j, v) ∷ m) k = ground (arith, length-delete m k)

length-put : (m : List (ℕ × Text)) (k : ℕ) (v : Text) → length (put m k v) ≤ length m + 1
unfolding put
length-put [] k v = omega arith
length-put ((j, w) ∷ m) k v = ground (arith, length-put m k v)

length-reserve :
    (g : Governor) (key : Option Text)
    → length (reserve g key).0.generation_reservations ≤ length g.generation_reservations + 1
length-reserve g none = omega arith
length-reserve g (some key) =
    ground (arith, length-put g.generation_reservations (suc g.reservation_sequence) key)

reserve-backoff : (g : Governor) (key : Option Text) → (reserve g key).0.state ≡ g.state
reserve-backoff g none = refl
reserve-backoff g (some key) = ground arith

module _ (to_lower : Text → Text) (policy : PromptDispatchPolicy) where
  unfoldable pub step : Governor → Operation → Governor
  step g (acquire scope started_at now reserved_at written) =
      (try_acquire to_lower policy g scope started_at now reserved_at written).1
  step g (limit now written) = (note_rate_limit policy g now written).1
  step g (release id) = release_generation_reservation g id
  step g (release_key key) = release_generation_reservations_for_key g key

  unfoldable pub run : Governor → List Operation → Governor
  run g [] = g
  run g (o ∷ os) = run (step g o) os

  -- The plan that `tryAcquireSerialized` makes.
  abbrev plan_of : Governor → PromptDispatchScope → ℕ → PromptDispatchPermit
  plan_of g scope now =
      plan_prompt_dispatch to_lower (normalize g.state now policy)
        (record scope {
          active_generations = scope.active_generations + length g.generation_reservations;
        })
        now policy

  abbrev Acquired : Type 0
  Acquired = Option PromptDispatchPermit × Governor

  abbrev branches : (planned written : Bool) → Acquired → Acquired → Acquired → Acquired
  branches planned written x y z = if not planned then x else if not written then y else z

  -- What holds after an attempt to acquire, by its plan and by the write.
  acquired :
      (P : Governor → Type 0) (planned written : Bool) (x y z : Acquired)
      → P x.1
      → P y.1
      → (planned ≡ true → P z.1)
      → P (branches planned written x y z).1
  acquired P false written x y z h i k = h
  acquired P true false x y z h i k = i
  acquired P true true x y z h i k = k refl

  reserve_dispatch-backoff :
      (s : PromptDispatchGovernorState) (scope : PromptDispatchScope) (now : ℕ)
      → (reserve_dispatch to_lower s scope now policy).backoff_until ≡ s.backoff_until
  unfolding reserve_dispatch normalize
  reserve_dispatch-backoff s scope now = refl

  acquire-backoff :
      (g : Governor) (scope : PromptDispatchScope) (started_at now reserved_at : ℕ) (written : Bool)
      (b : ℕ)
      → b ≤ g.state.backoff_until
      → b
        ≤ (try_acquire to_lower policy g scope started_at now reserved_at
            written).1.state.backoff_until
  unfolding try_acquire normalize
  acquire-backoff g scope started_at now reserved_at written b h =
      acquired (λ x. b ≤ x.state.backoff_until) (is_allowed (plan_of g scope now)) written _ _ _ h h
        (λ _.
          subst (λ s. b ≤ s.backoff_until)
            (sym (
              reserve-backoff
                (record g {
                  state =
                      reserve_dispatch to_lower (normalize g.state now policy) scope reserved_at
                        policy;
                })
                scope.reservation_key))
            (omega (
              arith,
              h,
              reserve_dispatch-backoff (normalize g.state now policy) scope reserved_at,
            )))

  acquire-length :
      (g : Governor) (scope : PromptDispatchScope) (started_at now reserved_at : ℕ) (written : Bool)
      → length g.generation_reservations ≤ policy.max_concurrent_generations
      → length
          (try_acquire to_lower policy g scope started_at now reserved_at
            written).1.generation_reservations
        ≤ policy.max_concurrent_generations
  unfolding try_acquire
  acquire-length g scope started_at now reserved_at written h =
      acquired (λ x. length x.generation_reservations ≤ policy.max_concurrent_generations)
        (is_allowed (plan_of g scope now)) written _ _ _ h h
        (λ e.
          let below =
            (plan_prompt-waits to_lower (normalize g.state now policy)
              (record scope {
                active_generations = scope.active_generations + length g.generation_reservations;
              })
              now policy e).0 in
          let more =
            length-reserve
              (record g {
                state =
                    reserve_dispatch to_lower (normalize g.state now policy) scope reserved_at
                      policy;
              })
              scope.reservation_key in
          omega arith)

  step-backoff :
      (g : Governor) (o : Operation) (b : ℕ)
      → b ≤ g.state.backoff_until
      → b ≤ (step g o).state.backoff_until
  unfolding step note_rate_limit normalize release_generation_reservation
      release_generation_reservations_for_key
  step-backoff g (acquire scope started_at now reserved_at written) b h =
      acquire-backoff g scope started_at now reserved_at written b h
  step-backoff g (limit now written) b h = ground arith
  step-backoff g (release id) b h = h
  step-backoff g (release_key key) b h = h

  step-length :
      (g : Governor) (o : Operation)
      → length g.generation_reservations ≤ policy.max_concurrent_generations
      → length (step g o).generation_reservations ≤ policy.max_concurrent_generations
  unfolding step note_rate_limit release_generation_reservation
      release_generation_reservations_for_key
  step-length g (acquire scope started_at now reserved_at written) h =
      acquire-length g scope started_at now reserved_at written h
  step-length g (limit now true) h = h
  step-length g (limit now false) h = h
  step-length g (release id) h = omega (arith, h, length-delete g.generation_reservations id)
  step-length g (release_key key) h =
      omega (
        arith,
        h,
        length-filter-le (λ (e : ℕ × Text). not (same e.1 key)) g.generation_reservations,
      )

  run-backoff :
      (g : Governor) (os : List Operation) (b : ℕ)
      → b ≤ g.state.backoff_until
      → b ≤ (run g os).state.backoff_until
  unfolding run
  run-backoff g [] b h = h
  run-backoff g (o ∷ os) b h = run-backoff (step g o) os b (step-backoff g o b h)

  -- A governor that starts with no more reservations than generations may run at once never holds more,
  -- whatever operations it serves.
  pub run-length :
      (g : Governor) (os : List Operation)
      → length g.generation_reservations ≤ policy.max_concurrent_generations
      → length (run g os).generation_reservations ≤ policy.max_concurrent_generations
  unfolding run
  run-length g [] h = h
  run-length g (o ∷ os) h = run-length (step g o) os (step-length g o h)

  -- The permit of an attempt to acquire is an allowance only if its plan was one.
  acquired_by :
      (planned written : Bool) (p q : PromptDispatchPermit) (x z : Acquired)
      → is_allowed p ≡ planned
      → is_allowed q ≡ true
      → x.0 ≡ none
      → (branches planned written (some p, x.1) x z).0 ≡ some q
      → planned ≡ true
  acquired_by true written p q x z e f n h = refl
  acquired_by false written p q x z e f n h = let g : p ≡ q = some-eq h in ground arith

  over_first :
      (now b : ℕ) (rest : List Wait)
      → All (IsOver now) ((if ltb now b then (rate_limit_backoff, some b) ∷ [] else []) ++ rest)
      → b ≤ now
  over_first now b rest h = ground arith

  backoff-over :
      (g : Governor) (scope : PromptDispatchScope) (now : ℕ)
      → is_allowed (plan_of g scope now) ≡ true
      → g.state.backoff_until ≤ now
  unfolding waits normalize
  backoff-over g scope now e =
      over_first now g.state.backoff_until _
        (plan_prompt-waits to_lower (normalize g.state now policy)
          (record scope {
            active_generations = scope.active_generations + length g.generation_reservations;
          })
          now policy e).1

  -- Once a rate limit was noted, with the time that the operation returns, no attempt to acquire is
  -- allowed whose clock reads less than that time, whatever operations come between.
  pub limit-refuses :
      (g : Governor) (noted_at until : ℕ) (between : List Operation) (scope : PromptDispatchScope)
      (started_at now reserved_at : ℕ) (written : Bool) (permit : PromptDispatchPermit)
      → (note_rate_limit policy g noted_at true).0 ≡ some until
      → now < until
      → (try_acquire to_lower policy
          (run g (limit noted_at true ∷ between))
          scope
          started_at
          now
          reserved_at
          written).0
        ≡ some permit
      → is_allowed permit ≡ false
  unfolding run step note_rate_limit try_acquire
  limit-refuses g noted_at until between scope started_at now reserved_at written permit noted early
        h =
      elim (Bool-cases (is_allowed permit)) [
        | inr refused ↦ refused
        | inl granted ↦
            let later = run (step g (limit noted_at true)) between in
            let kept =
              run-backoff (step g (limit noted_at true)) between until
                (let e = some-eq noted in omega arith) in
            let over = backoff-over later scope now (
              acquired_by (is_allowed (plan_of later scope now)) written (plan_of later scope now)
                permit _ _ refl granted refl h) in
            absurd (omega arith)
      ]
