-- ===== src/Dispatch/Governor/Plan.antt =====
-- src/promptDispatchGovernor.ts, `planPromptDispatch`: when a dispatch is allowed, and how long it waits.
use charterion.Prelude.{
  ℕ, ◌+◌, ◌≤◌, ◌<◌, ◌≡◌, ◌≢◌, refl, subst, Text, Option, none, some, List, [], ◌∷◌, true, arith,
  ltb, leb, max, ◌-◌, All, All-map, Bool-cases, inl, inr, none-ne-some,
}
use charterion.Dispatch.Governor.{
  PromptDispatchPolicy, PromptDispatchGovernorState, PromptDispatchScope, PromptDispatchDeferReason,
  deferred, Wait, limiting, permit_at, permit_until, waits, plan_prompt_dispatch, normalize,
  normalize_key, is_allowed, generation_capacity,
}
use charterion.Dispatch.Governor.Waits.{
  IfSome, IsOver, IsOwn, IsOpen, IsNumber, waits-IsOpen, waits-IsNumber,
}

IsOver-mono : (ws : List Wait) (a b : ℕ) → a ≤ b → All (IsOver a) ws → All (IsOver b) ws
IsOver-mono ws a b le = All-map ws (λ w. later w.1)
  where
    later : (o : Option ℕ) → IfSome (λ u. u ≤ a) o → IfSome (λ u. u ≤ b) o
    later none h = tt
    later (some u) h = omega arith

-- A wait that is found is at least as long as the first, and as all that follow.
record IsLongest (u : ℕ) (ws : List Wait) (found : Option Wait) : Type 0 where
  wait : Wait
  until : ℕ
  is_found : found ≡ some wait
  ends : wait.1 ≡ some until
  first : u ≤ until
  rest : All (IsOver until) ws

limiting-number :
    (r : PromptDispatchDeferReason) (u : ℕ) (ws : List Wait)
    → IsLongest u ws (limiting (some (r, some u)) ws)
unfolding limiting
limiting-number r u [] = record {
  wait = (r, some u);
  until = u;
  is_found = refl;
  ends = refl;
  first = omega arith;
  rest = tt;
}
limiting-number r u ((s, none) ∷ ws) =
    let found = limiting-number r u ws in
    record {
      wait = found.wait;
      until = found.until;
      is_found = found.is_found;
      ends = found.ends;
      first = found.first;
      rest = (tt, found.rest);
    }
limiting-number r u ((s, some t) ∷ ws) = elim (Bool-cases (ltb u t)) [
  | inl longer ↦
      let found = limiting-number s t ws in
      let after = found.first in
      record {
        wait = found.wait;
        until = found.until;
        is_found = rw longer found.is_found;
        ends = found.ends;
        first = ground arith;
        rest = (found.first, found.rest);
      }
  | inr shorter ↦
      let found = limiting-number r u ws in
      let before = found.first in
      record {
        wait = found.wait;
        until = found.until;
        is_found = rw shorter found.is_found;
        ends = found.ends;
        first = found.first;
        rest = (ground arith, found.rest);
      }
]

-- A first wait that is no number is never replaced.
limiting-none :
    (r : PromptDispatchDeferReason) (ws : List Wait) → limiting (some (r, none)) ws ≡ some (r, none)
unfolding limiting
limiting-none r [] = refl
limiting-none r (v ∷ ws) = limiting-none r ws

permit_at-IsOver :
    (now : ℕ) (ws : List Wait)
    → is_allowed (permit_at now (limiting none ws)) ≡ true
    → All (IsOver now) ws
unfolding limiting
permit_at-IsOver now [] h = tt
permit_at-IsOver now ((r, none) ∷ ws) h =
    let refused : is_allowed (deferred r none) ≡ true =
      subst (λ o. is_allowed (permit_at now o) ≡ true) (limiting-none r ws) h in
    absurd (ground arith)
permit_at-IsOver now ((r, some u) ∷ ws) h =
    let found = limiting-number r u ws in
    let granted : is_allowed (permit_until found.wait.0 now (some found.until)) ≡ true =
      subst (λ o. is_allowed (permit_until found.wait.0 now o) ≡ true) found.ends
        (subst (λ o. is_allowed (permit_at now o) ≡ true) found.is_found h) in
    let over : found.until ≤ now = ground arith in
    let first = found.first in (omega arith, IsOver-mono ws found.until now over found.rest)

permit_at-deferred :
    (now : ℕ) (ws : List Wait) (reason : PromptDispatchDeferReason) (retry : Option ℕ)
    → All IsNumber ws
    → permit_at now (limiting none ws) ≡ deferred reason retry
    → (ms : ℕ) × (retry ≡ some ms) × (0 < ms) × All (IsOver (now + ms)) ws
unfolding limiting
permit_at-deferred now [] reason retry numbers h = absurd (ground arith)
permit_at-deferred now ((r, none) ∷ ws) reason retry numbers h = absurd (none-ne-some numbers.0.1)
permit_at-deferred now ((r, some u) ∷ ws) reason retry numbers h =
    let found = limiting-number r u ws in
    let put_off : permit_until found.wait.0 now (some found.until) ≡ deferred reason retry =
      subst (λ o. permit_until found.wait.0 now o ≡ deferred reason retry) found.ends
        (subst (λ o. permit_at now o ≡ deferred reason retry) found.is_found h) in
    let (ms, is_ms, positive, enough) = asked found.wait.0 found.until put_off in
    let first = found.first in
    (ms, is_ms, positive, (omega arith, IsOver-mono ws found.until (now + ms) enough found.rest))
  where
    asked :
        (why : PromptDispatchDeferReason) (until : ℕ)
        → permit_until why now (some until) ≡ deferred reason retry
        → (ms : ℕ) × (retry ≡ some ms) × (0 < ms) × (until ≤ now + ms)
    asked why until k = (max 1 (until - now), ground arith, ground arith, ground arith)

-- What a plan that allows a dispatch has tested.
pub plan_prompt-waits :
    (to_lower : Text → Text) (s : PromptDispatchGovernorState) (scope : PromptDispatchScope)
    (now : ℕ) (policy : PromptDispatchPolicy)
    → is_allowed (plan_prompt_dispatch to_lower s scope now policy) ≡ true
    → (scope.active_generations < policy.max_concurrent_generations)
      × All (IsOver now) (waits to_lower (normalize s now policy) scope now policy)
unfolding plan_prompt_dispatch
plan_prompt-waits to_lower s scope now policy h =
    elim (Bool-cases (leb policy.max_concurrent_generations scope.active_generations)) [
      | inl full ↦ absurd (ground arith)
      | inr below ↦ (
        ground arith,
        permit_at-IsOver now (waits to_lower (normalize s now policy) scope now policy)
            (ground arith),
      )
    ]

-- A dispatch is allowed only below the cap of generations, and when, of what the state remembers, the
-- back-off after a rate limit and the gaps after the last prompts of all, of the project and of the slot
-- are over, and fewer prompts than the window allows are in it. The cap of the window is not zero, and
-- neither key names a member of every object.
pub plan_prompt-IsOver :
    (to_lower : Text → Text) (s : PromptDispatchGovernorState) (scope : PromptDispatchScope)
    (now : ℕ) (policy : PromptDispatchPolicy)
    → 0 < policy.max_global_in_window
    → IsOwn (normalize_key to_lower scope.project)
    → IsOwn (normalize_key to_lower scope.slot_id)
    → is_allowed (plan_prompt_dispatch to_lower s scope now policy) ≡ true
    → (scope.active_generations < policy.max_concurrent_generations)
      × IsOpen to_lower s scope policy now now
plan_prompt-IsOver to_lower s scope now policy pos own_project own_slot h =
    let (below, over) = plan_prompt-waits to_lower s scope now policy h in
    (
      below,
      waits-IsOpen to_lower s scope policy now now (omega arith) pos own_project own_slot over,
    )

pub plan_prompt-deferred :
    (to_lower : Text → Text) (s : PromptDispatchGovernorState) (scope : PromptDispatchScope)
    (now : ℕ) (policy : PromptDispatchPolicy) (reason : PromptDispatchDeferReason)
    (retry : Option ℕ)
    → 0 < policy.max_global_in_window
    → IsOwn (normalize_key to_lower scope.project)
    → IsOwn (normalize_key to_lower scope.slot_id)
    → reason ≢ generation_capacity
    → plan_prompt_dispatch to_lower s scope now policy ≡ deferred reason retry
    → (ms : ℕ) × (retry ≡ some ms) × (0 < ms) × IsOpen to_lower s scope policy now (now + ms)
unfolding plan_prompt_dispatch
plan_prompt-deferred to_lower s scope now policy reason retry pos own_project own_slot other h =
    elim (Bool-cases (leb policy.max_concurrent_generations scope.active_generations)) [
      | inl full ↦ absurd (other (is_capacity full))
      | inr below ↦
          let (ms, is_ms, positive, over) =
            permit_at-deferred now (waits to_lower (normalize s now policy) scope now policy) reason
              retry
              (waits-IsNumber to_lower (normalize s now policy) scope now policy pos own_project
                own_slot)
              (ground arith) in
          (
            ms,
            is_ms,
            positive,
            waits-IsOpen to_lower s scope policy now (now + ms) (omega arith) pos own_project
                own_slot over,
          )
    ]
  where
    is_capacity :
        leb policy.max_concurrent_generations scope.active_generations ≡ true
        → reason ≡ generation_capacity
    is_capacity full = ground arith
