-- ===== src/Dispatch/Governor/Acquire.antt =====
-- src/promptDispatchGovernor.ts, `acquire`: the loop that sleeps inline until a prompt may be sent. A
-- pass has its readings of the clock, whether the store takes the write, the jitter that was drawn, and
-- what other callers did to the governor since the last one.
use charterion.Prelude.{
  ℕ, zero, suc, ◌+◌, ◌≤◌, ◌<◌, ◌≡◌, ◌⊎◌, ap, subst, true-ne-false, not, length, refl, Text, Option,
  none, some, Bool, true, false, ◌||◌, if◌then◌else◌, arith, ltb, Bool-cases, inl, inr,
}
use charterion.Dispatch.Governor.{
  PromptDispatchPolicy, PromptDispatchScope, PromptDispatchDeferReason, PromptDispatchPermit,
  Governor, allowed, deferred, generation_capacity, rate_limit_backoff, try_acquire,
  plan_prompt_dispatch, PromptDispatchGovernorState, plus, is_allowed, normalize, normalize_key,
}
use charterion.Dispatch.Governor.Waits.{IsOwn}
use charterion.Dispatch.Governor.Plan.{plan_prompt-deferred}

pub record Pass : Type 0 where
  pub now : ℕ
  pub reserved_at : ℕ
  pub written : Bool
  pub jitter : ℕ
  pub others : Governor → Governor

-- The result of `acquire`: the permit, or none where the store failed; the time slept, if that is a
-- number; the number of the last pass.
pub record AcquireResult : Type 0 where
  pub permit : Option PromptDispatchPermit
  pub inline_wait_spent : Option ℕ
  pub last_pass : ℕ
  pub governor : Governor

abbrev stops_at_once : PromptDispatchDeferReason → Bool
stops_at_once generation_capacity = true
stops_at_once rate_limit_backoff = true
stops_at_once _ = false

abbrev pub sleep_of : Option PromptDispatchPermit → ℕ → Option ℕ
sleep_of (some (deferred reason retry)) jitter = plus retry jitter
sleep_of _ jitter = some 0

-- `inlineWaitSpent + waitMs`.
abbrev pub spent_after : Option ℕ → Option ℕ → Option ℕ
spent_after none wait = none
spent_after (some spent) none = none
spent_after (some spent) (some wait) = some (spent + wait)

abbrev exceeds : PromptDispatchPolicy → Option ℕ → Bool
exceeds policy none = false
exceeds policy (some total) = ltb policy.max_inline_wait_ms total

-- The permit is returned after a pass, or the sleep that it asks for is longer than what is left.
abbrev pub ends_with : PromptDispatchPolicy → Option PromptDispatchPermit → Option ℕ → ℕ → Bool
ends_with policy none spent jitter = true
ends_with policy (some (allowed r w i)) spent jitter = true
ends_with policy (some (deferred reason retry)) spent jitter =
    stops_at_once reason || exceeds policy (spent_after spent (plus retry jitter))

-- A permit that does not stop the loop at once asks for a sleep of a number of milliseconds.
abbrev Asks : Option PromptDispatchPermit → Type 0
Asks none = Unit
Asks (some (allowed r w i)) = Unit
Asks (some (deferred reason retry)) =
    (stops_at_once reason ≡ true) ⊎ ((ms : ℕ) × (retry ≡ some ms) × (0 < ms))

-- Where the loop stays, what was slept and the next sleep are within the budget.
asked :
    (policy : PromptDispatchPolicy) (permit : Option PromptDispatchPermit) (spent jitter : ℕ)
    → Asks permit
    → ends_with policy permit (some spent) jitter ≡ false
    → (wait : ℕ) × (sleep_of permit jitter ≡ some wait)
      × (0 < wait)
      × (spent + wait ≤ policy.max_inline_wait_ms)
asked policy none spent jitter a h = cc
asked policy (some (allowed r w i)) spent jitter a h = cc
asked policy (some (deferred reason retry)) spent jitter (inl at_once) h = absurd (ground arith)
asked policy (some (deferred reason retry)) spent jitter (inr (ms, e, pos)) h =
    let within : ltb policy.max_inline_wait_ms (spent + (ms + jitter)) ≡ false =
      subst (λ o. exceeds policy (spent_after (some spent) (plus o jitter)) ≡ false) e
        (ground arith) in
    (ms + jitter, rw e refl, omega arith, ground arith)

module _ (to_lower : Text → Text) where
  -- `none` is out of fuel.
  unfoldable pub acquire_loop :
      PromptDispatchPolicy
      → PromptDispatchScope
      → (ℕ → Pass)
      → (started_at fuel index : ℕ) → (spent : Option ℕ) → Governor
      → Option AcquireResult
  acquire_loop policy scope passes started_at zero index spent g = none
  acquire_loop policy scope passes started_at (suc fuel) index spent g =
      let pass = passes index in
      let (permit, after) =
        try_acquire to_lower policy (pass.others g) scope started_at pass.now pass.reserved_at
          pass.written in
      let rest =
        acquire_loop policy scope passes started_at fuel (index + 1)
          (spent_after spent (sleep_of permit pass.jitter)) after in
      if ends_with policy permit spent pass.jitter
      then some (record {
        permit = permit;
        inline_wait_spent = spent;
        last_pass = index;
        governor = after;
      })
      else rest

  unfoldable pub acquire :
      PromptDispatchPolicy
      → PromptDispatchScope
      → (ℕ → Pass)
      → (started_at : ℕ) → Governor
      → Option AcquireResult
  acquire policy scope passes started_at g =
      acquire_loop policy scope passes started_at (suc policy.max_inline_wait_ms) 0 (some 0) g

  -- The cap of the window is not zero, and neither key names a member of every object.
  pub record IsSound (policy : PromptDispatchPolicy) (scope : PromptDispatchScope) : Type 0 where
    pub some_in_window : 0 < policy.max_global_in_window
    pub own_project : IsOwn (normalize_key to_lower scope.project)
    pub own_slot : IsOwn (normalize_key to_lower scope.slot_id)

  plan-Asks :
      (policy : PromptDispatchPolicy) (s : PromptDispatchGovernorState)
      (scope : PromptDispatchScope) (now : ℕ)
      → IsSound policy scope
      → Asks (some (plan_prompt_dispatch to_lower s scope now policy))
  plan-Asks policy s scope now sound = go (plan_prompt_dispatch to_lower s scope now policy) refl
    where
      go :
          (p : PromptDispatchPermit)
          → plan_prompt_dispatch to_lower s scope now policy ≡ p
          → Asks (some p)
      go (allowed r w i) e = tt
      go (deferred reason retry) e = elim (Bool-cases (stops_at_once reason)) [
        | inl at_once ↦ inl at_once
        | inr later ↦
            let (ms, is_ms, positive, is_open) =
              plan_prompt-deferred to_lower s scope now policy reason retry sound.some_in_window
                sound.own_project sound.own_slot
                (λ is_capacity. true-ne-false (ap (λ x. stops_at_once x) is_capacity) later) e in
            inr (ms, is_ms, positive)
      ]

  try_acquire-Asks :
      (policy : PromptDispatchPolicy) (g : Governor) (scope : PromptDispatchScope)
      (started_at now reserved_at : ℕ) (written : Bool)
      → IsSound policy scope
      → Asks (try_acquire to_lower policy g scope started_at now reserved_at written).0
  unfolding try_acquire
  try_acquire-Asks policy g scope started_at now reserved_at written sound =
      branch
        (is_allowed (plan_prompt_dispatch to_lower (normalize g.state now policy) busy now policy))
        written _ _ _
        (plan-Asks policy (normalize g.state now policy) busy now (record {
          some_in_window = sound.some_in_window;
          own_project = sound.own_project;
          own_slot = sound.own_slot;
        }))
        tt tt
    where
      busy : PromptDispatchScope
      busy = record scope {
        active_generations = scope.active_generations + length g.generation_reservations;
      }

      branch :
          (planned write : Bool) (x y z : Option PromptDispatchPermit × Governor)
          → Asks x.0
          → Asks y.0
          → Asks z.0
          → Asks (if not planned then x else if not write then y else z).0
      branch false write x y z a b c = a
      branch true false x y z a b c = b
      branch true true x y z a b c = c

  -- How the loop ended: within the budget, on a permit that ends it.
  abbrev pub IsSettled : PromptDispatchPolicy → (ℕ → Pass) → AcquireResult → Type 0
  IsSettled policy passes a =
      (spent : ℕ) × (a.inline_wait_spent ≡ some spent)
      × (spent ≤ policy.max_inline_wait_ms)
      × (ends_with policy a.permit a.inline_wait_spent (passes a.last_pass).jitter ≡ true)

  acquire_loop_within :
      (policy : PromptDispatchPolicy) (scope : PromptDispatchScope) (passes : ℕ → Pass)
      (started_at fuel index spent : ℕ) (g : Governor)
      → IsSound policy scope
      → spent ≤ policy.max_inline_wait_ms
      → policy.max_inline_wait_ms < spent + fuel
      → (a : AcquireResult) × (acquire_loop policy scope passes started_at fuel index (some spent) g
          ≡ some a)
        × IsSettled policy passes a
  unfolding acquire_loop
  acquire_loop_within policy scope passes started_at zero index spent g sound within enough =
      absurd (omega arith)
  acquire_loop_within policy scope passes started_at (suc fuel) index spent g sound within enough =
      go
        (try_acquire to_lower policy (pass.others g) scope started_at pass.now pass.reserved_at
          pass.written)
        (try_acquire-Asks policy (pass.others g) scope started_at pass.now pass.reserved_at
          pass.written sound)
        (λ later g'.
          acquire_loop_within policy scope passes started_at fuel (index + 1) later g' sound)
    where
      pass : Pass
      pass = passes index

      go :
          (t : Option PromptDispatchPermit × Governor)
          → Asks t.0
          → ((later : ℕ) (g' : Governor)
              → later ≤ policy.max_inline_wait_ms
              → policy.max_inline_wait_ms < later + fuel
              → (a : AcquireResult) × (acquire_loop policy scope passes started_at fuel
                    (index + 1)
                    (some later)
                    g'
                  ≡ some a)
                × IsSettled policy passes a)
          → (a : AcquireResult) × ((if ends_with policy t.0 (some spent) pass.jitter
                then some (record {
                  permit = t.0;
                  inline_wait_spent = some spent;
                  last_pass = index;
                  governor = t.1;
                })
                else acquire_loop policy scope passes started_at fuel
                    (index + 1)
                    (spent_after (some spent) (sleep_of t.0 pass.jitter))
                    t.1)
              ≡ some a)
            × IsSettled policy passes a
      go t asks again = elim (Bool-cases (ends_with policy t.0 (some spent) pass.jitter)) [
        | inl ends ↦ rw ends (
          record {
            permit = t.0;
            inline_wait_spent = some spent;
            last_pass = index;
            governor = t.1;
          },
          refl,
          (spent, refl, within, ends),
        )
        | inr stays ↦
            let (wait, is_wait, longer, left) = asked policy t.0 spent pass.jitter asks stays in
            rw (stays, is_wait) (again (spent + wait) t.1 left (omega arith))
      ]

  -- The loop always ends: the sleeps of one call are within the budget of inline waiting, and a permit
  -- that still defers is returned only for its capacity or back-off, or since the next sleep would
  -- exceed the budget. The cap of the window is not zero, and neither key of the scope names a member of
  -- every object: otherwise a sleep may be no number, which no budget stops.
  pub acquire-IsSettled :
      (policy : PromptDispatchPolicy) (scope : PromptDispatchScope) (passes : ℕ → Pass)
      (started_at : ℕ) (g : Governor)
      → IsSound policy scope
      → (a : AcquireResult) × (acquire policy scope passes started_at g ≡ some a)
        × IsSettled policy passes a
  unfolding acquire
  acquire-IsSettled policy scope passes started_at g sound =
      acquire_loop_within policy scope passes started_at (suc policy.max_inline_wait_ms) 0 0 g sound
        (omega arith) (omega arith)
