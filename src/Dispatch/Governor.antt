-- ===== src/Dispatch/Governor.antt =====
-- src/promptDispatchGovernor.ts: the pace of prompts. A state is what `normalizePromptDispatchState`
-- makes of the stored value; the reading of a value of unknown shape is not modelled, so the first state
-- is any state. Times are natural numbers of milliseconds: where the source takes the larger of zero and
-- a difference, the subtraction on ℕ does so by itself. `String.prototype.toLowerCase` is a parameter.
-- The maps of the source are plain objects, which inherit members: a sum with what is found under their
-- names is no number, as is a sum with a dispatch that is not there, and `none` stands for both. Of two
-- inherited members the model keeps the first wait, where the source compares texts; only the reason
-- that is reported depends on it.
pub mod Acquire
pub mod Plan
pub mod Run
pub mod Sorted
pub mod Waits
use charterion.Prelude.{
  ℕ, zero, suc, ◌+◌, ◌-◌, ◌*◌, ◌^◌, min, max, Text, Option, none, some, List, [], ◌∷◌, ◌++◌, Bool,
  true, false, not, ◌||◌, ◌&&◌, if◌then◌else◌, trim, truthy, is_some, or_else, filter, length,
  codes, get_elem?, get_last?, get, put, delete, text_eq, nat_eq, ltb, leb, same,
}

pub data PromptDispatchDeferReason : Type 0 where
  global_gap global_window project_gap slot_gap rate_limit_backoff generation_capacity :
      PromptDispatchDeferReason

pub record PromptDispatchPolicy : Type 0 where
  pub global_min_interval_ms : ℕ
  pub global_window_ms : ℕ
  pub max_global_in_window : ℕ
  pub project_min_interval_ms : ℕ
  pub slot_min_interval_ms : ℕ
  pub max_concurrent_generations : ℕ
  pub generation_retry_ms : ℕ
  pub max_inline_wait_ms : ℕ
  pub jitter_ms : ℕ
  pub base_rate_limit_backoff_ms : ℕ
  pub max_rate_limit_backoff_ms : ℕ
  pub rate_limit_strike_reset_ms : ℕ
  pub state_retention_ms : ℕ

abbrev pub default_prompt_dispatch_policy : PromptDispatchPolicy
default_prompt_dispatch_policy = record {
  global_min_interval_ms = 4000;
  global_window_ms = 60000;
  max_global_in_window = 8;
  project_min_interval_ms = 6000;
  slot_min_interval_ms = 12000;
  max_concurrent_generations = 2;
  generation_retry_ms = 5000;
  max_inline_wait_ms = 10000;
  jitter_ms = 750;
  base_rate_limit_backoff_ms = 300000;
  max_rate_limit_backoff_ms = 3600000;
  rate_limit_strike_reset_ms = 21600000;
  state_retention_ms = 86400000;
}

pub record PromptDispatchGovernorState : Type 0 where
  pub recent_dispatches : List ℕ
  pub project_last_dispatch : List (Text × ℕ)
  pub slot_last_dispatch : List (Text × ℕ)
  pub backoff_until : ℕ
  pub rate_limit_strikes : ℕ
  pub last_rate_limit_at : Option ℕ

pub record PromptDispatchScope : Type 0 where
  pub project : Option Text
  pub slot_id : Option Text
  pub reservation_key : Option Text
  pub active_generations : ℕ

pub data PromptDispatchPermit : Type 0 where
  allowed :
      (reserved_at waited_ms : ℕ) (generation_reservation_id : Option ℕ) → PromptDispatchPermit
  deferred : (reason : PromptDispatchDeferReason) (retry_after_ms : Option ℕ) → PromptDispatchPermit

-- `sort((a, b) => a - b)`.
unfoldable pub insert : ℕ → List ℕ → List ℕ
insert n [] = n ∷ []
insert n (m ∷ ms) = if leb n m then n ∷ m ∷ ms else m ∷ insert n ms

unfoldable pub sort : List ℕ → List ℕ
unfolding insert
sort [] = []
sort (n ∷ ns) = insert n (sort ns)

-- The name under which an assignment of a number is lost.
abbrev pub is_proto : Text → Bool
is_proto key = same key (codes "__proto__")

-- The members that every object inherits, of those that are in lower case.
abbrev pub is_inherited : Text → Bool
is_inherited key = is_proto key || same key (codes "constructor")

unfoldable pub keep_since : ℕ → List (Text × ℕ) → List (Text × ℕ)
keep_since cutoff entries = filter (λ e. leb cutoff e.1 && not (is_proto e.0)) entries

-- `normalizePromptDispatchState` on a state.
unfoldable pub normalize :
    PromptDispatchGovernorState → ℕ → PromptDispatchPolicy → PromptDispatchGovernorState
normalize s now policy =
    let cutoff = now - policy.state_retention_ms in
    record s {
      recent_dispatches =
          sort
            (filter (λ t. leb (max cutoff (now - policy.global_window_ms)) t) s.recent_dispatches);
      project_last_dispatch = keep_since cutoff s.project_last_dispatch;
      slot_last_dispatch = keep_since cutoff s.slot_last_dispatch;
    }

-- The reason and the time until which to wait, if that is a number.
abbrev pub Wait : Type 0
Wait = PromptDispatchDeferReason × Option ℕ

-- `left + right` and `left < right`, which is false of what is no number.
abbrev pub plus : Option ℕ → ℕ → Option ℕ
plus none n = none
plus (some m) n = some (m + n)

abbrev pub less : Option ℕ → Option ℕ → Bool
less (some m) (some n) = ltb m n
less _ _ = false

-- The reduction to the wait that ends last; of equal ones, the first.
unfoldable pub limiting : Option Wait → List Wait → Option Wait
limiting current [] = current
limiting none (w ∷ ws) = limiting (some w) ws
limiting (some c) (w ∷ ws) = limiting (if less c.1 w.1 then some w else some c) ws

-- `if (last !== undefined) waits.push(constraint(reason, last + interval))`.
abbrev pub wait_after : PromptDispatchDeferReason → Option (Option ℕ) → ℕ → List Wait
wait_after reason none interval = []
wait_after reason (some last) interval = (reason, plus last interval) ∷ []

abbrev pub number_of : Option ℕ → Option (Option ℕ)
number_of none = none
number_of (some n) = some (some n)

-- The governor's own state: `stateCache`, once it was read, and the reservations by their number.
pub record Governor : Type 0 where
  pub state : PromptDispatchGovernorState
  pub generation_reservations : List (ℕ × Text)
  pub reservation_sequence : ℕ

-- `key ? map[key] : undefined`.
abbrev pub found_or_inherited : Text → Option ℕ → Option (Option ℕ)
found_or_inherited key (some t) = some (some t)
found_or_inherited key none = if is_inherited key then some none else none

abbrev pub last_for : Option Text → List (Text × ℕ) → Option (Option ℕ)
last_for none entries = none
last_for (some key) entries = found_or_inherited key (get entries key)

abbrev pub permit_until : PromptDispatchDeferReason → (now : ℕ) → Option ℕ → PromptDispatchPermit
permit_until reason now none = deferred reason none
permit_until reason now (some until) =
    if leb until now then allowed now 0 none else deferred reason (some (max 1 (until - now)))

abbrev pub permit_at : ℕ → Option Wait → PromptDispatchPermit
permit_at now none = allowed now 0 none
permit_at now (some w) = permit_until w.0 now w.1

abbrev pub put_last : Option Text → List (Text × ℕ) → ℕ → List (Text × ℕ)
put_last none entries now = entries
put_last (some key) entries now = if is_proto key then entries else put entries key now

-- `scope.reservationKey ? … : undefined`: an empty key is none.
abbrev pub reserve : Governor → Option Text → Governor × Option ℕ
reserve g none = (g, none)
reserve g (some key) =
    if truthy key
    then (
      record g {
        generation_reservations = put g.generation_reservations (suc g.reservation_sequence) key;
        reservation_sequence = suc g.reservation_sequence;
      },
      some (suc g.reservation_sequence),
    )
    else (g, none)

abbrev pub is_allowed : PromptDispatchPermit → Bool
is_allowed (allowed r w i) = true
is_allowed (deferred r w) = false

abbrev pub strikes_at : PromptDispatchPolicy → PromptDispatchGovernorState → ℕ → ℕ
strikes_at policy s now = elim s.last_rate_limit_at [
  | none ↦ 1
  | some last ↦
      if leb (now - last) policy.rate_limit_strike_reset_ms then s.rate_limit_strikes + 1 else 1
]

module _ (to_lower : Text → Text) where
  unfoldable pub normalize_key : Option Text → Option Text
  normalize_key none = none
  normalize_key (some t) = let key = to_lower (trim t) in if truthy key then some key else none

  -- The times until which a dispatch at `now` has to wait, with their reasons.
  unfoldable pub waits :
      PromptDispatchGovernorState → PromptDispatchScope → ℕ → PromptDispatchPolicy → List Wait
  waits s scope now policy =
      (if ltb now s.backoff_until then (rate_limit_backoff, some s.backoff_until) ∷ [] else [])
      ++ (wait_after global_gap (number_of (get_last? s.recent_dispatches))
            policy.global_min_interval_ms
          ++ ((if leb policy.max_global_in_window (length s.recent_dispatches)
                then (
                  global_window,
                  plus
                      (get_elem? s.recent_dispatches
                        (length s.recent_dispatches - policy.max_global_in_window))
                      policy.global_window_ms,
                )
                  ∷ []
                else [])
              ++ (wait_after project_gap
                    (last_for (normalize_key scope.project) s.project_last_dispatch)
                    policy.project_min_interval_ms
                  ++ wait_after slot_gap
                      (last_for (normalize_key scope.slot_id) s.slot_last_dispatch)
                      policy.slot_min_interval_ms)))

  unfoldable pub plan_prompt_dispatch :
      PromptDispatchGovernorState
      → PromptDispatchScope
      → ℕ
      → PromptDispatchPolicy
      → PromptDispatchPermit
  plan_prompt_dispatch value scope now policy =
      if leb policy.max_concurrent_generations scope.active_generations
      then deferred generation_capacity (some policy.generation_retry_ms)
      else permit_at now (limiting none (waits (normalize value now policy) scope now policy))

  unfoldable pub reserve_dispatch :
      PromptDispatchGovernorState
      → PromptDispatchScope
      → ℕ
      → PromptDispatchPolicy
      → PromptDispatchGovernorState
  reserve_dispatch value scope now policy =
      let s = normalize value now policy in
      record s {
        recent_dispatches = s.recent_dispatches ++ (now ∷ []);
        project_last_dispatch = put_last (normalize_key scope.project) s.project_last_dispatch now;
        slot_last_dispatch = put_last (normalize_key scope.slot_id) s.slot_last_dispatch now;
      }

  -- `tryAcquireSerialized`, with its two readings of the clock; `written` says whether the store takes
  -- the write, and `none` is the error where it does not.
  unfoldable pub try_acquire :
      PromptDispatchPolicy
      → Governor
      → PromptDispatchScope
      → (started_at now reserved_at : ℕ) → (written : Bool) → Option PromptDispatchPermit × Governor
  try_acquire policy g scope started_at now reserved_at written =
      let state = normalize g.state now policy in
      let read = record g { state = state } in
      let plan =
        plan_prompt_dispatch state
          (record scope {
            active_generations = scope.active_generations + length g.generation_reservations;
          })
          now policy in
      if not (is_allowed plan)
      then (some plan, read)
      else if not written
      then (none, read)
      else let (reserved, id) =
          reserve (record read { state = reserve_dispatch state scope reserved_at policy })
            scope.reservation_key in
        (some (allowed reserved_at (reserved_at - started_at) id), reserved)

-- `noteRateLimitSerialized`.
unfoldable pub note_rate_limit :
    PromptDispatchPolicy → Governor → (now : ℕ) → (written : Bool) → Option ℕ × Governor
note_rate_limit policy g now written =
    let current = normalize g.state now policy in
    let s = normalize current now policy in
    let strikes = strikes_at policy s now in
    let backoff_ms =
      min policy.max_rate_limit_backoff_ms
        (policy.base_rate_limit_backoff_ms * 2 ^ min (strikes - 1) 20) in
    let until = max s.backoff_until (now + backoff_ms) in
    if not written then (none, record g { state = current }) else (
      some until,
      record g {
        state = record s {
          rate_limit_strikes = strikes;
          last_rate_limit_at = some now;
          backoff_until = until;
        };
      },
    )

unfoldable pub release_generation_reservation : Governor → ℕ → Governor
release_generation_reservation g id = record g {
  generation_reservations = delete g.generation_reservations id;
}

unfoldable pub release_generation_reservations_for_key : Governor → Text → Governor
release_generation_reservations_for_key g key = record g {
  generation_reservations = filter (λ e. not (same e.1 key)) g.generation_reservations;
}
