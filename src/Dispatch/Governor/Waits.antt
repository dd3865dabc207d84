-- ===== src/Dispatch/Governor/Waits.antt =====
-- src/promptDispatchGovernor.ts: what the waits of `planPromptDispatch` ask for, said of the state itself.
use charterion.Prelude.{
  ℕ, ◌+◌, ◌-◌, ◌≤◌, ◌<◌, ◌≡◌, ◌⊎◌, refl, ◌∙◌, length-filter-le, All-append, sym, subst, max, Text,
  Option, none, some, List, [], ◌∷◌, ◌++◌, Bool, true, false, ◌&&◌, if◌then◌else◌, arith, leb, ltb,
  same, filter, length, get_elem?, get_last?, get, text_eq, All, All-map, Bool-cases, inl, inr,
  same_iff,
}
use charterion.Dispatch.Governor.{
  PromptDispatchPolicy, PromptDispatchGovernorState, PromptDispatchScope, PromptDispatchDeferReason,
  Wait, waits, normalize, normalize_key, sort, keep_since, is_proto, is_inherited, last_for,
  wait_after, number_of, plus, found_or_inherited, global_gap, global_window, project_gap, slot_gap,
  rate_limit_backoff,
}
use charterion.Dispatch.Governor.Sorted.{
  Sorted, sort-Sorted, sort-All_back, count, sort-count, Sorted-last, get_elem-within, Sorted-count,
}

-- What holds of the value, if there is one.
abbrev pub IfSome : {A : Type 0} → (A → Type 0) → Option A → Type 0
IfSome P none = Unit
IfSome P (some x) = P x

-- The wait is over at a time, as far as it is a number.
abbrev pub IsOver : ℕ → Wait → Type 0
IsOver at w = IfSome (λ until. until ≤ at) w.1

-- The time until which to wait is a number.
abbrev pub IsNumber : Wait → Type 0
IsNumber w = (until : ℕ) × (w.1 ≡ some until)

-- The key is no member of every object.
abbrev pub IsOwn : Option Text → Type 0
IsOwn = IfSome (λ key. is_inherited key ≡ false)

-- The dispatch is late enough to be remembered.
abbrev pub remembered : ℕ → PromptDispatchPolicy → ℕ → Bool
remembered now policy t =
    leb (max (now - policy.state_retention_ms) (now - policy.global_window_ms)) t

-- The last dispatch for the key is forgotten or the gap after it is over.
abbrev pub GapIsOver : Option Text → List (Text × ℕ) → (oldest gap at : ℕ) → Type 0
GapIsOver key entries oldest gap at =
    IfSome (λ k. IfSome (λ t. (t < oldest) ⊎ (t + gap ≤ at)) (get entries k)) key

module _ (to_lower : Text → Text) where
  -- A prompt may be sent at a time, by what is remembered now.
  pub record IsOpen (s : PromptDispatchGovernorState) (scope : PromptDispatchScope)
      (policy : PromptDispatchPolicy) (now at : ℕ) : Type 0 where
    pub no_backoff : s.backoff_until ≤ at
    pub after_last :
        All
          (λ t. (remembered now policy t ≡ false) ⊎ (t + policy.global_min_interval_ms ≤ at))
          s.recent_dispatches
    pub window_has_room :
        count
          (λ t. remembered now policy t && ltb at (t + policy.global_window_ms))
          s.recent_dispatches
        < policy.max_global_in_window
    pub project_over :
        GapIsOver
          (normalize_key to_lower scope.project)
          s.project_last_dispatch
          (now - policy.state_retention_ms)
          policy.project_min_interval_ms
          at
    pub slot_over :
        GapIsOver
          (normalize_key to_lower scope.slot_id)
          s.slot_last_dispatch
          (now - policy.state_retention_ms)
          policy.slot_min_interval_ms
          at

  All-append_back : (P : Wait → Type 0) (xs ys : List Wait) → All P (xs ++ ys) → All P xs × All P ys
  All-append_back P [] ys h = (tt, h)
  All-append_back P (x ∷ xs) ys h =
      let rest = All-append_back P xs ys h.1 in ((h.0, rest.0), rest.1)

  backoff_over :
      (now at until : ℕ)
      → now ≤ at
      → All (IsOver at) (if ltb now until then (rate_limit_backoff, some until) ∷ [] else [])
      → until ≤ at
  backoff_over now at until le h = elim (Bool-cases (ltb now until)) [
    | inl later ↦ (rw later at h).0
    | inr over ↦ ground arith
  ]

  filter-All_back :
      (P : ℕ → Type 0) (p : ℕ → Bool) (xs : List ℕ)
      → All P (filter p xs)
      → All (λ t. (p t ≡ false) ⊎ P t) xs
  unfolding filter
  filter-All_back P p [] h = tt
  filter-All_back P p (x ∷ xs) h = elim (Bool-cases (p x)) [
    | inl keep ↦ let k = rw keep at h in (inr k.0, filter-All_back P p xs k.1)
    | inr drop ↦ (inl drop, filter-All_back P p xs (rw drop at h))
  ]

  filter-count : (p q : ℕ → Bool) (xs : List ℕ) → count q (filter p xs) ≡ count (λ t. p t && q t) xs
  unfolding filter
  filter-count p q [] = refl
  filter-count p q (x ∷ xs) = ground (arith, filter-count p q xs)

  last_over :
      (at gap : ℕ) (xs : List ℕ)
      → Sorted xs
      → All (IsOver at) (wait_after global_gap (number_of (get_last? xs)) gap)
      → All (λ t. t + gap ≤ at) xs
  last_over at gap [] sorted h = tt
  last_over at gap (x ∷ xs) sorted h = go (get_last? (x ∷ xs)) refl h
    where
      go :
          (o : Option ℕ)
          → get_last? (x ∷ xs) ≡ o
          → All (IsOver at) (wait_after global_gap (number_of o) gap)
          → All (λ t. t + gap ≤ at) (x ∷ xs)
      go none e k = absurd (never xs x e)
        where
          never : (ys : List ℕ) (y : ℕ) → get_last? (y ∷ ys) ≡ none → ⊥
          never [] y f = cc
          never (z ∷ ys) y f = never ys z f
      go (some last) e k =
          All-map (x ∷ xs) (λ t (le : t ≤ last). let over = k.0 in omega arith)
            (Sorted-last (x ∷ xs) last sorted e)

  get-kept :
      (cutoff t : ℕ) (entries : List (Text × ℕ)) (key : Text)
      → is_proto key ≡ false
      → get entries key ≡ some t
      → leb cutoff t ≡ true
      → get (keep_since cutoff entries) key ≡ some t
  unfolding get keep_since filter
  get-kept cutoff t [] key own h le = h
  get-kept cutoff t ((k, u) ∷ entries) key own h le = elim (Bool-cases (same k key)) [
    | inl is_it ↦
        let same_key = (same_iff k key).0 is_it in
        let own_key = subst (λ i. is_proto i ≡ false) (sym same_key) own in ground arith
    | inr other ↦ let rest = get-kept cutoff t entries key own (rw other at h) le in ground arith
  ]

  gap_over :
      (reason : PromptDispatchDeferReason) (key : Option Text) (entries : List (Text × ℕ))
      (oldest gap at : ℕ)
      → IsOwn key
      → All (IsOver at) (wait_after reason (last_for key (keep_since oldest entries)) gap)
      → GapIsOver key entries oldest gap at
  gap_over reason none entries oldest gap at own h = tt
  gap_over reason (some key) entries oldest gap at own h = go (get entries key) refl
    where
      go : (o : Option ℕ) → get entries key ≡ o → IfSome (λ t. (t < oldest) ⊎ (t + gap ≤ at)) o
      go none e = tt
      go (some t) e = elim (Bool-cases (leb oldest t)) [
        | inr old ↦ inl (ground arith)
        | inl kept ↦
            inr
              (subst (λ o. All (IsOver at) (wait_after reason (found_or_inherited key o) gap))
                (get-kept oldest t entries key (ground arith) e kept) h).0
      ]

  window_over :
      (s : PromptDispatchGovernorState) (policy : PromptDispatchPolicy) (at : ℕ)
      → 0 < policy.max_global_in_window
      → Sorted s.recent_dispatches
      → All (IsOver at) (
          if leb policy.max_global_in_window (length s.recent_dispatches)
          then (
            global_window,
            plus
                (get_elem? s.recent_dispatches
                  (length s.recent_dispatches - policy.max_global_in_window))
                policy.global_window_ms,
          )
            ∷ []
          else [])
      → count (λ t. ltb at (t + policy.global_window_ms)) s.recent_dispatches
        < policy.max_global_in_window
  window_over s policy at pos sorted h =
      elim (Bool-cases (leb policy.max_global_in_window (length s.recent_dispatches))) [
        | inr few ↦
            let bound =
              length-filter-le (λ t. ltb at (t + policy.global_window_ms)) s.recent_dispatches in
            ground arith
        | inl many ↦
            let (t, there) =
              get_elem-within s.recent_dispatches
                (length s.recent_dispatches - policy.max_global_in_window) (ground arith) in
            let over : t + policy.global_window_ms ≤ at =
              subst (λ o. IfSome (λ until. until ≤ at) (plus o policy.global_window_ms)) there
                (rw many at h).0 in
            Sorted-count (λ u. ltb at (u + policy.global_window_ms)) policy.max_global_in_window
              s.recent_dispatches t
              (λ a b le (f : ltb at (b + policy.global_window_ms) ≡ false). ground arith) pos
              (ground arith) sorted there (ground arith)
      ]

  -- Where every wait is over at a time, a prompt may be sent then.
  pub waits-IsOpen :
      (s : PromptDispatchGovernorState) (scope : PromptDispatchScope)
      (policy : PromptDispatchPolicy) (now at : ℕ)
      → now ≤ at
      → 0 < policy.max_global_in_window
      → IsOwn (normalize_key to_lower scope.project)
      → IsOwn (normalize_key to_lower scope.slot_id)
      → All (IsOver at) (waits to_lower (normalize s now policy) scope now policy)
      → IsOpen s scope policy now at
  unfolding waits normalize
  waits-IsOpen s scope policy now at le pos own_project own_slot h =
      let kept = filter (remembered now policy) s.recent_dispatches in
      let (first, h1) = All-append_back (IsOver at) _ _ h in
      let (second, h2) = All-append_back (IsOver at) _ _ h1 in
      let (third, h3) = All-append_back (IsOver at) _ _ h2 in
      let (fourth, fifth) = All-append_back (IsOver at) _ _ h3 in
      let q = λ (t : ℕ). ltb at (t + policy.global_window_ms) in
      let few = window_over (normalize s now policy) policy at pos (sort-Sorted kept) third in
      let same_count =
        sort-count q kept ∙ filter-count (remembered now policy) q s.recent_dispatches in
      record {
        no_backoff = backoff_over now at s.backoff_until le first;
        after_last = filter-All_back _ (remembered now policy) s.recent_dispatches (
            sort-All_back _ kept
              (last_over at policy.global_min_interval_ms (sort kept) (sort-Sorted kept) second));
        window_has_room = subst (λ n. n < policy.max_global_in_window) same_count few;
        project_over =
            gap_over project_gap (normalize_key to_lower scope.project) s.project_last_dispatch
              (now - policy.state_retention_ms) policy.project_min_interval_ms at own_project
              fourth;
        slot_over =
            gap_over slot_gap (normalize_key to_lower scope.slot_id) s.slot_last_dispatch
              (now - policy.state_retention_ms) policy.slot_min_interval_ms at own_slot fifth;
      }

  after-IsNumber :
      (reason : PromptDispatchDeferReason) (key : Option Text) (entries : List (Text × ℕ)) (gap : ℕ)
      → IsOwn key
      → All IsNumber (wait_after reason (last_for key entries) gap)
  after-IsNumber reason none entries gap own = tt
  after-IsNumber reason (some key) entries gap own = go (get entries key)
    where
      go : (o : Option ℕ) → All IsNumber (wait_after reason (found_or_inherited key o) gap)
      go (some t) = ((t + gap, refl), tt)
      go none = rw own tt

  pub waits-IsNumber :
      (s : PromptDispatchGovernorState) (scope : PromptDispatchScope) (now : ℕ)
      (policy : PromptDispatchPolicy)
      → 0 < policy.max_global_in_window
      → IsOwn (normalize_key to_lower scope.project)
      → IsOwn (normalize_key to_lower scope.slot_id)
      → All IsNumber (waits to_lower s scope now policy)
  unfolding waits
  waits-IsNumber s scope now policy pos own_project own_slot =
      All-append IsNumber _ _ (backoff (ltb now s.backoff_until)) (
        All-append IsNumber _ _ (gap (get_last? s.recent_dispatches)) (
          All-append IsNumber _ _
            (window (leb policy.max_global_in_window (length s.recent_dispatches)) refl)
            (All-append IsNumber _ _
              (after-IsNumber project_gap _ s.project_last_dispatch policy.project_min_interval_ms
                own_project)
              (after-IsNumber slot_gap _ s.slot_last_dispatch policy.slot_min_interval_ms
                own_slot))))
    where
      backoff :
          (b : Bool)
          → All IsNumber (if b then (rate_limit_backoff, some s.backoff_until) ∷ [] else [])
      backoff true = ((s.backoff_until, refl), tt)
      backoff false = tt

      gap :
          (o : Option ℕ)
          → All IsNumber (wait_after global_gap (number_of o) policy.global_min_interval_ms)
      gap none = tt
      gap (some t) = ((t + policy.global_min_interval_ms, refl), tt)

      window :
          (b : Bool)
          → leb policy.max_global_in_window (length s.recent_dispatches) ≡ b
          → All IsNumber (
              if b
              then (
                global_window,
                plus
                    (get_elem? s.recent_dispatches
                      (length s.recent_dispatches - policy.max_global_in_window))
                    policy.global_window_ms,
              )
                ∷ []
              else [])
      window false e = tt
      window true e =
          let (t, there) =
            get_elem-within s.recent_dispatches
              (length s.recent_dispatches - policy.max_global_in_window) (ground arith) in
          ((t + policy.global_window_ms, rw there refl), tt)
