-- ===== src/Supervisor/Allocation.antt =====
-- src/supervisor.ts: no tab is given to two tasks.
use charterion.Prelude.{
  ℕ, zero, suc, ◌+◌, ◌≤◌, ◌≡◌, ◌⊎◌, refl, sym, subst, ap, ◌∙◌, Option, none, some, List, [], ◌∷◌,
  true, false, if◌then◌else◌, arith, ◌==◌, ==_iff, includes, nat_eq, get, put, get-put_cases,
  Bool-cases, Option-cases, inl, inr, Distinct, some-eq, none-ne-some,
}
use charterion.Supervisor.{
  DispatchDecision, TaskCandidate, TaskCandidates, select, allocate, collect, better_candidate,
  decided, claim,
}

-- The tabs that the decisions give away.
abbrev pub given : Option ℕ → List ℕ → List ℕ
given none rest = rest
given (some t) rest = t ∷ rest

unfoldable pub assigned : List DispatchDecision → List ℕ
assigned [] = []
assigned (d ∷ ds) = given d.tab_id (assigned ds)

-- The selected candidate's tab is free.
select_free :
    (claimed : List ℕ) (flexibility : List (ℕ × ℕ)) (cs : List TaskCandidate)
    (selected : Option TaskCandidate) (c : TaskCandidate)
    → ((d : TaskCandidate) → selected ≡ some d → includes claimed d.tab.tab_id ≡ false)
    → select claimed flexibility cs selected ≡ some c
    → includes claimed c.tab.tab_id ≡ false
unfolding select
select_free claimed flexibility [] selected c free e = free c e
select_free claimed flexibility (d ∷ cs) selected c free e =
    select_free claimed flexibility cs _ c next e
  where
    next :
        (b : TaskCandidate)
        → (if includes claimed d.tab.tab_id
            then selected
            else if better_candidate d selected flexibility
            then some d
            else selected)
          ≡ some b
        → includes claimed b.tab.tab_id ≡ false
    next b h = elim (Bool-cases (includes claimed d.tab.tab_id)) [
      | inl taken ↦ free b (ground arith)
      | inr open_tab ↦ elim (Bool-cases (better_candidate d selected flexibility)) [
        | inl better ↦
            let is_b : d ≡ b = some-eq (ground arith) in
            subst (λ x. includes claimed x.tab.tab_id ≡ false) is_b open_tab
        | inr worse ↦ free b (ground arith)
      ]
    ]

-- The decisions so far: the tabs given are claimed, and each only once.
pub record Fair (claimed : List ℕ) (decisions : List (ℕ × DispatchDecision)) : Type 0 where
  pub claims :
      (i : ℕ) (d : DispatchDecision) (t : ℕ)
      → get decisions i ≡ some d
      → d.tab_id ≡ some t
      → includes claimed t ≡ true
  pub once :
      (i j : ℕ) (d e : DispatchDecision) (t : ℕ)
      → get decisions i ≡ some d
      → get decisions j ≡ some e
      → d.tab_id ≡ some t
      → e.tab_id ≡ some t
      → i ≡ j

-- An entry with a tab is an old one, or the one that was put.
entry-cases :
    (item : TaskCandidates) (o : Option TaskCandidate) (decisions : List (ℕ × DispatchDecision))
    (i : ℕ) (d : DispatchDecision) (t : ℕ)
    → get (put decisions item.index (decided item o)) i ≡ some d
    → d.tab_id ≡ some t
    → ((item.index ≡ i) × ((c : TaskCandidate) × (o ≡ some c) × (c.tab.tab_id ≡ t)))
      ⊎ (get decisions i ≡ some d)
entry-cases item none decisions i d t h k =
    elim (get-put_cases decisions item.index i (decided item none) d h) [
      | inl (new, _) ↦ absurd (none-ne-some (ap (λ x. x.tab_id) new ∙ k))
      | inr old ↦ inr old
    ]
entry-cases item (some c) decisions i d t h k =
    elim (get-put_cases decisions item.index i (decided item (some c)) d h) [
      | inl (new, here) ↦ inl (here, (c, refl, some-eq (ap (λ x. x.tab_id) new ∙ k)))
      | inr old ↦ inr old
    ]

claim-includes :
    (o : Option TaskCandidate) (claimed : List ℕ) (t : ℕ)
    → includes claimed t ≡ true
    → includes (claim o claimed) t ≡ true
unfolding includes
claim-includes none claimed t h = h
claim-includes (some c) claimed t h = ground arith

claim_new :
    (c : TaskCandidate) (claimed : List ℕ) (t : ℕ)
    → c.tab.tab_id ≡ t
    → includes (claim (some c) claimed) t ≡ true
unfolding includes
claim_new c claimed t h = ground arith

allocate_step :
    (item : TaskCandidates) (o : Option TaskCandidate) (claimed : List ℕ)
    (decisions : List (ℕ × DispatchDecision))
    → ((c : TaskCandidate) → o ≡ some c → includes claimed c.tab.tab_id ≡ false)
    → Fair claimed decisions
    → Fair (claim o claimed) (put decisions item.index (decided item o))
allocate_step item o claimed decisions free f = record {
  claims = λ i d t h k. elim (entry-cases item o decisions i d t h k) [
    | inl (_, (c, e, is_t)) ↦
        subst (λ x. includes (claim x claimed) t ≡ true) (sym e) (claim_new c claimed t is_t)
    | inr old ↦ claim-includes o claimed t (f.claims i d t old k)
  ];
  once = λ i j d d' t h h' k k'. elim (entry-cases item o decisions i d t h k) [
    | inl (here, (c, e, is_t)) ↦ elim (entry-cases item o decisions j d' t h' k') [
      | inl (there, _) ↦ sym here ∙ there
      | inr old ↦ absurd (clash c t (free c e) is_t (f.claims j d' t old k'))
    ]
    | inr old ↦ elim (entry-cases item o decisions j d' t h' k') [
      | inl (there, (c, e, is_t)) ↦ absurd (clash c t (free c e) is_t (f.claims i d t old k))
      | inr old' ↦ f.once i j d d' t old old' k k'
    ]
  ];
}
  where
    clash :
        (c : TaskCandidate) (t : ℕ)
        → includes claimed c.tab.tab_id ≡ false
        → c.tab.tab_id ≡ t
        → includes claimed t ≡ true
        → ⊥
    clash c t open_tab is_t taken = absurd (ground arith)

pub allocate-Fair :
    (flexibility : List (ℕ × ℕ)) (items : List TaskCandidates) (claimed : List ℕ)
    (decisions : List (ℕ × DispatchDecision))
    → Fair claimed decisions
    → (after : List ℕ) × Fair after (allocate flexibility items claimed decisions)
unfolding allocate
allocate-Fair flexibility [] claimed decisions f = (claimed, f)
allocate-Fair flexibility (item ∷ items) claimed decisions f = allocate-Fair flexibility items _ _ (
    allocate_step item (select claimed flexibility item.candidates none) claimed decisions
      (λ c e.
        select_free claimed flexibility item.candidates none c (λ d h. absurd (none-ne-some h)) e)
      f)

-- A tab that the decisions from an index on give away is given at one of their indices.
assigned_at :
    (decisions : List (ℕ × DispatchDecision)) (index count t : ℕ)
    → includes (assigned (collect index count decisions)) t ≡ true
    → (j : ℕ) × (d : DispatchDecision) × (index ≤ j)
      × (get decisions j ≡ some d)
      × (d.tab_id ≡ some t)
unfolding collect assigned includes
assigned_at decisions index zero t h = cc
assigned_at decisions index (suc count) t h =
    here (get decisions index) refl (assigned_at decisions (index + 1) count t)
  where
    Found : ℕ → Type 0
    Found from =
        (j : ℕ) × (d : DispatchDecision) × (from ≤ j)
        × (get decisions j ≡ some d)
        × (d.tab_id ≡ some t)

    later : Found (index + 1) → Found index
    later (j, d, le, e, k) = (j, d, omega arith, e, k)

    here :
        (o : Option DispatchDecision)
        → get decisions index ≡ o
        → (includes (assigned (collect (index + 1) count decisions)) t ≡ true → Found (index + 1))
        → Found index
    here none e ih = later (ih (ground arith))
    here (some d) e ih = elim (Option-cases d.tab_id) [
      | inl no_tab ↦ later (ih (ground arith))
      | inr (u, tab) ↦ elim (Bool-cases (u == t)) [
        | inl is_t ↦ (index, d, omega arith, e, tab ∙ ap some ((==_iff u t).0 is_t))
        | inr other ↦ later (ih (ground arith))
      ]
    ]

pub collect-none :
    (decisions : List (ℕ × DispatchDecision)) (index count : ℕ)
    → get decisions index ≡ none
    → collect index (suc count) decisions ≡ collect (index + 1) count decisions
unfolding collect
collect-none decisions index count e = ground arith

pub collect-some :
    (decisions : List (ℕ × DispatchDecision)) (index count : ℕ) (d : DispatchDecision)
    → get decisions index ≡ some d
    → collect index (suc count) decisions ≡ d ∷ collect (index + 1) count decisions
unfolding collect
collect-some decisions index count d e = ground arith

pub collect-Distinct :
    (claimed : List ℕ) (decisions : List (ℕ × DispatchDecision)) (index count : ℕ)
    → Fair claimed decisions
    → Distinct (assigned (collect index count decisions))
unfolding collect assigned
collect-Distinct claimed decisions index zero f = tt
collect-Distinct claimed decisions index (suc count) f =
    here (get decisions index) refl (collect-Distinct claimed decisions (index + 1) count f)
  where
    here :
        (o : Option DispatchDecision)
        → get decisions index ≡ o
        → Distinct (assigned (collect (index + 1) count decisions))
        → Distinct (assigned (collect index (suc count) decisions))
    here none e rest =
        subst (λ ds. Distinct (assigned ds)) (sym (collect-none decisions index count e)) rest
    here (some d) e rest =
        subst (λ ds. Distinct (assigned ds)) (sym (collect-some decisions index count d e))
          (add d.tab_id refl)
      where
        add :
            (o : Option ℕ)
            → d.tab_id ≡ o
            → Distinct (given o (assigned (collect (index + 1) count decisions)))
        add none k = rest
        add (some t) k =
            (fresh (Bool-cases (includes (assigned (collect (index + 1) count decisions)) t)), rest)
          where
            fresh :
                (includes (assigned (collect (index + 1) count decisions)) t ≡ true)
                  ⊎ (includes (assigned (collect (index + 1) count decisions)) t ≡ false)
                → includes (assigned (collect (index + 1) count decisions)) t ≡ false
            fresh (inr h) = h
            fresh (inl h) =
                let (j, d', le, e', k') = assigned_at decisions (index + 1) count t h in
                let is_j = f.once index j d d' t e e' k k' in absurd (omega arith)
