-- ===== src/TaskGraph/Validate/Search.antt =====
-- src/taskGraph.ts: a search that succeeds orders what it visited, each id behind its dependencies.
use charterion.Prelude.{
  ℕ, zero, suc, ◌≡◌, sym, ◌∙◌, subst, ok-injective, err-ne-ok, Text, List, [], ◌∷◌, true, false,
  arith, same_refl, includes, text_eq, Result, ok, err, ◌>>=◌, >>=-eq-ok, for_each, All, Bool-cases,
  inl, inr,
}
use charterion.TaskGraph.Validate.{
  TaskMap, GraphError, Marks, enter, leave, visit, dependencies, not_a_dag,
}

-- Every item of the second list is in the first.
abbrev pub AllIn : List Text → List Text → Type 0
AllIn xs = All (λ d. includes xs d ≡ true)

-- The dependencies of each id stand further down the list, that is, were finished before it.
abbrev pub Topological : TaskMap → List Text → Type 0
Topological by_id [] = Unit {0}
Topological by_id (id ∷ ids) = AllIn ids (dependencies by_id id) × Topological by_id ids

-- What a successful visit does to the marks.
pub record Visited (by_id : TaskMap) (m m' : Marks) : Type 0 where
  pub ordered : Topological by_id m'.visited
  pub grows : (k : Text) → includes m.visited k ≡ true → includes m'.visited k ≡ true

pub for_each-Visited :
    (by_id : TaskMap) (f : Text → Marks → Result GraphError Marks)
    → ((id : Text) (m m' : Marks)
        → Topological by_id m.visited
        → f id m ≡ ok m'
        → Visited by_id m m' × (includes m'.visited id ≡ true))
    → (ids : List Text) (m m' : Marks) → Topological by_id m.visited
    → for_each f ids m ≡ ok m'
    → Visited by_id m m' × AllIn m'.visited ids
unfolding for_each
for_each-Visited by_id f step [] m m' t e =
    subst (λ n. Visited by_id m n × Unit {0}) (ok-injective e)
      (record { ordered = t; grows = λ k h. h }, tt)
for_each-Visited by_id f step (id ∷ ids) m m' t e =
    let (mid, first, rest) = >>=-eq-ok (f id m) (for_each f ids) e in
    let (v, here) = step id m mid t first in
    let (w, there) = for_each-Visited by_id f step ids mid m' v.ordered rest in
    (
      record { ordered = w.ordered; grows = λ k h. w.grows k (v.grows k h) },
      (w.grows id here, there),
    )

-- The three branches of a visit.
module _ (by_id : TaskMap) (fuel : ℕ) (id : Text) (m : Marks) where
  pub visit_old : includes m.visited id ≡ true → visit by_id (suc fuel) id m ≡ ok m
  unfolding visit
  visit_old h = rw h

  pub visit_cycle :
      includes m.visited id ≡ false
      → includes m.visiting id ≡ true
      → visit by_id (suc fuel) id m ≡ err not_a_dag
  unfolding visit
  visit_cycle h k = rw (h, k)

  pub visit_new :
      includes m.visited id ≡ false
      → includes m.visiting id ≡ false
      → visit by_id (suc fuel) id m ≡ (
          for_each (visit by_id fuel) (dependencies by_id id) (enter id m) >>= λ a. ok (leave id a))
  unfolding visit
  visit_new h k = rw (h, k)

-- A visit that succeeds keeps the order, marks the id and forgets nothing.
pub visit-Visited :
    (by_id : TaskMap) (fuel : ℕ) (id : Text) (m m' : Marks)
    → Topological by_id m.visited
    → visit by_id fuel id m ≡ ok m'
    → Visited by_id m m' × (includes m'.visited id ≡ true)
unfolding includes
visit-Visited by_id zero id m m' t e = unfold visit in cc
visit-Visited by_id (suc fuel) id m m' t e = elim (Bool-cases (includes m.visited id)) [
  | inl old ↦
      let same_marks : m ≡ m' = ok-injective (sym (visit_old by_id fuel id m old) ∙ e) in
      subst (λ n. Visited by_id m n × (includes n.visited id ≡ true)) same_marks
        (record { ordered = t; grows = λ k h. h }, old)
  | inr new ↦ elim (Bool-cases (includes m.visiting id)) [
    | inl on_path ↦ absurd (err-ne-ok (sym (visit_cycle by_id fuel id m new on_path) ∙ e))
    | inr off_path ↦
        let (after, deps, last) =
          >>=-eq-ok (for_each (visit by_id fuel) (dependencies by_id id) (enter id m))
            (λ a. ok (leave id a)) (sym (visit_new by_id fuel id m new off_path) ∙ e) in
        let (v, found) =
          for_each-Visited by_id (visit by_id fuel) (visit-Visited by_id fuel)
            (dependencies by_id id) (enter id m) after t deps in
        subst (λ n. Visited by_id m n × (includes n.visited id ≡ true)) (ok-injective last)
          (
            record { ordered = (found, v.ordered); grows = λ k h. ground (arith, v.grows k h) },
            ground (arith, same_refl id),
          )
  ]
]
