-- ===== src/TaskGraph/Validate/Total.antt =====
-- src/taskGraph.ts: the depth-first search always ends, and finds a cycle only where there is one.
use charterion.Prelude.{
  ℕ, zero, suc, ◌≤◌, ◌<◌, ◌≡◌, ◌≢◌, refl, sym, subst, ap, ◌∙◌, Text, List, [], ◌∷◌, true, false,
  not, ◌||◌, arith, same, same_iff, includes, includes-without, without, text_eq, length, filter,
  filter_ext, All-of_All, length-filter-le, Result, ok, err, ◌>>=◌, >>=-eq-ok, ok-injective,
  err-ne-ok, for_each, All, Bool-cases, inl, inr,
}
use charterion.TaskGraph.Validate.{
  TaskMap, GraphError, not_a_dag, out_of_fuel, Marks, enter, leave, visit, dependencies,
}
use charterion.TaskGraph.Validate.Search.{visit_old, visit_cycle, visit_new, AllIn}

-- The same ids are being visited.
abbrev pub SameVisiting : Marks → Marks → Type 0
SameVisiting m m' = (k : Text) → includes m'.visiting k ≡ includes m.visiting k

for_each-restores :
    (f : Text → Marks → Result GraphError Marks)
    → ((id : Text) (m m' : Marks) → f id m ≡ ok m' → SameVisiting m m')
    → (ids : List Text) (m m' : Marks) → for_each f ids m ≡ ok m'
    → SameVisiting m m'
unfolding for_each
for_each-restores f step [] m m' e k = ap (λ n. includes n.visiting k) (sym (ok-injective e))
for_each-restores f step (id ∷ ids) m m' e k =
    let (mid, first, rest) = >>=-eq-ok (f id m) (for_each f ids) e in
    for_each-restores f step ids mid m' rest k ∙ step id m mid first k

-- A visit that succeeds has left every id that it entered.
pub visit-restores :
    (by_id : TaskMap) (fuel : ℕ) (id : Text) (m m' : Marks)
    → visit by_id fuel id m ≡ ok m'
    → SameVisiting m m'
visit-restores by_id zero id m m' e = unfold visit in absurd (err-ne-ok e)
visit-restores by_id (suc fuel) id m m' e = elim (Bool-cases (includes m.visited id)) [
  | inl old ↦ λ k.
      ap (λ n. includes n.visiting k) (sym (ok-injective (sym (visit_old by_id fuel id m old) ∙ e)))
  | inr new ↦ elim (Bool-cases (includes m.visiting id)) [
    | inl on_path ↦ absurd (err-ne-ok (sym (visit_cycle by_id fuel id m new on_path) ∙ e))
    | inr off_path ↦ λ k.
        let (after, deps, last) =
          >>=-eq-ok (for_each (visit by_id fuel) (dependencies by_id id) (enter id m))
            (λ a. ok (leave id a)) (sym (visit_new by_id fuel id m new off_path) ∙ e) in
        let inside =
          for_each-restores (visit by_id fuel) (visit-restores by_id fuel) (dependencies by_id id)
            (enter id m) after deps k in
        ap (λ n. includes n.visiting k) (sym (ok-injective last))
        ∙ left k after.visiting inside off_path
  ]
]
  where
    left :
        (k : Text) (vs : List Text)
        → includes vs k ≡ includes (id ∷ m.visiting) k
        → includes m.visiting id ≡ false
        → includes (without vs id) k ≡ includes m.visiting k
    left k vs h off = unfold includes in ground (arith, includes-without vs id k, same_iff id k)

-- A rule for an error that no step of a loop throws.
pub for_each-avoids :
    (P : Marks → Type 0) (Q : Text → Type 0) (e : GraphError)
    (f : Text → Marks → Result GraphError Marks)
    → ((id : Text) (m : Marks) → Q id → P m → f id m ≢ err e)
    → ((id : Text) (m m' : Marks) → f id m ≡ ok m' → P m → P m')
    → (ids : List Text) (m : Marks) → All Q ids
    → P m
    → for_each f ids m ≢ err e
unfolding for_each
for_each-avoids P Q e f throws keeps [] m q p h = cc
for_each-avoids P Q e f throws keeps (id ∷ ids) m q p h =
    go (λ m'. for_each-avoids P Q e f throws keeps ids m' q.1) (f id m) refl h
  where
    go :
        ((m' : Marks) → P m' → for_each f ids m' ≢ err e)
        → (r : Result GraphError Marks) → f id m ≡ r
        → (r >>= for_each f ids) ≢ err e
    go rest (ok m') k h = rest m' (keeps id m m' k p) h
    go rest (err e') k h = throws id m q.0 p (k ∙ h)

-- A visit throws what its loop over the dependencies throws.
visit_throws :
    (by_id : TaskMap) (fuel : ℕ) (id : Text) (m : Marks) (e : GraphError)
    → includes m.visited id ≡ false
    → includes m.visiting id ≡ false
    → visit by_id (suc fuel) id m ≡ err e
    → for_each (visit by_id fuel) (dependencies by_id id) (enter id m) ≡ err e
visit_throws by_id fuel id m e new off h =
    go (for_each (visit by_id fuel) (dependencies by_id id) (enter id m)) refl
      (sym (visit_new by_id fuel id m new off) ∙ h)
  where
    go :
        (r : Result GraphError Marks)
        → for_each (visit by_id fuel) (dependencies by_id id) (enter id m) ≡ r
        → (r >>= λ a. ok (leave id a)) ≡ err e
        → for_each (visit by_id fuel) (dependencies by_id id) (enter id m) ≡ err e
    go (ok a) k h' = cc
    go (err e') k h' = k ∙ h'

-- How many of the tasks are not being visited.
pub unentered : List Text → List Text → ℕ
unentered ids visiting = length (filter (λ k. not (includes visiting k)) ids)

unentered-enter :
    (ids visiting : List Text) (id : Text)
    → includes ids id ≡ true
    → includes visiting id ≡ false
    → unentered ids (id ∷ visiting) < unentered ids visiting
unfolding unentered filter includes
unentered-enter [] vs id h k = cc
unentered-enter (i ∷ ids) vs id h k =
    ground (arith, unentered-enter ids vs id, unentered-enter-le ids, same_iff i id, same_iff id i)
  where
    unentered-enter-le :
        (js : List Text)
        → length (filter (λ j. not (same id j || includes vs j)) js)
          ≤ length (filter (λ j. not (includes vs j)) js)
    unentered-enter-le [] = omega arith
    unentered-enter-le (j ∷ js) = ground (arith, unentered-enter-le js)

pub unentered-same :
    (ids : List Text) (n n' : Marks)
    → SameVisiting n n'
    → unentered ids n.visiting ≡ unentered ids n'.visiting
unfolding unentered
unentered-same ids n n' same_marks =
    ap length (filter_ext _ _ ids (All-of_All ids (λ k. ap not (sym (same_marks k)))))

pub unentered-le : (ids visiting : List Text) → unentered ids visiting ≤ length ids
unfolding unentered
unentered-le ids visiting = length-filter-le _ ids

-- Every dependency of a task is a task.
abbrev pub IsClosed : List Text → TaskMap → Type 0
IsClosed ids by_id = (k : Text) → includes ids k ≡ true → AllIn ids (dependencies by_id k)

module _ (ids : List Text) (by_id : TaskMap) (closed : IsClosed ids by_id) where
  -- With more fuel than tasks not entered, a visit does not run out of it.
  pub visit-ne-out_of_fuel :
      (fuel : ℕ) (id : Text) (m : Marks)
      → includes ids id ≡ true
      → unentered ids m.visiting < fuel
      → visit by_id fuel id m ≢ err out_of_fuel
  visit-ne-out_of_fuel zero id m known enough h = absurd (omega arith)
  visit-ne-out_of_fuel (suc fuel) id m known enough h = elim (Bool-cases (includes m.visited id)) [
    | inl old ↦ absurd (err-ne-ok (sym h ∙ visit_old by_id fuel id m old))
    | inr new ↦ elim (Bool-cases (includes m.visiting id)) [
      | inl on_path ↦ cc (sym h ∙ visit_cycle by_id fuel id m new on_path)
      | inr off_path ↦
          for_each-avoids (λ n. unentered ids n.visiting < fuel) (λ d. includes ids d ≡ true)
            out_of_fuel (visit by_id fuel) (visit-ne-out_of_fuel fuel)
            (λ d n n' e below.
              subst (λ u. u < fuel) (unentered-same ids n n' (visit-restores by_id fuel d n n' e))
                below)
            (dependencies by_id id) (enter id m) (closed id known)
            (omega (arith, unentered-enter ids m.visiting id known off_path))
            (visit_throws by_id fuel id m out_of_fuel new off_path h)
    ]
  ]

-- Where a number falls along the dependencies, the search meets no id that it is visiting.
module _ (by_id : TaskMap) (r : Text → ℕ)
    (falls : (k : Text) → All (λ d. r d < r k) (dependencies by_id k)) where
  pub visit-ne-not_a_dag :
      (fuel : ℕ) (id : Text) (m : Marks)
      → ((k : Text) → includes m.visiting k ≡ true → r id < r k)
      → visit by_id fuel id m ≢ err not_a_dag
  visit-ne-not_a_dag zero id m above h = unfold visit in cc
  visit-ne-not_a_dag (suc fuel) id m above h = elim (Bool-cases (includes m.visited id)) [
    | inl old ↦ absurd (err-ne-ok (sym h ∙ visit_old by_id fuel id m old))
    | inr new ↦ elim (Bool-cases (includes m.visiting id)) [
      | inl on_path ↦ absurd (omega (arith, above id on_path))
      | inr off_path ↦
          for_each-avoids (λ n. (k : Text) → includes n.visiting k ≡ true → r id ≤ r k)
            (λ d. r d < r id) not_a_dag (visit by_id fuel)
            (λ d n lower up. visit-ne-not_a_dag fuel d n (λ k e. omega (arith, up k e, lower)))
            (λ d n n' e up k k_in. up k (sym (visit-restores by_id fuel d n n' e k) ∙ k_in))
            (dependencies by_id id) (enter id m) (falls id) entered
            (visit_throws by_id fuel id m not_a_dag new off_path h)
    ]
  ]
    where
      entered : (k : Text) → includes (id ∷ m.visiting) k ≡ true → r id ≤ r k
      entered k e =
          unfold includes in
          elim (Bool-cases (same id k)) [
            | inl here ↦
                let same_id = (same_iff id k).0 here in
                subst (λ j. r id ≤ r j) same_id (omega arith)
            | inr there ↦ omega (arith, above k (ground arith))
          ]
