-- ===== src/Control/Runs/Holds.antt =====
-- Reasoning on the runs of the authorities of control/src: what holds of every command that a run issues,
-- and of what it returns.
use charterion.Prelude.{
  ◌≡◌, refl, Text, Option, none, some, List, Bool, true, false, Result, ok, err, err-ne-ok, All,
}
use charterion.Control.Runs.{
  Command, Git, RunOf, done, continue, ◌>>>=◌, guard, choose, run_in, try_in, answered,
}

module _ (IsFine : Command → Type 0) where
  -- From a log of fine commands a run makes another, and a result with the property.
  abbrev pub Holds : {E A : Type 0} → (A → Type 0) → RunOf E A → Type 0
  Holds {E} {A} Post run =
      (log : List Command)
      → All IsFine log
      → All IsFine (run log).1 × ((a : A) → (run log).0 ≡ ok a → Post a)

  pub Holds-done :
      {E A : Type 0} (Post : A → Type 0) (r : Result E A)
      → ((a : A) → r ≡ ok a → Post a)
      → Holds Post (done r)
  Holds-done Post r h log fine = (fine, h)

  pub Holds-bind :
      {E A B : Type 0} (Mid : A → Type 0) (Post : B → Type 0) (first : RunOf E A)
      (next : A → RunOf E B)
      → Holds Mid first
      → ((a : A) → Mid a → Holds Post (next a))
      → Holds Post (first >>>= next)
  unfolding ◌>>>=◌
  Holds-bind {E} {A} {B} Mid Post first next h k log fine = go (first log) (h log fine)
    where
      go :
          (r : Result E A × List Command)
          → All IsFine r.1 × ((a : A) → r.0 ≡ ok a → Mid a)
          → All IsFine (continue r next).1 × ((b : B) → (continue r next).0 ≡ ok b → Post b)
      go (err e, log') p = (p.0, λ b thrown. absurd (err-ne-ok thrown))
      go (ok a, log') p = k a (p.1 a refl) log' p.0

  pub Holds-guard :
      {E A : Type 0} (Post : A → Type 0) (condition : Bool) (e : E) (next : RunOf E A)
      → (condition ≡ false → Holds Post next)
      → Holds Post (guard condition e next)
  unfolding guard
  Holds-guard Post true e next h log fine = (fine, λ a thrown. absurd (err-ne-ok thrown))
  Holds-guard Post false e next h log fine = h refl log fine

  pub Holds-choose :
      {E A : Type 0} (Post : A → Type 0) (condition : Bool) (yes_run no_run : RunOf E A)
      → (condition ≡ true → Holds Post yes_run)
      → (condition ≡ false → Holds Post no_run)
      → Holds Post (choose condition yes_run no_run)
  unfolding choose
  Holds-choose Post true yes_run no_run h k = h refl
  Holds-choose Post false yes_run no_run h k = k refl

  pub Holds-run_in :
      {E : Type 0} (failed : E) (git : Git) (args : List Text) (root : Result E Text)
      → ((r : Text) → IsFine (r, args))
      → Holds (λ out. Unit {0}) (λ log. run_in failed git args log root)
  Holds-run_in failed git args (err e) fine_args log fine = (fine, λ a h. tt)
  Holds-run_in {E} failed git args (ok root) fine_args log fine =
      after_answer (git log (root, args))
    where
      after_answer :
          (o : Option Text)
          → All IsFine (answered failed log (root, args) o).1
            × ((a : Text) → (answered failed log (root, args) o).0 ≡ ok a → Unit {0})
      after_answer none = ((fine_args root, fine), λ a h. tt)
      after_answer (some out) = ((fine_args root, fine), λ a h. tt)

  pub Holds-try_in :
      {E : Type 0} (git : Git) (args : List Text) (root : Result E Text)
      → ((r : Text) → IsFine (r, args))
      → Holds (λ out. Unit {0}) (λ log. try_in git args log root)
  Holds-try_in git args (err e) fine_args log fine = (fine, λ a h. tt)
  Holds-try_in git args (ok root) fine_args log fine = ((fine_args root, fine), λ a h. tt)
