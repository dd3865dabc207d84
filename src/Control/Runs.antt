-- ===== src/Control/Runs.antt =====
-- The runs of the authorities of control/src that call git: `spawnSync` with the tests that they make of
-- its arguments.
pub mod Holds
use charterion.Prelude.{
  ℕ, Text, Option, none, some, List, [], ◌∷◌, Bool, false, ◌&&◌, ◌||◌, if◌then◌else◌, leb, ◌==◌,
  trim, truthy, all, length, Result, ok, err,
}

-- A command: the root of the project and the arguments; the last one that ran is the first of a log.
abbrev pub Command : Type 0
Command = Text × List Text

abbrev pub Git : Type 0
Git = List Command → Command → Option Text

-- A run that may throw, with the log of the commands.
abbrev pub RunOf : Type 0 → Type 0 → Type 0
RunOf E A = List Command → Result E A × List Command

abbrev pub done : {E A : Type 0} → Result E A → RunOf E A
done r log = (r, log)

abbrev pub continue :
    {E A B : Type 0} → Result E A × List Command → (A → RunOf E B) → Result E B × List Command
continue (err e, log) next = (err e, log)
continue (ok a, log) next = next a log

infixl 5 ◌>>>=◌
unfoldable pub ◌>>>=◌ : {E A B : Type 0} → RunOf E A → (A → RunOf E B) → RunOf E B
(first >>>= next) log = continue (first log) next

-- `if (condition) throw error`, and what follows it.
unfoldable pub guard : {E A : Type 0} → Bool → E → RunOf E A → RunOf E A
guard condition e next log = if condition then (err e, log) else next log

-- `if (condition) … else …`.
unfoldable pub choose : {E A : Type 0} → Bool → RunOf E A → RunOf E A → RunOf E A
choose condition first second = if condition then first else second

-- `required`, with the error of a blank text.
abbrev pub required : {E : Type 0} → E → Text → Result E Text
required e value = if truthy (trim value) then ok (trim value) else err e

abbrev pub or_throw : {E A : Type 0} → E → Option A → Result E A
or_throw e none = err e
or_throw e (some a) = ok a

abbrev is_hex : ℕ → Bool
is_hex c = (leb 48 c && leb c 57) || (leb 97 c && leb c 102) || (leb 65 c && leb c 70)

-- The pattern of a full Git object id.
unfoldable pub is_git_sha : Text → Bool
is_git_sha t = all (λ c. is_hex c) t && (length t == 40 || length t == 64)

abbrev is_alphanumeric : ℕ → Bool
is_alphanumeric c = (leb 48 c && leb c 57) || (leb 97 c && leb c 122) || (leb 65 c && leb c 90)

abbrev is_ref_char : ℕ → Bool
is_ref_char c = is_alphanumeric c || c == 46 || c == 95 || c == 47 || c == 45

-- The pattern of the name of a branch.
abbrev pub branch_ok : Text → Bool
branch_ok [] = false
branch_ok (c ∷ rest) = is_alphanumeric c && all (λ d. is_ref_char d) rest && leb (length rest) 199

abbrev pub answered :
    {E : Type 0} → E → List Command → Command → Option Text → Result E Text × List Command
answered e log command none = (err e, command ∷ log)
answered e log command (some out) = (ok (trim out), command ∷ log)

-- A command under a root that was looked up, with the error of a command that fails.
abbrev pub run_in :
    {E : Type 0} → E → Git → List Text → List Command → Result E Text → Result E Text × List Command
run_in failed git args log (err e) = (err e, log)
run_in failed git args log (ok root) = answered failed log (root, args) (git log (root, args))

-- A command whose status is tested and not thrown: `none` where it is not zero.
abbrev pub try_in :
    {E : Type 0}
    → Git
    → List Text
    → List Command
    → Result E Text
    → Result E (Option Text) × List Command
try_in git args log (err e) = (err e, log)
try_in git args log (ok root) = (ok (git log (root, args)), (root, args) ∷ log)

-- `if (condition) throw error` inside a transaction.
unfoldable pub refuse : {E A : Type 0} → Bool → E → Result E A → Result E A
refuse condition e result = if condition then err e else result
