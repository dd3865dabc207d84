-- ===== src/Control/Requests/Reachable.antt =====
-- control/src/requestAuthority.ts: the authority as a system. A step is one operation, run with any
-- input, or a change that others make to the projects.
use charterion.Prelude.{ℕ, ◌≡◌, refl, Text, List, Result, ok, err}
use charterion.Control.Rows.History.{GoesOn, GoesOn-self, GoesOn-trans}
use charterion.Control.Requests.{
  WorkerRequest, SubmitInput, DecideInput, ProjectRow, Store, RequestError, submit, decide, resolve,
}
use charterion.Control.Requests.Evolution.{IsSound, request_history}
use charterion.Control.Requests.Transactions.{Leaves, submit-Leaves, decide-Leaves, resolve-Leaves}

-- A transaction that throws changes nothing.
abbrev pub store_after : Store → Result RequestError (WorkerRequest × Store) → Store
store_after store (err e) = store
store_after store (ok r) = r.1

pub data Step (s : Store) : Store → Type 0 where
  submits :
      (input : SubmitInput) (id : Text) (now : ℕ) → Step s (store_after s (submit s input id now))
  decides : (input : DecideInput) (now : ℕ) → Step s (store_after s (decide s input now))
  resolves :
      (id supervisor_subject note : Text) (now : ℕ)
      → Step s (store_after s (resolve s id supervisor_subject note now))
  others : (projects : List ProjectRow) → Step s (record s { projects = projects })

pub data Reach (s : Store) : Store → Type 0 where
  start : Reach s s
  then_step : {t u : Store} → Reach s t → Step t u → Reach s u

abbrev Continues : Store → Store → Type 0
Continues s t = IsSound t.requests × GoesOn request_history s.requests t.requests

store_after-Continues :
    (s : Store) (result : Result RequestError (WorkerRequest × Store))
    → IsSound s.requests
    → ((r : WorkerRequest × Store) → result ≡ ok r → Leaves s r)
    → Continues s (store_after s result)
store_after-Continues s (err e) sound leaves = (sound, GoesOn-self request_history s.requests)
store_after-Continues s (ok r) sound leaves = leaves r refl

Step-Continues : {s t : Store} → Step s t → IsSound s.requests → Continues s t
Step-Continues {s} (submits input id now) h =
    store_after-Continues s _ h (λ r. submit-Leaves s input id now r h)
Step-Continues {s} (decides input now) h =
    store_after-Continues s _ h (λ r. decide-Leaves s input now r h)
Step-Continues {s} (resolves id supervisor_subject note now) h =
    store_after-Continues s _ h (λ r. resolve-Leaves s id supervisor_subject note now r h)
Step-Continues {s} (others projects) h = (h, GoesOn-self request_history s.requests)

-- Whatever the operations are called with, from requests with distinct ids for which it holds: the ids
-- stay distinct; an open request is not decided, an accepted or rejected one was decided by somebody
-- other than its sender, and a resolved one by somebody; and every request goes on with what was
-- submitted and in a status that may follow, a rejected or resolved one without any change.
pub Reach-IsSound :
    {s t : Store}
    → Reach s t
    → IsSound s.requests
    → IsSound t.requests × GoesOn request_history s.requests t.requests
Reach-IsSound {s} start h = (h, GoesOn-self request_history s.requests)
Reach-IsSound {s} (then_step {t} {u} r step) h =
    let (sound, goes_on) = Reach-IsSound r h in
    let (sound_after, next) = Step-Continues step sound in
    (sound_after, GoesOn-trans request_history s.requests t.requests u.requests goes_on next)
