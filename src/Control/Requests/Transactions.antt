-- ===== src/Control/Requests/Transactions.antt =====
-- control/src/requestAuthority.ts: what every operation leaves.
use charterion.Prelude.{
  true-ne-false, ℕ, ◌≡◌, refl, sym, subst, ap, Text, codes, Option, none, some, [], ◌∷◌, Bool, true,
  false, not, if◌then◌else◌, arith, same, truthy, trim, any, All-append, Result, ok, err, >>=-eq-ok,
  throw_if-ok, ok-injective, err-ne-ok,
}
use charterion.Control.Rows.{
  find_row, find_row-key, update_rows-All, unique_rows-update, unique_rows-append,
}
use charterion.Control.Rows.History.{GoesOn, GoesOn-append, GoesOn-update_found}
use charterion.Control.Runs.{required, or_throw}
use charterion.Control.Requests.{
  WorkerRequest, WorkerRequestStatus, RequestDecision, SubmitInput, DecideInput, Store,
  RequestError, same_status, get, then_get, insert_row, submit, set_decided, decided_status,
  change_request, decide, resolve, resolution_note, text_or_null, submitted_row, open_request,
  accepted, resolved, accept, reject, invalid_type, project_missing, project_archived,
  already_decided, own_request, not_accepted, required_missing, request_missing, types,
}
use charterion.Control.Requests.Evolution.{
  IsSound, is_sound, is_final, may_become, Evolves, request_history,
}

-- What is left goes on from what was there, and is sound.
abbrev pub Leaves : Store → WorkerRequest × Store → Type 0
Leaves store r = IsSound r.1.requests × GoesOn request_history store.requests r.1.requests

get-found :
    (store : Store) (id : Text) (r : WorkerRequest)
    → get store id ≡ ok r
    → find_row (λ q. q.id) store.requests id ≡ some r
unfolding get
get-found store id r h = go (find_row (λ q. q.id) store.requests id) h
  where
    go : (o : Option WorkerRequest) → or_throw request_missing o ≡ ok r → o ≡ some r
    go none k = absurd (err-ne-ok k)
    go (some q) k = ap some (ok-injective k)

then_get-Leaves :
    (store later : Store) (id : Text) (r : WorkerRequest × Store)
    → IsSound later.requests
    → GoesOn request_history store.requests later.requests
    → then_get id later ≡ ok r
    → Leaves store r
then_get-Leaves store later id r sound goes_on h =
    let (q, found, returned) = >>=-eq-ok (get later id) _ h in
    subst (Leaves store) (ok-injective returned) (sound, goes_on)

insert_row-Leaves :
    (store : Store) (new : WorkerRequest) (r : WorkerRequest × Store)
    → IsSound store.requests
    → is_sound new ≡ true
    → insert_row store new ≡ ok r
    → Leaves store r
unfolding insert_row
insert_row-Leaves store new r (unique, sound) new_sound h =
    let (fresh, returned) = throw_if-ok _ _ _ h in
    then_get-Leaves store _ new.id r
      (
        unique_rows-append (λ q. q.id) store.requests new unique fresh,
        All-append (λ q. is_sound q ≡ true) store.requests (new ∷ []) sound (new_sound, tt),
      )
      (GoesOn-append request_history store.requests new) returned

change_request-Leaves :
    (store : Store) (change : WorkerRequest → WorkerRequest) (id : Text) (current : WorkerRequest)
    (r : WorkerRequest × Store)
    → IsSound store.requests
    → find_row (λ q. q.id) store.requests id ≡ some current
    → ((q : WorkerRequest) → (change q).id ≡ q.id)
    → is_sound (change current) ≡ true
    → Evolves current (change current)
    → change_request store change id ≡ ok r
    → Leaves store r
unfolding change_request
change_request-Leaves store change id current r (unique, sound) found same_id changed evolves h =
    then_get-Leaves store _ id r
      (
        unique_rows-update (λ q. q.id) change store.requests id same_id unique,
        update_rows-All (λ q. q.id) (λ q. is_sound q ≡ true) (λ q. is_sound q ≡ true) change
            store.requests id current unique found changed (λ q k. k) sound,
      )
      (GoesOn-update_found request_history (λ q. q.id) change store.requests id current unique found
        evolves)
      h

required-truthy :
    (value text : Text)
    → required {E = RequestError} required_missing value ≡ ok text
    → truthy text ≡ true
required-truthy value text h = go (truthy (trim value)) refl h
  where
    go :
        (b : Bool)
        → truthy (trim value) ≡ b
        → ◌≡◌ {A = Result RequestError Text}
            (if b then ok (trim value) else err required_missing)
            (ok text)
        → truthy text ≡ true
    go true given k = subst (λ t. truthy t ≡ true) (ok-injective k) given
    go false blank k = absurd (err-ne-ok k)

pub submit-Leaves :
    (store : Store) (input : SubmitInput) (id : Text) (now : ℕ) (r : WorkerRequest × Store)
    → IsSound store.requests
    → submit store input id now ≡ ok r
    → Leaves store r
unfolding submit
submit-Leaves store input id now r sound h =
    let (from_subject, _, h1) = >>=-eq-ok (required required_missing input.from_subject) _ h in
    let (title, _, h2) = >>=-eq-ok (required required_missing input.title) _ h1 in
    let (body, _, h3) = >>=-eq-ok (required required_missing input.body) _ h2 in
    let (_, h4) =
      throw_if-ok (not (any (λ t. same t input.request_type) types)) invalid_type _ h3 in
    let (project, _, h5) =
      >>=-eq-ok (or_throw project_missing (find_row (λ p. p.id) store.projects input.project_id)) _
        h4 in
    let (_, h6) = throw_if-ok (same project.status (codes "archived")) project_archived _ h5 in
    insert_row-Leaves store (submitted_row input id from_subject title body now) r sound refl h6

at_id :
    (store : Store) (id : Text) (r : WorkerRequest)
    → find_row (λ q. q.id) store.requests id ≡ some r
    → find_row (λ q. q.id) store.requests r.id ≡ some r
at_id store id r found =
    subst (λ i. find_row (λ q. q.id) store.requests i ≡ some r)
      (sym (find_row-key (λ q. q.id) store.requests id r found)) found

decided_sound :
    (decision : RequestDecision) (current : WorkerRequest) (supervisor : Text)
    (remark : Option Text) (now : ℕ)
    → truthy supervisor ≡ true
    → same current.from_subject supervisor ≡ false
    → is_sound (set_decided (decided_status decision) supervisor remark now current) ≡ true
decided_sound accept current supervisor remark now given other = ground arith
decided_sound reject current supervisor remark now given other = ground arith

Evolves-decision :
    (status : WorkerRequestStatus) (current : WorkerRequest) (supervisor : Text)
    (remark : Option Text) (now : ℕ)
    → may_become current.status status ≡ true
    → is_final current.status ≡ false
    → Evolves current (set_decided status supervisor remark now current)
Evolves-decision status current supervisor remark now moved not_final = record {
  kept = refl;
  moved = moved;
  settled = λ e. absurd (true-ne-false e not_final);
}

open_may_become :
    (from to : WorkerRequestStatus)
    → same_status from open_request ≡ true
    → may_become from to ≡ true
open_may_become from to h = ground arith

open_settles :
    (from : WorkerRequestStatus) → same_status from open_request ≡ true → is_final from ≡ false
open_settles from h = ground arith

accepted_may_resolve :
    (from : WorkerRequestStatus)
    → same_status from accepted ≡ true
    → may_become from resolved ≡ true
accepted_may_resolve from h = ground arith

accepted_settles :
    (from : WorkerRequestStatus) → same_status from accepted ≡ true → is_final from ≡ false
accepted_settles from h = ground arith

pub decide-Leaves :
    (store : Store) (input : DecideInput) (now : ℕ) (r : WorkerRequest × Store)
    → IsSound store.requests
    → decide store input now ≡ ok r
    → Leaves store r
unfolding decide
decide-Leaves store input now r sound h =
    let (supervisor, given, h1) =
      >>=-eq-ok (required required_missing input.supervisor_subject) _ h in
    let (current, read, h2) = >>=-eq-ok (get store input.request_id) _ h1 in
    let (is_open, h3) =
      throw_if-ok (not (same_status current.status open_request)) already_decided _ h2 in
    let (other, h4) = throw_if-ok (same current.from_subject supervisor) own_request _ h3 in
    let status = decided_status input.decision in
    let note = text_or_null (trim input.note) in
    change_request-Leaves store (set_decided status supervisor note now) current.id current r sound
      (at_id store input.request_id current (get-found store input.request_id current read))
      (λ q. refl)
      (decided_sound input.decision current supervisor note now
        (required-truthy input.supervisor_subject supervisor given) other)
      (Evolves-decision status current supervisor note now
        (open_may_become current.status status (ground arith))
        (open_settles current.status (ground arith)))
      h4

pub resolve-Leaves :
    (store : Store) (id supervisor_subject note : Text) (now : ℕ) (r : WorkerRequest × Store)
    → IsSound store.requests
    → resolve store id supervisor_subject note now ≡ ok r
    → Leaves store r
unfolding resolve
resolve-Leaves store id supervisor_subject note now r sound h =
    let (supervisor, given, h1) = >>=-eq-ok (required required_missing supervisor_subject) _ h in
    let (current, read, h2) = >>=-eq-ok (get store id) _ h1 in
    let (is_accepted, h3) =
      throw_if-ok (not (same_status current.status accepted)) not_accepted _ h2 in
    let note = resolution_note note current.decision_note in
    change_request-Leaves store (set_decided resolved supervisor note now) id current r sound
      (get-found store id current read) (λ q. refl)
      (required-truthy supervisor_subject supervisor given)
      (Evolves-decision resolved current supervisor note now
        (accepted_may_resolve current.status (ground arith))
        (accepted_settles current.status (ground arith)))
      h3
