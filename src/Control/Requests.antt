-- ===== src/Control/Requests.antt =====
-- control/src/requestAuthority.ts: the requests that workers send to their supervisor. `randomUUID`
-- gives the arguments for ids; the events and the texts of errors are left out. A project is never
-- deleted.
pub mod Evolution
pub mod Transactions
pub mod Reachable
use charterion.Prelude.{
  ℕ, Text, codes, Option, none, some, List, [], ◌∷◌, ◌++◌, Bool, true, false, not, ◌&&◌, ◌||◌,
  if◌then◌else◌, same, same_option, ltb, ◌==◌, trim, truthy, any, filter, Result, ok, err, ◌>>=◌,
  ◌>>◌, throw_if,
}
use charterion.Protocol.Keys.{text_le}
use charterion.Control.Rows.{find_row, update_rows, has_row}
use charterion.Control.Rows.Order.{sort_by}
use charterion.Control.Runs.{required, or_throw}

pub data WorkerRequestStatus : Type 0 where
  open_request accepted rejected resolved : WorkerRequestStatus

pub data RequestDecision : Type 0 where
  accept reject : RequestDecision

pub record WorkerRequest : Type 0 where
  pub id : Text
  pub project_id : Text
  pub task_id : Option Text
  pub from_subject : Text
  pub request_type : Text
  pub title : Text
  pub body : Text
  pub suggested_action : Option Text
  pub status : WorkerRequestStatus
  pub decided_by : Option Text
  pub decision_note : Option Text
  pub created_at : ℕ
  pub updated_at : ℕ

pub record SubmitInput : Type 0 where
  pub project_id : Text
  pub task_id : Option Text
  pub from_subject : Text
  pub request_type : Text
  pub title : Text
  pub body : Text
  pub suggested_action : Option Text

pub record DecideInput : Type 0 where
  pub request_id : Text
  pub supervisor_subject : Text
  pub decision : RequestDecision
  pub note : Text

pub record ProjectRow : Type 0 where
  pub id : Text
  pub status : Text

pub record Store : Type 0 where
  pub projects : List ProjectRow
  pub requests : List WorkerRequest

pub data RequestError : Type 0 where
  required_missing invalid_type project_missing project_archived constraint_failed request_missing
        already_decided own_request not_accepted :
      RequestError

abbrev pub same_status : WorkerRequestStatus → WorkerRequestStatus → Bool
same_status open_request open_request = true
same_status accepted accepted = true
same_status rejected rejected = true
same_status resolved resolved = true
same_status _ _ = false

abbrev pub types : List Text
types =
    codes "suggestion"
    ∷ codes "blocker"
    ∷ codes "question"
    ∷ codes "resource-request"
    ∷ codes "scope-change"
    ∷ codes "dependency-request"
    ∷ codes "cross-system-request"
    ∷ codes "review-request"
    ∷ codes "risk-alert"
    ∷ codes "worker-request"
    ∷ []

-- `text || null`.
abbrev pub text_or_null : Text → Option Text
text_or_null t = if truthy t then some t else none

-- `text?.trim() || null`.
abbrev pub trimmed : Option Text → Option Text
trimmed none = none
trimmed (some t) = text_or_null (trim t)

unfoldable pub get : Store → Text → Result RequestError WorkerRequest
get store id = or_throw request_missing (find_row (λ r. r.id) store.requests id)

-- An argument that the source tests by its truth is absent or a text.
abbrev in_project : Option Text → WorkerRequest → Bool
in_project none r = true
in_project (some id) r = not (truthy id) || same r.project_id id

abbrev in_status : Option WorkerRequestStatus → WorkerRequest → Bool
in_status none r = true
in_status (some status) r = same_status r.status status

-- `ORDER BY created_at,id`.
unfoldable pub listed_first : WorkerRequest → WorkerRequest → Bool
listed_first a b =
    ltb a.created_at b.created_at || (a.created_at == b.created_at && text_le a.id b.id)

unfoldable pub list : Store → Option Text → Option WorkerRequestStatus → List WorkerRequest
list store project_id status =
    sort_by listed_first
      (filter (λ r. in_project project_id r && in_status status r) store.requests)

-- The row of `INSERT INTO worker_requests`.
abbrev pub submitted_row : SubmitInput → (id from_subject title body : Text) → ℕ → WorkerRequest
submitted_row input id from_subject title body now = record {
  id = id;
  project_id = input.project_id;
  task_id = trimmed input.task_id;
  from_subject = from_subject;
  request_type = input.request_type;
  title = title;
  body = body;
  suggested_action = trimmed input.suggested_action;
  status = open_request;
  decided_by = none;
  decision_note = none;
  created_at = now;
  updated_at = now;
}

-- `return this.get(id)` after a statement.
abbrev pub then_get : Text → Store → Result RequestError (WorkerRequest × Store)
then_get id store = get store id >>= λ r. ok (r, store)

unfoldable pub insert_row : Store → WorkerRequest → Result RequestError (WorkerRequest × Store)
insert_row store new = do
  throw_if (has_row (λ r. r.id) store.requests new.id) constraint_failed
  then_get new.id (record store { requests = store.requests ++ (new ∷ []) })

unfoldable pub submit : Store → SubmitInput → Text → ℕ → Result RequestError (WorkerRequest × Store)
submit store input id now = do
  from_subject ← required required_missing input.from_subject
  title ← required required_missing input.title
  body ← required required_missing input.body
  throw_if (not (any (λ t. same t input.request_type) types)) invalid_type
  project ← or_throw project_missing (find_row (λ p. p.id) store.projects input.project_id)
  throw_if (same project.status (codes "archived")) project_archived
  insert_row store (submitted_row input id from_subject title body now)

abbrev pub decided_status : RequestDecision → WorkerRequestStatus
decided_status accept = accepted
decided_status reject = rejected

abbrev pub set_decided :
    WorkerRequestStatus → Text → Option Text → ℕ → WorkerRequest → WorkerRequest
set_decided status supervisor note now r = record r {
  status = status;
  decided_by = some supervisor;
  decision_note = note;
  updated_at = now;
}

-- The `UPDATE` of a request, and what it returns.
unfoldable pub change_request :
    Store → (WorkerRequest → WorkerRequest) → Text → Result RequestError (WorkerRequest × Store)
change_request store change id =
    then_get id (record store { requests = update_rows (λ r. r.id) change store.requests id })

unfoldable pub decide : Store → DecideInput → ℕ → Result RequestError (WorkerRequest × Store)
decide store input now = do
  supervisor ← required required_missing input.supervisor_subject
  current ← get store input.request_id
  throw_if (not (same_status current.status open_request)) already_decided
  throw_if (same current.from_subject supervisor) own_request
  change_request store
      (set_decided (decided_status input.decision) supervisor (text_or_null (trim input.note)) now)
      current.id

-- `note.trim() || current.decisionNote || null`.
abbrev pub resolution_note : Text → Option Text → Option Text
resolution_note note none = text_or_null (trim note)
resolution_note note (some old) = if truthy (trim note) then some (trim note) else text_or_null old

unfoldable pub resolve :
    Store → (id supervisor_subject note : Text) → ℕ → Result RequestError (WorkerRequest × Store)
resolve store id supervisor_subject note now = do
  supervisor ← required required_missing supervisor_subject
  current ← get store id
  throw_if (not (same_status current.status accepted)) not_accepted
  change_request store
      (set_decided resolved supervisor (resolution_note note current.decision_note) now) id
