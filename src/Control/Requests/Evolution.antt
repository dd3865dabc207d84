-- ===== src/Control/Requests/Evolution.antt =====
-- control/src/requestAuthority.ts: sound rows of requests, and how they go on.
use charterion.Prelude.{
  ℕ, ◌≡◌, refl, ◌∙◌, Text, Option, none, some, List, Bool, true, false, not, ◌&&◌, ◌||◌, arith,
  same, truthy, is_some, All,
}
use charterion.Control.Rows.{unique_rows}
use charterion.Control.Rows.History.{History}
use charterion.Control.Requests.{
  WorkerRequest, WorkerRequestStatus, same_status, open_request, accepted, rejected, resolved,
}

abbrev by_somebody : Option Text → Bool
by_somebody none = false
by_somebody (some subject) = truthy subject

abbrev by_another : Option Text → Text → Bool
by_another none from_subject = false
by_another (some subject) from_subject = truthy subject && not (same from_subject subject)

-- An open request is not decided, an accepted or a rejected one was decided by somebody who did not
-- send it, and a resolved one by somebody.
abbrev pub is_sound : WorkerRequest → Bool
is_sound r = elim r.status [
  | open_request ↦ not (is_some r.decided_by)
  | accepted ↦ by_another r.decided_by r.from_subject
  | rejected ↦ by_another r.decided_by r.from_subject
  | resolved ↦ by_somebody r.decided_by
]

-- The ids are distinct and every row is sound.
abbrev pub IsSound : List WorkerRequest → Type 0
IsSound rows = (unique_rows (λ r. r.id) rows ≡ true) × All (λ r. is_sound r ≡ true) rows

abbrev pub is_final : WorkerRequestStatus → Bool
is_final status = same_status status rejected || same_status status resolved

abbrev pub may_become : WorkerRequestStatus → WorkerRequestStatus → Bool
may_become open_request _ = true
may_become accepted accepted = true
may_become accepted resolved = true
may_become rejected rejected = true
may_become resolved resolved = true
may_become _ _ = false

-- What was submitted.
abbrev pub Submitted : Type 0
Submitted = Text × (Text × (Option Text × (Text × (Text × (Text × (Text × (Option Text × ℕ)))))))

abbrev pub submitted : WorkerRequest → Submitted
submitted r = (
  r.id,
  (
    r.project_id,
    (
      r.task_id,
      (r.from_subject, (r.request_type, (r.title, (r.body, (r.suggested_action, r.created_at))))),
    ),
  ),
)

-- A later row has what was submitted and a status that may follow; a rejected or resolved request
-- changes no more.
pub record Evolves (p q : WorkerRequest) : Type 0 where
  pub kept : submitted q ≡ submitted p
  pub moved : may_become p.status q.status ≡ true
  pub settled : is_final p.status ≡ true → q ≡ p

pub may_become_self : (s : WorkerRequestStatus) → may_become s s ≡ true
may_become_self s = ground arith

pub may_become_trans :
    (a b c : WorkerRequestStatus)
    → may_become a b ≡ true
    → may_become b c ≡ true
    → may_become a c ≡ true
may_become_trans a b c h k = ground arith

pub final_stays :
    (a b : WorkerRequestStatus) → is_final a ≡ true → may_become a b ≡ true → is_final b ≡ true
final_stays a b h k = ground arith

abbrev pub request_history : History WorkerRequest
request_history = record {
  evolves = Evolves;
  unchanged = λ p. record { kept = refl; moved = may_become_self p.status; settled = λ h. refl };
  then_changed = λ p q r h k. record {
    kept = k.kept ∙ h.kept;
    moved = may_become_trans p.status q.status r.status h.moved k.moved;
    settled = λ e. k.settled (final_stays p.status q.status e h.moved) ∙ h.settled e;
  };
}
