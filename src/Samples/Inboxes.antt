-- ===== src/Samples/Inboxes.antt =====
-- A run of the worker requests.
use charterion.Prelude.{
  ◌≡◌, refl, Text, codes, Option, none, some, [], ◌∷◌, map, trim, same, any, filter,
}
use charterion.Protocol.Keys.{text_le}
use charterion.Control.Rows.{find_row, update_rows, has_row, unique_rows}
use charterion.Control.Rows.Order.{sort_by, insert_by}
use charterion.Control.Rows.History.{GoesOn}
use charterion.Control.Requests.{
  Store, SubmitInput, DecideInput, RequestDecision, get, insert_row, submit, change_request, decide,
  resolve, list, listed_first,
}
use charterion.Control.Requests.Evolution.{IsSound, request_history}
use charterion.Control.Requests.Reachable.{Step, Reach, store_after, Reach-IsSound}

abbrev first_inbox : Store
first_inbox = record {
  projects = record { id = codes "p"; status = codes "active" } ∷ [];
  requests = [];
}

abbrev submit_input : Text → SubmitInput
submit_input title = record {
  project_id = codes "p";
  task_id = none;
  from_subject = codes " worker ";
  request_type = codes "blocker";
  title = title;
  body = codes "stuck";
  suggested_action = some (codes " ");
}

abbrev decision : Text → Text → RequestDecision → DecideInput
decision request_id supervisor_subject taken = record {
  request_id = request_id;
  supervisor_subject = supervisor_subject;
  decision = taken;
  note = codes "";
}

abbrev one_request : Store
one_request = store_after first_inbox (submit first_inbox (submit_input (codes "t")) (codes "a") 5)

abbrev two_requests : Store
two_requests = store_after one_request (submit one_request (submit_input (codes "u")) (codes "b") 3)

-- The worker tries to decide its own request.
abbrev tried : Store
tried =
    store_after two_requests
      (decide two_requests (decision (codes "a") (codes "worker") RequestDecision.accept) 6)

abbrev decided : Store
decided =
    store_after tried (decide tried (decision (codes "a") (codes "boss") RequestDecision.accept) 7)

abbrev finished : Store
finished = store_after decided (resolve decided (codes "a") (codes "boss") (codes "done") 8)

-- What is listed first was created first.
listed_after_run :
    map {B = Text × Option Text} (λ r. (r.id, r.decided_by)) (list finished (some (codes "p")) none)
    ≡ ((codes "b", none) ∷ (codes "a", some (codes "boss")) ∷ [])
unfolding submit decide resolve list get insert_row change_request find_row update_rows has_row
    sort_by insert_by listed_first text_le trim same any filter
listed_after_run = refl

Reach-IsSound_example :
    IsSound finished.requests × GoesOn request_history tried.requests finished.requests
unfolding submit decide resolve get insert_row change_request find_row update_rows has_row
    unique_rows trim same any
Reach-IsSound_example =
    Reach-IsSound {s = tried}
      (Reach.then_step
        (Reach.then_step Reach.start
          (Step.decides (decision (codes "a") (codes "boss") RequestDecision.accept) 7))
        (Step.resolves (codes "a") (codes "boss") (codes "done") 8))
      (refl, (refl, (refl, tt)))
