-- ===== src/Samples/Ledgers.antt =====
-- Runs of the attempt ledger, of the recovery and of the message plan.
use charterion.Prelude.{
  inr, ◌+◌, false, starts_with, ℕ, ◌≡◌, ◌≤◌, ◌⊎◌, refl, codes, none, some, List, [], ◌∷◌, true,
  ◌&&◌, All, filter, reverse, take, get_last?, same, trim, text_eq, nat_eq, get, put, includes, any,
  Distinct, ◌==◌,
}
use charterion.Contracts.{SendAttemptRecord, failed, uncertain, acknowledged, dispatched, prepared}
use charterion.Attempts.{can_advance_attempt}
use charterion.Attempts.Order.{
  SameDelivery, Update, rank, advance_all, advance_all-order, advance_all-final,
}
use charterion.Ledger.{linked_ids, retain_attempt_ledger, create_attempt_ledger_index, latest_for}
use charterion.Ledger.Retention.{ids, is_unlinked, is_owned, retain-linked, retain-unlinked}
use charterion.Ledger.Index.{concerns, latest_for-get_last}
use charterion.Recovery.{
  AttemptRecoveryObservation, recover_attempt, RestartRecoveryState, pending_matches, delivered,
  same_conversation,
}
use charterion.Recovery.Decision.{
  IsRecognised, IsPending, IsDelivered, recover-allowed, recover-acknowledged, recover-kept,
}
use charterion.Recovery.Restart.{NoneLeft, after_restart, restart-NoneLeft}
use charterion.Messages.{
  tab_has_unresolved_attempt, index_pending_tabs, check_tab, pending_tabs, discover_recipients,
  consumed_message_conversations, plan_for, validate_agent_message, plan_message_dispatch,
}
use charterion.Messages.Delivery.{is_deliverable, plan_message-IsDeliverable}
use charterion.Prelude.Json.{Json, member}
use charterion.Roles.{decimal}
use charterion.Bindings.{
  map_value, parse_binding_map, parse_entries, binding_fields, parse_binding, binding_of,
  BindingStorage, empty_binding, read, resolve, update, clear,
}
use charterion.Contracts.{cancelled, ready}
use charterion.Tasks.Lifecycle.{cancel, apply_task_disposition, can_cancel_task}
use charterion.Tasks.Lifecycle.Shown.{dispose-own_status}
use charterion.TaskGraph.Evaluate.{no_evaluation}
use charterion.TaskGraph.Derive.{Facts, own_status}
use charterion.Bindings.Resolved.{resolve-promoted, resolve-update, resolve-clear}
use charterion.Samples.{binding, attempt, work_task, snapshot, tab, message, observation}

abbrev two : List SendAttemptRecord
two = attempt (codes "x") prepared ∷ attempt (codes "y") dispatched ∷ []

abbrev updates : List Update
updates = (dispatched, 5, none) ∷ (prepared, 6, none) ∷ (failed, 7, none) ∷ []

advance_all-order_example :
    SameDelivery (attempt (codes "x") prepared) (advance_all (attempt (codes "x") prepared) updates)
    × (0 ≤ rank (advance_all (attempt (codes "x") prepared) updates).state)
advance_all-order_example = advance_all-order (attempt (codes "x") prepared) updates

advance_all-final_example : (advance_all (attempt (codes "x") failed) updates).state ≡ failed
advance_all-final_example = advance_all-final (attempt (codes "x") failed) updates refl

-- The task owns the first attempt; of the others the newest one is kept.
retain-linked_example :
    filter
      (is_owned (work_task (codes "a") [] (codes "x" ∷ []) ∷ []) [])
      (retain_attempt_ledger two (work_task (codes "a") [] (codes "x" ∷ []) ∷ []) [] 1)
    ≡ filter (is_owned (work_task (codes "a") [] (codes "x" ∷ []) ∷ []) []) two
retain-linked_example = retain-linked two (work_task (codes "a") [] (codes "x" ∷ []) ∷ []) [] 1

retain-unlinked_example :
    filter (is_unlinked (linked_ids [] [])) (retain_attempt_ledger two [] [] 1)
    ≡ reverse (take 1 (reverse (filter (is_unlinked (linked_ids [] [])) two)))
unfolding includes same
retain-unlinked_example = retain-unlinked two [] [] 1 (refl, (refl, tt))

latest_for-get_last_example :
    latest_for (create_attempt_ledger_index two) 1 snapshot
    ≡ get_last? (filter (concerns 1 snapshot) two)
latest_for-get_last_example = latest_for-get_last two 1 snapshot

-- A page that holds the attempt as pending and lists it as delivered.
abbrev page : AttemptRecoveryObservation
page = record {
  tab_id = 1;
  state = record {
    observation = observation (codes "e") 1;
    snapshot = snapshot;
    delivered_attempt_ids = codes "y" ∷ [];
    pending_attempt = some (record {
      attempt_id = codes "y";
      content_epoch = codes "e";
      baseline_assistant_message_count = 0;
      baseline_assistant_message_id = none;
      started_at = 1;
    });
  };
  authoritative_conversation_key = some (codes "c");
}

recover-allowed_example :
    (can_advance_attempt dispatched acknowledged ≡ true)
    × ((acknowledged ≡ failed) ⊎ (acknowledged ≡ uncertain) ⊎ (acknowledged ≡ acknowledged))
unfolding recover_attempt same_conversation same pending_matches delivered includes
recover-allowed_example =
    recover-allowed (attempt (codes "y") dispatched) (some page) 5 acknowledged refl

recover-acknowledged_example :
    (dispatched ≡ dispatched)
    × ((p : AttemptRecoveryObservation) × (some page ≡ some p)
        × IsRecognised (attempt (codes "y") dispatched) p
        × IsPending (attempt (codes "y") dispatched) p
        × IsDelivered (attempt (codes "y") dispatched) p)
unfolding recover_attempt same_conversation same pending_matches delivered includes
recover-acknowledged_example =
    recover-acknowledged (attempt (codes "y") dispatched) (some page) 5 refl

-- The acknowledged attempt on the same page.
recover-kept_example :
    (p : AttemptRecoveryObservation) × (some page ≡ some p)
    × IsRecognised (attempt (codes "y") acknowledged) p
    × ((q : IsPending (attempt (codes "y") acknowledged) p) × (((acknowledged ≡ acknowledged)
            × IsDelivered (attempt (codes "y") acknowledged) p)
          ⊎ ((acknowledged ≡ dispatched)
              × ¬ IsDelivered (attempt (codes "y") acknowledged) p
              × (999999 ≤ q.prompt.started_at + 120000))))
unfolding recover_attempt same_conversation same pending_matches delivered includes
recover-kept_example =
    recover-kept (attempt (codes "y") acknowledged) (some page) 999999 (inr refl) refl

abbrev clock : ℕ → ℕ × ℕ
clock i = (9, 9)

abbrev current : RestartRecoveryState
current = record { attempts = two; tasks = []; messages = [] }

restart-NoneLeft_example :
    NoneLeft two (after_restart current two (page ∷ []) clock)
    × Distinct (ids (after_restart current two (page ∷ []) clock))
unfolding includes same
restart-NoneLeft_example = restart-NoneLeft current two (page ∷ []) clock (refl, (refl, tt))

-- The message goes to the one open tab.
plan_message-IsDeliverable_example :
    All (λ id. any (λ t. t.tab_id == id && is_deliverable message [] t) (tab ∷ []) ≡ true) (1 ∷ [])
unfolding plan_message_dispatch validate_agent_message trim plan_for consumed_message_conversations
    discover_recipients filter same pending_tabs includes check_tab get index_pending_tabs put
    tab_has_unresolved_attempt
plan_message-IsDeliverable_example =
    plan_message-IsDeliverable message [] (tab ∷ [])
      (record {
        tab_ids = 1 ∷ [];
        recipient_conversation_keys = some (codes "c" ∷ []);
        error = none;
      })
      refl

abbrev storage : BindingStorage
storage = record { local = Json.null; session = map_value ((codes "1", empty_binding) ∷ []) }

-- The page's key is not a conversation's, so the binding is the tab's.
resolve-update_example :
    (resolve 1 snapshot (read (update storage 1 (codes "c") binding))).0 ≡ binding
unfolding starts_with get parse_binding_map
resolve-update_example = resolve-update storage 1 snapshot binding refl

resolve-clear_example :
    (resolve 1 snapshot (read (clear storage (some (codes "c")) (some 1)))).0 ≡ empty_binding
resolve-clear_example = resolve-clear storage 1 snapshot refl

abbrev no_facts : Facts
no_facts = record {
  history = [];
  last_attempt = none;
  observed = no_evaluation;
  evaluation = no_evaluation;
  review_loop_exhausted = false;
}

-- The tab's binding becomes the conversation's.
resolve-promoted_example :
    (resolve 2 snapshot (resolve 1 snapshot (read storage)).1).0
    ≡ (resolve 1 snapshot (read storage)).0
unfolding get read parse_binding_map parse_entries binding_fields parse_binding binding_of member
    same put decimal
resolve-promoted_example = resolve-promoted 1 2 snapshot (read storage) refl refl

dispose-own_status_example :
    (true ≡ true)
    × (own_status
          (record (work_task (codes "a") [] []) { cancelled_at = some 5; updated_at = 5 })
          no_facts
        ≡ some cancelled)
unfolding apply_task_disposition can_cancel_task trim
dispose-own_status_example =
    dispose-own_status (work_task (codes "a") [] [])
      (record (work_task (codes "a") [] []) { cancelled_at = some 5; updated_at = 5 }) ready cancel
      5 [] no_facts refl
