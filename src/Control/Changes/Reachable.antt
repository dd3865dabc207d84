-- ===== src/Control/Changes/Reachable.antt =====
-- control/src/changeRequestAuthority.ts: the authority as a system. A step is one operation, run with any
-- input and any answers of git, or a change that others make to the tables that it reads.
use charterion.Prelude.{ℕ, ◌≡◌, refl, Text, List, All, Result, ok, err}
use charterion.Control.Runs.{Command, Git}
use charterion.Control.Changes.{ProjectRow, ClaimRow, Store, ChangeError, Run}
use charterion.Control.Changes.Operations.{open_change_request, update, review, queue}
use charterion.Control.Changes.Inserts.{OpenInput, UpdateInput, ReviewInput}
use charterion.Control.Changes.Candidate.{prepare_merge_candidate, observe_integration}
use charterion.Control.Changes.Sound.{IsSound}
use charterion.Control.Changes.Kept.{
  MovesNoRef, Keeps, open-Keeps, update-Keeps, review-Keeps, queue-Keeps, prepare-Keeps,
  observe-Keeps,
}

-- The tables, and every command that was issued.
pub record Authority : Type 0 where
  pub store : Store
  pub commands : List Command

-- A transaction that throws changes nothing; the commands have run all the same.
abbrev store_after : {A : Type 0} → Store → Result ChangeError (A × Store) → Store
store_after store (err e) = store
store_after store (ok r) = r.1

abbrev pub perform : {A : Type 0} → Authority → (Store → Run (A × Store)) → Authority
perform a operation = record {
  store = store_after a.store (operation a.store a.commands).0;
  commands = (operation a.store a.commands).1;
}

module _ (to_lower : Text → Text) where
  pub data Step (a : Authority) : Authority → Type 0 where
    opens :
        (git : Git) (input : OpenInput) (id revision_id : Text) (now : ℕ)
        → Step a (perform a (λ s. open_change_request to_lower git s input id revision_id now))
    updates :
        (git : Git) (input : UpdateInput) (revision_id : Text) (now : ℕ)
        → Step a (perform a (λ s. update to_lower git s input revision_id now))
    reviews :
        (input : ReviewInput) (id : Text) (now : ℕ)
        → Step a (perform a (λ s. review to_lower s input id now))
    queues :
        (change_request_id id : Text) (now : ℕ)
        → Step a (perform a (λ s. queue to_lower s change_request_id id now))
    prepares :
        (git : Git) (queue_entry_id : Text) (now : ℕ)
        → Step a (perform a (λ s. prepare_merge_candidate to_lower git s queue_entry_id now))
    observes :
        (git : Git) (queue_entry_id : Text) (now : ℕ)
        → Step a (perform a (λ s. observe_integration to_lower git s queue_entry_id now))
    others :
        (projects : List ProjectRow) (claims : List ClaimRow)
        → Step a (record a { store = record a.store { projects = projects; claims = claims } })

  pub data Reach (a : Authority) : Authority → Type 0 where
    start : Reach a a
    then_step : {b c : Authority} → Reach a b → Step b c → Reach a c

  abbrev pub IsGuarded : Authority → Type 0
  IsGuarded a = IsSound to_lower a.store × All MovesNoRef a.commands

  perform-IsGuarded :
      {A : Type 0} (a : Authority) (operation : Store → Run (A × Store))
      → Keeps to_lower (operation a.store)
      → IsGuarded a
      → IsGuarded (perform a operation)
  perform-IsGuarded {A} a operation keeps (sound, fine) =
      go (operation a.store a.commands) (keeps a.commands fine)
    where
      go :
          (r : Result ChangeError (A × Store) × List Command)
          → All MovesNoRef r.1 × ((q : A × Store) → r.0 ≡ ok q → IsSound to_lower q.1)
          → IsGuarded (record { store = store_after a.store r.0; commands = r.1 })
      go (err e, log) p = (sound, p.0)
      go (ok q, log) p = (p.1 q refl, p.0)

  Step-IsGuarded : {a b : Authority} → Step a b → IsGuarded a → IsGuarded b
  Step-IsGuarded {a} (opens git input id revision_id now) h =
      perform-IsGuarded a (λ s. open_change_request to_lower git s input id revision_id now)
        (open-Keeps to_lower git a.store input id revision_id now h.0) h
  Step-IsGuarded {a} (updates git input revision_id now) h =
      perform-IsGuarded a (λ s. update to_lower git s input revision_id now)
        (update-Keeps to_lower git a.store input revision_id now h.0) h
  Step-IsGuarded {a} (reviews input id now) h =
      perform-IsGuarded a (λ s. review to_lower s input id now)
        (review-Keeps to_lower a.store input id now h.0) h
  Step-IsGuarded {a} (queues change_request_id id now) h =
      perform-IsGuarded a (λ s. queue to_lower s change_request_id id now)
        (queue-Keeps to_lower a.store change_request_id id now h.0) h
  Step-IsGuarded {a} (prepares git queue_entry_id now) h =
      perform-IsGuarded a (λ s. prepare_merge_candidate to_lower git s queue_entry_id now)
        (prepare-Keeps to_lower git a.store queue_entry_id now h.0) h
  Step-IsGuarded {a} (observes git queue_entry_id now) h =
      perform-IsGuarded a (λ s. observe_integration to_lower git s queue_entry_id now)
        (observe-Keeps to_lower git a.store queue_entry_id now h.0) h
  Step-IsGuarded {a} (others projects claims) h = (
    record {
      unique = h.0.unique;
      reviewed_by_others = h.0.reviewed_by_others;
      entries_backed = h.0.entries_backed;
    },
    h.1,
  )

  -- Whatever the operations are called with and git answers, from tables for which it holds: no review
  -- is by the author of its change request, every entry of the merge queue has a review that approves
  -- exactly its head, the ids of change requests are distinct, and no command that was issued moves a
  -- ref.
  pub Reach-IsGuarded : {a b : Authority} → Reach a b → IsGuarded a → IsGuarded b
  Reach-IsGuarded start h = h
  Reach-IsGuarded (then_step r s) h = Step-IsGuarded s (Reach-IsGuarded r h)
