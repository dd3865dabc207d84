-- ===== src/Ledger/Retention.antt =====
-- src/attemptLedger.ts: which attempts survive a trim of the ledger.
use mathlib.Core.List.{reverse-reverse}
use charterion.Prelude.{
  ℕ, zero, suc, ◌≡◌, refl, ap, ◌∙◌, sym, Text, List, [], ◌∷◌, Bool, any, present, includes-append,
  not, ◌||◌, ◌&&◌, reverse, map, arith, includes, filter, take, Distinct, Distinct-filter,
  Distinct-reverse, filter-filter, filter_ext, filter-reverse, All-of_All, text_eq, same_refl,
  All-map, All-ne_key, filter_none, map-reverse,
}
use charterion.Contracts.{SendAttemptRecord, AgentTask, AgentMessage}
use charterion.Ledger.{
  task_links, message_links, linked_ids, is_linked, retained_unlinked, retain_attempt_ledger,
}

abbrev pub ids : List SendAttemptRecord → List Text
ids = map (λ a. a.attempt_id)

abbrev pub is_unlinked : List Text → SendAttemptRecord → Bool
is_unlinked linked a = not (is_linked linked a)

includes-retained :
    (linked : List Text) (n : ℕ) (xs : List SendAttemptRecord) (acc : List Text) (k : Text)
    → includes (retained_unlinked linked n xs acc) k
      ≡ (includes acc k || includes (ids (take n (filter (is_unlinked linked) xs))) k)
unfolding retained_unlinked includes filter
includes-retained linked zero [] acc k = ground arith
includes-retained linked (suc n) [] acc k = ground arith
includes-retained linked zero (a ∷ xs) acc k = ground arith
includes-retained linked (suc n) (a ∷ xs) acc k = ground (
  arith,
  includes-retained linked (suc n) xs acc k,
  includes-retained linked n xs (a.attempt_id ∷ acc) k,
)

-- Among distinct ids, the items whose id is one of the first n are the first n items.
filter-take :
    (n : ℕ) (ys : List SendAttemptRecord)
    → Distinct (ids ys)
    → filter (λ a. includes (ids (take n ys)) a.attempt_id) ys ≡ take n ys
unfolding includes filter
filter-take zero ys d = filter_none ys
filter-take (suc n) [] d = refl
filter-take (suc n) (y ∷ ys) d = rw (same_refl y.attempt_id) (
    ap (λ l. y ∷ l)
      (filter_ext _ _ ys (
          All-map ys (λ a h. rw h refl)
            (All-ne_key (λ (a : SendAttemptRecord). a.attempt_id) ys y.attempt_id d.0))
        ∙ filter-take n ys d.1))

-- A task or a message lists the attempt, or the attempt names one.
abbrev pub is_owned : List AgentTask → List AgentMessage → SendAttemptRecord → Bool
is_owned tasks messages a =
    any (λ t. includes t.attempt_ids a.attempt_id) tasks
    || any (λ m. includes m.attempt_ids a.attempt_id) messages
    || present a.task_id
    || present a.message_id

task_links-any :
    (tasks : List AgentTask) (id : Text)
    → includes (task_links tasks) id ≡ any (λ t. includes t.attempt_ids id) tasks
unfolding task_links any includes
task_links-any [] id = refl
task_links-any (t ∷ ts) id =
    includes-append t.attempt_ids (task_links ts) id
    ∙ ap (λ b. includes t.attempt_ids id || b) (task_links-any ts id)

message_links-any :
    (messages : List AgentMessage) (id : Text)
    → includes (message_links messages) id ≡ any (λ m. includes m.attempt_ids id) messages
unfolding message_links any includes
message_links-any [] id = refl
message_links-any (m ∷ ms) id =
    includes-append m.attempt_ids (message_links ms) id
    ∙ ap (λ b. includes m.attempt_ids id || b) (message_links-any ms id)

is_linked_owned :
    (tasks : List AgentTask) (messages : List AgentMessage) (a : SendAttemptRecord)
    → is_linked (linked_ids tasks messages) a ≡ is_owned tasks messages a
unfolding is_linked linked_ids
is_linked_owned tasks messages a =
    let split = includes-append (task_links tasks) (message_links messages) a.attempt_id in
    let of_tasks = task_links-any tasks a.attempt_id in
    let of_messages = message_links-any messages a.attempt_id in ground arith

module _ (attempts : List SendAttemptRecord) (tasks : List AgentTask) (messages : List AgentMessage)
    (max_unlinked : ℕ) where
  -- Every attempt whose id stands in the attempts of a task or of a message, or that names a task or a
  -- message itself, is kept, in the ledger's order and as often as it stood there.
  pub retain-linked :
      filter (is_owned tasks messages) (retain_attempt_ledger attempts tasks messages max_unlinked)
      ≡ filter (is_owned tasks messages) attempts
  unfolding retain_attempt_ledger
  retain-linked =
      filter-filter _ _ attempts
      ∙ filter_ext _ _ attempts
          (All-of_All attempts (λ a. let owned = is_linked_owned tasks messages a in ground arith))

  kept_newest :
      Distinct (ids attempts)
      → filter
          (λ a.
            is_unlinked (linked_ids tasks messages) a
            && includes
                (retained_unlinked (linked_ids tasks messages) max_unlinked (reverse attempts) [])
                a.attempt_id)
          (reverse attempts)
        ≡ take max_unlinked (filter (is_unlinked (linked_ids tasks messages)) (reverse attempts))
  unfolding includes
  kept_newest d =
      filter_ext _ _ (reverse attempts) (
        All-of_All (reverse attempts) (λ a.
          ap (λ b. is_unlinked (linked_ids tasks messages) a && b)
            (includes-retained (linked_ids tasks messages) max_unlinked (reverse attempts) []
              a.attempt_id)))
      ∙ sym (filter-filter _ _ (reverse attempts))
      ∙ filter-take max_unlinked _ (
          Distinct-filter (λ (a : SendAttemptRecord). a.attempt_id) _ (reverse attempts)
            (ids-reverse d))
    where
      ids-reverse : Distinct (ids attempts) → Distinct (ids (reverse attempts))
      ids-reverse h =
          rw (map-reverse (λ (a : SendAttemptRecord). a.attempt_id) attempts)
            (Distinct-reverse (ids attempts) h)

  -- Of the attempts that nothing owns exactly the newest ones are kept, as many as the limit allows,
  -- in the ledger's order, when no two attempts share an id.
  pub retain-unlinked :
      Distinct (ids attempts)
      → filter
          (is_unlinked (linked_ids tasks messages))
          (retain_attempt_ledger attempts tasks messages max_unlinked)
        ≡ reverse (
            take max_unlinked (reverse (filter (is_unlinked (linked_ids tasks messages)) attempts)))
  unfolding retain_attempt_ledger
  retain-unlinked d =
      let linked = linked_ids tasks messages in
      filter-filter _ _ attempts
      ∙ filter_ext _ _ attempts (All-of_All attempts (λ a. ground arith))
      ∙ ap (filter _) (sym (reverse-reverse attempts))
      ∙ filter-reverse _ (reverse attempts)
      ∙ ap reverse (kept_newest d)
      ∙ ap (λ l. reverse (take max_unlinked l)) (filter-reverse (is_unlinked linked) attempts)
