-- ===== src/Ledger/Index.antt =====
-- src/attemptLedgerIndex.ts: the index answers as a search of the whole ledger does.
use charterion.Prelude.{
  ℕ, ◌+◌, ◌<◌, ◌≡◌, refl, ap, Text, Option, none, some, List, [], ◌∷◌, Bool, true, false, ◌||◌,
  ◌&&◌, arith, if◌then◌else◌, filter, get_last?, ◌==◌, same, present, ◌∙◌, ap₂, Bool-cases, inl,
  inr, filter_ext, All-of_All, get, get-put, nat_eq, text_eq,
}
use charterion.Contracts.{SendAttemptRecord, ChatSnapshot}
use charterion.Ledger.{
  IndexedAttempt, AttemptLedgerIndex, index_attempts, create_attempt_ledger_index, newer,
  attempt_of, latest_for,
}

-- The last attempt that passes a test, with its place in the ledger.
scan :
    (SendAttemptRecord → Bool)
    → ℕ
    → Option IndexedAttempt
    → List SendAttemptRecord
    → Option IndexedAttempt
scan p n last [] = last
scan p n last (a ∷ rest) =
    scan p (n + 1) (if p a then some (record { attempt = a; ordinal = n }) else last) rest

-- The place is below the bound.
abbrev Before : ℕ → Option IndexedAttempt → Type 0
Before n none = Unit {0}
Before n (some i) = i.ordinal < n

-- What the ledger would be searched for: the tab's attempts, and, on a page with a conversation id,
-- the conversation's.
abbrev pub concerns : ℕ → ChatSnapshot → SendAttemptRecord → Bool
concerns tab_id snapshot a =
    a.tab_id == tab_id
    || (present snapshot.conversation_id && same a.conversation_key snapshot.conversation_key)

get-by_tab :
    (t n : ℕ) (xs : List SendAttemptRecord) (index : AttemptLedgerIndex)
    → get (index_attempts n xs index).by_tab t ≡ scan (λ a. a.tab_id == t) n (get index.by_tab t) xs
unfolding index_attempts scan
get-by_tab t n [] index = refl
get-by_tab t n (a ∷ xs) index =
    rw (get-by_tab t (n + 1) xs _)
      (ap (λ o. scan (λ a. a.tab_id == t) (n + 1) o xs) (get-put index.by_tab a.tab_id t _))

get-by_conversation :
    (k : Text) (n : ℕ) (xs : List SendAttemptRecord) (index : AttemptLedgerIndex)
    → get (index_attempts n xs index).by_conversation k
      ≡ scan (λ a. same a.conversation_key k) n (get index.by_conversation k) xs
unfolding index_attempts scan
get-by_conversation k n [] index = refl
get-by_conversation k n (a ∷ xs) index = rw (get-by_conversation k (n + 1) xs _) (
    ap (λ o. scan (λ a. same a.conversation_key k) (n + 1) o xs)
      (get-put index.by_conversation a.conversation_key k _))

Before-step :
    (n : ℕ) (x : SendAttemptRecord) (t : Bool) (a : Option IndexedAttempt)
    → Before n a
    → Before (n + 1) (if t then some (record { attempt = x; ordinal = n }) else a)
Before-step n x true a h = omega arith
Before-step n x false none h = tt
Before-step n x false (some i) h = omega arith

newer-step :
    (n : ℕ) (x : SendAttemptRecord) (s t : Bool) (a b : Option IndexedAttempt)
    → Before n a
    → Before n b
    → newer
        (if s then some (record { attempt = x; ordinal = n }) else a)
        (if t then some (record { attempt = x; ordinal = n }) else b)
      ≡ (if s || t then some (record { attempt = x; ordinal = n }) else newer a b)
unfolding newer
newer-step n x true true a b ha hb = ground arith
newer-step n x true false a none ha hb = refl
newer-step n x true false a (some i) ha hb = ground arith
newer-step n x false true none b ha hb = refl
newer-step n x false true (some i) b ha hb = ground arith
newer-step n x false false a b ha hb = refl

last_or : Option SendAttemptRecord → List SendAttemptRecord → Option SendAttemptRecord
last_or o [] = o
last_or o (x ∷ xs) = last_or (some x) xs

get_last-last_or : (xs : List SendAttemptRecord) → last_or none xs ≡ get_last? xs
unfolding last_or
get_last-last_or [] = refl
get_last-last_or (x ∷ []) = refl
get_last-last_or (x ∷ y ∷ xs) = get_last-last_or (y ∷ xs)

newer-scan :
    (p q : SendAttemptRecord → Bool) (n : ℕ) (a b : Option IndexedAttempt)
    (xs : List SendAttemptRecord)
    → Before n a
    → Before n b
    → newer (scan p n a xs) (scan q n b xs) ≡ scan (λ x. p x || q x) n (newer a b) xs
unfolding scan
newer-scan p q n a b [] ha hb = refl
newer-scan p q n a b (x ∷ xs) ha hb =
    let here : Option IndexedAttempt = some (record { attempt = x; ordinal = n }) in
    let a' = (if p x then here else a) in
    let b' = (if q x then here else b) in
    newer-scan p q (n + 1) a' b' xs (Before-step n x (p x) a ha) (Before-step n x (q x) b hb)
    ∙ ap (λ o. scan (λ x. p x || q x) (n + 1) o xs) (newer-step n x (p x) (q x) a b ha hb)

-- The item found so far; an empty rest leaves it, and otherwise the last match counts.
scan-get_last :
    (p : SendAttemptRecord → Bool) (n : ℕ) (last : Option IndexedAttempt)
    (xs : List SendAttemptRecord)
    → attempt_of (scan p n last xs) ≡ last_or (attempt_of last) (filter p xs)
unfolding scan filter last_or
scan-get_last p n last [] = refl
scan-get_last p n last (x ∷ xs) = ground (
  arith,
  scan-get_last p (n + 1) last xs,
  scan-get_last p (n + 1) (some (record { attempt = x; ordinal = n })) xs,
)

scan-last :
    (p : SendAttemptRecord → Bool) (xs : List SendAttemptRecord)
    → attempt_of (scan p 0 none xs) ≡ get_last? (filter p xs)
scan-last p xs = scan-get_last p 0 none xs ∙ get_last-last_or (filter p xs)

module _ (xs : List SendAttemptRecord) (t : ℕ) (k : Text) where
  tab_answer : get (create_attempt_ledger_index xs).by_tab t ≡ scan (λ a. a.tab_id == t) 0 none xs
  unfolding create_attempt_ledger_index get
  tab_answer = get-by_tab t 0 xs (record { by_tab = []; by_conversation = [] })

  conversation_answer :
      get (create_attempt_ledger_index xs).by_conversation k
      ≡ scan (λ a. same a.conversation_key k) 0 none xs
  unfolding create_attempt_ledger_index get
  conversation_answer = get-by_conversation k 0 xs (record { by_tab = []; by_conversation = [] })

  both_answer :
      newer
        (get (create_attempt_ledger_index xs).by_tab t)
        (get (create_attempt_ledger_index xs).by_conversation k)
      ≡ scan (λ a. a.tab_id == t || same a.conversation_key k) 0 none xs
  unfolding newer
  both_answer =
      ap₂ newer tab_answer conversation_answer
      ∙ newer-scan (λ a. a.tab_id == t) (λ a. same a.conversation_key k) 0 none none xs tt tt

-- The index's answer for a tab and its page is the last attempt of the ledger that was sent to that
-- tab or, when the page has a conversation id, to that conversation; none if there is no such.
pub latest_for-get_last :
    (attempts : List SendAttemptRecord) (tab_id : ℕ) (snapshot : ChatSnapshot)
    → latest_for (create_attempt_ledger_index attempts) tab_id snapshot
      ≡ get_last? (filter (concerns tab_id snapshot) attempts)
unfolding latest_for
latest_for-get_last attempts tab_id snapshot =
    elim (Bool-cases (present snapshot.conversation_id)) [
      | inl with_id ↦
          rw (with_id, latest_for)
            (ap attempt_of (both_answer attempts tab_id snapshot.conversation_key)
              ∙ scan-last _ attempts
              ∙ ap get_last? (filter_ext _ _ attempts (All-of_All attempts (λ a. ground arith))))
      | inr without_id ↦
          rw (without_id, latest_for)
            (ap attempt_of (tab_answer attempts tab_id snapshot.conversation_key)
              ∙ scan-last _ attempts
              ∙ ap get_last? (filter_ext _ _ attempts (All-of_All attempts (λ a. ground arith))))
    ]
