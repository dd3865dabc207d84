-- ===== src/Messages/Index.antt =====
-- src/messageBus.ts, `indexPendingTabs`: the tabs by conversation.
use charterion.Prelude.{
  Text, ◌≡◌, refl, subst, Option, none, some, List, [], ◌∷◌, ◌++◌, Bool, true, false, if◌then◌else◌,
  arith, includes, text_eq, get, get-put_cases, put, any, All, All-map, Bool-cases, inl, inr, ◌⊎◌,
  or_else,
}
use charterion.Contracts.{ManagedTab}
use charterion.Messages.{index_pending_tabs}

-- The tab is one of the tabs.
abbrev pub IsOf : List ManagedTab → ManagedTab → Type 0
IsOf tabs tab = (q : ManagedTab → Bool) → q tab ≡ true → any q tabs ≡ true

-- The tabs found for a conversation are tabs that show it.
abbrev pub IsIndexOf : List ManagedTab → List (Text × List ManagedTab) → Type 0
IsIndexOf tabs index =
    (key : Text) (found : List ManagedTab)
    → get index key ≡ some found
    → All (λ tab. IsOf tabs tab × (tab.snapshot.conversation_key ≡ key)) found

All-snoc :
    (P : ManagedTab → Type 0) (ts : List ManagedTab) (t : ManagedTab)
    → All P ts
    → P t
    → All P (ts ++ (t ∷ []))
All-snoc P [] t h p = (p, tt)
All-snoc P (u ∷ ts) t h p = (h.0, All-snoc P ts t h.1 p)

index_entry :
    (all : List ManagedTab) (index : List (Text × List ManagedTab)) (tab : ManagedTab)
    → IsIndexOf all index
    → IsOf all tab
    → IsIndexOf all (
        put index tab.snapshot.conversation_key
          (or_else (get index tab.snapshot.conversation_key) [] ++ (tab ∷ [])))
index_entry all index tab good member key found h =
    elim (get-put_cases index own key (or_else (get index own) [] ++ (tab ∷ [])) found h) [
      | inl (new, is_own) ↦
          subst (λ k. All (λ t. IsOf all t × (t.snapshot.conversation_key ≡ k)) found) is_own
            (subst (All (λ t. IsOf all t × (t.snapshot.conversation_key ≡ own))) new (
              All-snoc _ (or_else (get index own) []) tab (earlier (get index own) refl)
                (member, refl)))
      | inr old ↦ good key found old
    ]
  where
    own : Text
    own = tab.snapshot.conversation_key

    earlier :
        (o : Option (List ManagedTab))
        → get index own ≡ o
        → All (λ t. IsOf all t × (t.snapshot.conversation_key ≡ own)) (or_else o [])
    earlier none e = tt
    earlier (some ts) e = good own ts e

pub index-IsIndexOf :
    (pending : List Text) (all tabs : List ManagedTab) (index : List (Text × List ManagedTab))
    → IsIndexOf all index
    → All (IsOf all) tabs
    → IsIndexOf all (index_pending_tabs pending tabs index)
unfolding index_pending_tabs
index-IsIndexOf pending all [] index good members = good
index-IsIndexOf pending all (tab ∷ tabs) index good members =
    index-IsIndexOf pending all tabs _
      (entry (Bool-cases (includes pending tab.snapshot.conversation_key))) members.1
  where
    entry :
        (includes pending tab.snapshot.conversation_key ≡ true)
          ⊎ (includes pending tab.snapshot.conversation_key ≡ false)
        → IsIndexOf all (
            if includes pending tab.snapshot.conversation_key
            then put index tab.snapshot.conversation_key
                (or_else (get index tab.snapshot.conversation_key) [] ++ (tab ∷ []))
            else index)
    entry (inl e) = rw e (index_entry all index tab good members.0)
    entry (inr e) = rw e good

pub All-IsOf : (tabs : List ManagedTab) → All (IsOf tabs) tabs
unfolding any
All-IsOf [] = tt
All-IsOf (t ∷ ts) =
    (λ q h. ground arith, All-map _ (λ u (k : IsOf ts u) q h. ground (arith, k q h)) (All-IsOf ts))
