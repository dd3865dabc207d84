-- ===== src/Content/Fence/Fenced.antt =====
-- src/contentRuntimeFence.ts: a page that was replaced, and a revision that was passed, stay refused.
use charterion.Prelude.{
  ℕ, Text, ◌≡◌, refl, sym, subst, Option, none, some, List, [], ◌∷◌, Bool, true, false, not, ◌||◌,
  ◌&&◌, if◌then◌else◌, arith, same, same_iff, includes, text_eq, nat_eq, get, get-put, put, leb,
  ◌==◌, Bool-cases, inl, inr, ◌⊎◌, ==_iff,
}
use charterion.Contracts.{ContentObservationIdentity}
use charterion.Content.Fence.{RuntimeCursor, Cursors, is_valid, advance_cursor, observe}

-- A report by a tab, as `observe` takes it.
pub record Report : Type 0 where
  pub tab_id : ℕ
  pub observation : ContentObservationIdentity
  pub allow_equal : Bool

unfoldable pub accepts : Cursors → Report → Bool
accepts cursors r = (observe cursors r.tab_id r.observation r.allow_equal).0

abbrev pub after : Cursors → Report → Cursors
after cursors r = (observe cursors r.tab_id r.observation r.allow_equal).1

unfoldable pub run : Cursors → List Report → Cursors
run cursors [] = cursors
run cursors (r ∷ rs) = run (after cursors r) rs

-- The cursor has reached a revision of an epoch, or has left the epoch.
unfoldable pub has_passed : Text → ℕ → Option RuntimeCursor → Bool
has_passed epoch revision none = false
has_passed epoch revision (some c) =
    not (includes c.retired_epochs c.content_epoch)
    && ((same c.content_epoch epoch && leb revision c.revision) || includes c.retired_epochs epoch)

-- The current epoch is not a retired one.
unfoldable pub is_current : Option RuntimeCursor → Bool
is_current none = true
is_current (some c) = not (includes c.retired_epochs c.content_epoch)

pub advance-is_current :
    (current : Option RuntimeCursor) (o : ContentObservationIdentity) (allow : Bool)
    (c : RuntimeCursor)
    → advance_cursor current o allow ≡ some c
    → is_current current ≡ true
    → is_current (some c) ≡ true
unfolding advance_cursor is_current includes
advance-is_current none o allow c h k = ground arith
advance-is_current (some d) o allow c h k = ground (arith, same_iff d.content_epoch o.content_epoch)

-- A report leaves the cursors as they are, or advances its tab's.
pub observe-cases :
    (cursors : Cursors) (r : Report)
    → ((accepts cursors r ≡ false) × (after cursors r ≡ cursors))
      ⊎ ((c : RuntimeCursor) × (advance_cursor (get cursors r.tab_id) r.observation r.allow_equal
            ≡ some c)
          × (after cursors r ≡ put cursors r.tab_id c))
unfolding observe accepts
observe-cases cursors r = elim (Bool-cases (is_valid r.tab_id r.observation)) [
  | inl valid ↦ go valid (advance_cursor (get cursors r.tab_id) r.observation r.allow_equal) refl
  | inr invalid ↦ inl (ground arith, ground arith)
]
  where
    go :
        is_valid r.tab_id r.observation ≡ true
        → (o : Option RuntimeCursor)
        → advance_cursor (get cursors r.tab_id) r.observation r.allow_equal ≡ o
        → ((accepts cursors r ≡ false) × (after cursors r ≡ cursors))
          ⊎ ((c : RuntimeCursor) × (advance_cursor
                  (get cursors r.tab_id)
                  r.observation
                  r.allow_equal
                ≡ some c)
              × (after cursors r ≡ put cursors r.tab_id c))
    go valid none e = inl (ground arith, ground arith)
    go valid (some c) e = inr (c, e, ground arith)

-- A fact of a tab's cursor that every advance keeps is kept by every report.
pub run_keeps :
    (p : Option RuntimeCursor → Bool)
    → ((current : Option RuntimeCursor) (o : ContentObservationIdentity) (allow : Bool)
          (c : RuntimeCursor)
        → advance_cursor current o allow ≡ some c
        → p current ≡ true
        → p (some c) ≡ true)
    → (cursors : Cursors) (rs : List Report) (tab : ℕ) → p (get cursors tab) ≡ true
    → p (get (run cursors rs) tab) ≡ true
unfolding run
run_keeps p step cursors [] tab h = h
run_keeps p step cursors (r ∷ rs) tab h =
    run_keeps p step (after cursors r) rs tab (elim (observe-cases cursors r) [
      | inl (_, same_cursors) ↦ subst (λ cs. p (get cs tab) ≡ true) (sym same_cursors) h
      | inr (c, e, put_c) ↦
          subst (λ cs. p (get cs tab) ≡ true) (sym put_c)
            (subst (λ o. p o ≡ true) (sym (get-put cursors r.tab_id tab c))
              (by_tab c e (Bool-cases (r.tab_id == tab))))
    ])
  where
    by_tab :
        (c : RuntimeCursor)
        → advance_cursor (get cursors r.tab_id) r.observation r.allow_equal ≡ some c
        → ((r.tab_id == tab) ≡ true) ⊎ ((r.tab_id == tab) ≡ false)
        → p (if r.tab_id == tab then some c else get cursors tab) ≡ true
    by_tab c e (inl own) = rw own (
        step (get cursors r.tab_id) r.observation r.allow_equal c e
          (subst (λ t. p (get cursors t) ≡ true) (sym ((==_iff r.tab_id tab).0 own)) h))
    by_tab c e (inr other) = rw other h

pub refused_by_cursor :
    (cursors : Cursors) (r : Report)
    → advance_cursor (get cursors r.tab_id) r.observation r.allow_equal ≡ none
    → accepts cursors r ≡ false
unfolding accepts observe
refused_by_cursor cursors r h = ground arith
