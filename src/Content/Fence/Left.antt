-- ===== src/Content/Fence/Left.antt =====
-- src/contentRuntimeFence.ts: a page that a tab has left stays refused.
use charterion.Prelude.{
  Text, ◌≡◌, ◌≢◌, refl, sym, subst, Option, none, some, List, [], ◌∷◌, Bool, true, false, not, ◌&&◌,
  arith, same_iff, same_refl, includes, text_eq, nat_eq, get, get-put_same, inl, inr,
}
use charterion.Contracts.{ContentObservationIdentity}
use charterion.Content.Fence.{RuntimeCursor, Cursors, advance_cursor}
use charterion.Content.Fence.Fenced.{
  Report, accepts, after, run, is_current, advance-is_current, observe-cases, run_keeps,
  refused_by_cursor,
}

-- The epoch was left.
unfoldable pub has_left : Text → Option RuntimeCursor → Bool
has_left epoch none = false
has_left epoch (some c) =
    not (includes c.retired_epochs c.content_epoch) && includes c.retired_epochs epoch

advance-has_left :
    (epoch : Text) (current : Option RuntimeCursor) (o : ContentObservationIdentity) (allow : Bool)
    (c : RuntimeCursor)
    → advance_cursor current o allow ≡ some c
    → has_left epoch current ≡ true
    → has_left epoch (some c) ≡ true
unfolding advance_cursor has_left includes
advance-has_left epoch none o allow c h k = cc
advance-has_left epoch (some d) o allow c h k =
    ground (arith, same_iff d.content_epoch o.content_epoch)

left_by :
    (d : RuntimeCursor) (o : ContentObservationIdentity) (allow : Bool) (c : RuntimeCursor)
    → advance_cursor (some d) o allow ≡ some c
    → is_current (some d) ≡ true
    → d.content_epoch ≢ o.content_epoch
    → has_left d.content_epoch (some c) ≡ true
unfolding advance_cursor is_current has_left includes
left_by d o allow c h k ne = ground (
  arith,
  same_iff d.content_epoch o.content_epoch,
  same_iff o.content_epoch d.content_epoch,
  same_refl d.content_epoch,
)

left_refused :
    (current : Option RuntimeCursor) (o : ContentObservationIdentity) (allow : Bool)
    → has_left o.content_epoch current ≡ true
    → advance_cursor current o allow ≡ none
unfolding advance_cursor has_left
left_refused none o allow h = cc
left_refused (some d) o allow h = ground (arith, same_iff d.content_epoch o.content_epoch)

accepted_leaves :
    (cursors : Cursors) (r : Report) (d : RuntimeCursor)
    → is_current (get cursors r.tab_id) ≡ true
    → get cursors r.tab_id ≡ some d
    → d.content_epoch ≢ r.observation.content_epoch
    → accepts cursors r ≡ true
    → has_left d.content_epoch (get (after cursors r) r.tab_id) ≡ true
accepted_leaves cursors r d good e ne h = elim (observe-cases cursors r) [
  | inl (refused, _) ↦ absurd (ground arith)
  | inr (c, f, put_c) ↦
      subst (λ cs. has_left d.content_epoch (get cs r.tab_id) ≡ true) (sym put_c)
        (subst (λ o. has_left d.content_epoch o ≡ true) (sym (get-put_same cursors r.tab_id c))
          (left_by d r.observation r.allow_equal c
            (subst (λ o. advance_cursor o r.observation r.allow_equal ≡ some c) e f)
            (subst (λ o. is_current o ≡ true) e good) ne))
]

-- From the start and with no tab removed, once a tab with a current epoch had a report of another epoch accepted, no later
-- report of the tab with the old epoch is accepted, whatever its revision and whatever was reported
-- before and between.
pub accepts-left :
    (before between : List Report) (r later : Report) (d : RuntimeCursor)
    → get (run [] before) r.tab_id ≡ some d
    → d.content_epoch ≢ r.observation.content_epoch
    → accepts (run [] before) r ≡ true
    → later.tab_id ≡ r.tab_id
    → later.observation.content_epoch ≡ d.content_epoch
    → accepts (run (run [] before) (r ∷ between)) later ≡ false
unfolding run
accepts-left before between r later d at_d ne h tab epoch =
    let start = run [] before in
    let current =
      run_keeps is_current advance-is_current [] before r.tab_id (unfold is_current get in refl) in
    let kept =
      run_keeps (has_left d.content_epoch) (advance-has_left d.content_epoch) (after start r)
        between r.tab_id (accepted_leaves start r d current at_d ne h) in
    refused_by_cursor (run (after start r) between) later (
      left_refused (get (run (after start r) between) later.tab_id) later.observation
        later.allow_equal
        (subst (λ k. has_left k (get (run (after start r) between) later.tab_id) ≡ true) (sym epoch)
          (subst (λ t. has_left d.content_epoch (get (run (after start r) between) t) ≡ true)
            (sym tab) kept)))
