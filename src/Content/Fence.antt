-- ===== src/Content/Fence.antt =====
-- src/contentRuntimeFence.ts: per tab, the epoch of the page that may report and its last revision.
-- The map `cursors` is an association list; a tab id is a natural number, so that the source's test for
-- an integer is the test for a positive number.
pub mod Fenced
pub mod Left
use charterion.Prelude.{
  ℕ, Text, Option, none, some, List, [], ◌∷◌, Bool, true, false, not, ◌||◌, ◌&&◌, if◌then◌else◌,
  same, includes, text_eq, nat_eq, get, put, delete, ltb, leb, ◌==◌, max, truthy, map,
}
use charterion.Contracts.{ContentObservationIdentity}

pub record RuntimeCursor : Type 0 where
  pub content_epoch : Text
  pub revision : ℕ
  pub retired_epochs : List Text

abbrev pub Cursors : Type 0
Cursors = List (ℕ × RuntimeCursor)

-- The guards on the observation itself.
unfoldable pub is_valid : ℕ → ContentObservationIdentity → Bool
is_valid tab_id o =
    ltb 0 tab_id
    && truthy o.content_epoch
    && leb 1 o.revision
    && truthy o.semantic_signature
    && ltb 0 o.observed_at

-- The cursor after the observation: none where it is refused.
unfoldable pub advance_cursor :
    Option RuntimeCursor → ContentObservationIdentity → Bool → Option RuntimeCursor
advance_cursor none o allow_equal =
    some (record { content_epoch = o.content_epoch; revision = o.revision; retired_epochs = [] })
advance_cursor (some current) o allow_equal =
    if same current.content_epoch o.content_epoch
    then if ltb o.revision current.revision
      then none
      else if not allow_equal && o.revision == current.revision
      then none
      else some (record current { revision = max current.revision o.revision })
    else if includes current.retired_epochs o.content_epoch
    then none
    else some (record {
      content_epoch = o.content_epoch;
      revision = o.revision;
      retired_epochs = current.content_epoch ∷ current.retired_epochs;
    })

-- `observe`: the answer and the cursors after it.
unfoldable pub observe : Cursors → ℕ → ContentObservationIdentity → Bool → Bool × Cursors
observe cursors tab_id o allow_equal =
    if not (is_valid tab_id o)
    then (false, cursors)
    else elim (advance_cursor (get cursors tab_id) o allow_equal) [
      | none ↦ (false, cursors)
      | some c ↦ (true, put cursors tab_id c)
    ]

unfoldable pub remove : Cursors → ℕ → Cursors
remove cursors tab_id = delete cursors tab_id

unfoldable pub current_epoch : Cursors → ℕ → Option Text
current_epoch cursors tab_id = elim (get cursors tab_id) [
  | none ↦ none
  | some c ↦ some c.content_epoch
]
