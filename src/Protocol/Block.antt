-- ===== src/Protocol/Block.antt =====
-- src/review.ts and shared/structuredResult.ts: the terminal block that both parsers look for, that
-- is, `indexOf`, `lastIndexOf` and `slice` on texts and the two tests built of them.
pub mod Once
use charterion.Prelude.{
  ℕ, zero, suc, ◌+◌, ◌-◌, Text, Option, none, some, [], ◌∷◌, Bool, false, not, ◌||◌, if◌then◌else◌,
  length, starts_with, ltb, ◌==◌, trim,
}

abbrev plus_one : Option ℕ → Option ℕ
plus_one none = none
plus_one (some n) = some (n + 1)

-- `text.indexOf(mark)`, with `none` for -1.
unfoldable pub index_of : Text → Text → Option ℕ
index_of mark [] = if starts_with mark [] then some 0 else none
index_of mark (c ∷ s) = if starts_with mark (c ∷ s) then some 0 else plus_one (index_of mark s)

abbrev later_or : Bool → Option ℕ → Option ℕ
later_or here none = if here then some 0 else none
later_or here (some n) = some (n + 1)

-- `text.lastIndexOf(mark)`.
unfoldable pub last_index_of : Text → Text → Option ℕ
last_index_of mark [] = if starts_with mark [] then some 0 else none
last_index_of mark (c ∷ s) = later_or (starts_with mark (c ∷ s)) (last_index_of mark s)

abbrev drop_text : ℕ → Text → Text
drop_text zero s = s
drop_text (suc n) [] = []
drop_text (suc n) (c ∷ s) = drop_text n s

abbrev take_text : ℕ → Text → Text
take_text zero s = []
take_text (suc n) [] = []
take_text (suc n) (c ∷ s) = c ∷ take_text n s

-- `text.slice(from, to)`, for 0 <= from.
unfoldable pub slice : ℕ → ℕ → Text → Text
slice from to s = take_text (to - from) (drop_text from s)

-- What the markers enclose.
pub data Block : Type 0 where
  missing repeated : Block
  found : (raw : Text) → Block

abbrev same_index : Option ℕ → ℕ → Bool
same_index none n = false
same_index (some m) n = m == n

unfoldable pub block_at : Text → Text → Text → Option ℕ → Option ℕ → Block
block_at opening closing s none end = Block.missing
block_at opening closing s (some start) none = Block.missing
block_at opening closing s (some start) (some end) =
    if ltb end start || not (end + length closing == length s)
    then Block.missing
    else if not (same_index (index_of opening s) start) || not (same_index (index_of closing s) end)
    then Block.repeated
    else Block.found (trim (slice (start + length opening) end s))

-- The block of a trimmed text: the last opening marker and the last closing one, in this order, the
-- closing one at the very end, and each the only one of its kind.
unfoldable pub find_block : Text → Text → Text → Block
unfolding block_at
find_block opening closing s =
    block_at opening closing s (last_index_of opening s) (last_index_of closing s)
