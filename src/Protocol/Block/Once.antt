-- ===== src/Protocol/Block/Once.antt =====
-- src/review.ts and shared/structuredResult.ts: what a text is in which the terminal block is found.
use charterion.Prelude.{
  ℕ, ◌+◌, ◌≤◌, ◌≡◌, ◌⊎◌, refl, length-append, sym, ap, ◌∙◌, Text, Option, none, some, [], ◌∷◌, ◌++◌,
  Bool, true, false, arith, length, starts_with, trim, Bool-cases, inl, inr, some-eq, none-ne-some,
  if◌then◌else◌,
}
use mathlib.Core.List.{append-nil}
use charterion.Protocol.Block.{
  index_of, last_index_of, plus_one, later_or, slice, Block, same_index, block_at, find_block,
}

-- How often a text has the mark.
unfoldable pub occurrences : Text → Text → ℕ
occurrences mark [] = if starts_with mark [] then 1 else 0
occurrences mark (c ∷ s) = (if starts_with mark (c ∷ s) then 1 else 0) + occurrences mark s

-- The text has the mark once for the opening and once for the closing of the block, which it ends with,
-- and the raw text is what stands between them, trimmed.
pub record HasBlock (opening closing s raw : Text) : Type 0 where
  pub before : Text
  pub after : Text
  pub front : Text
  pub opens : s ≡ before ++ (opening ++ after)
  pub closes : s ≡ front ++ closing
  pub in_order : length before ≤ length front
  pub one_opening : occurrences opening s ≡ 1
  pub one_closing : occurrences closing s ≡ 1
  pub between : raw ≡ trim (slice (length before + length opening) (length front) s)

none_later : (here : Bool) (o : Option ℕ) → later_or here o ≡ none → (here ≡ false) × (o ≡ none)
none_later true none h = cc
none_later false none h = (refl, refl)
none_later here (some n) h = cc

last_none : (mark s : Text) → last_index_of mark s ≡ none → occurrences mark s ≡ 0
unfolding last_index_of occurrences
last_none mark [] h = ground arith
last_none mark (c ∷ s) h =
    let (elsewhere, absent) = none_later (starts_with mark (c ∷ s)) (last_index_of mark s) h in
    let rest = last_none mark s absent in rw elsewhere (omega arith)

-- The first index and the last one are the same: here, and nowhere after, or the same later.
same_later :
    (here : Bool) (first last : Option ℕ) (i : ℕ)
    → (if here then some 0 else plus_one first) ≡ some i
    → later_or here last ≡ some i
    → ((here ≡ true) × (last ≡ none))
      ⊎ ((here ≡ false) × (j : ℕ) × (first ≡ some j) × (last ≡ some j))
same_later true first none i h k = inl (refl, refl)
same_later true first (some n) i h k =
    absurd (let e = some-eq h in let f = some-eq k in omega arith)
same_later false none last i h k = cc
same_later false (some j) none i h k = cc
same_later false (some j) (some n) i h k =
    let e = some-eq h in
    let f = some-eq k in let together : n ≡ j = omega arith in inr (refl, j, refl, ap some together)

once :
    (mark s : Text) (i : ℕ)
    → index_of mark s ≡ some i
    → last_index_of mark s ≡ some i
    → occurrences mark s ≡ 1
unfolding index_of last_index_of occurrences
once mark [] i h k = ground arith
once mark (c ∷ s) i h k =
    elim (same_later (starts_with mark (c ∷ s)) (index_of mark s) (last_index_of mark s) i h k) [
      | inl (here, absent) ↦ let rest = last_none mark s absent in rw here (omega arith)
      | inr (elsewhere, j, first, last) ↦
          let rest = once mark s j first last in rw elsewhere (omega arith)
    ]

starts_split : (mark s : Text) → starts_with mark s ≡ true → (rest : Text) × (s ≡ mark ++ rest)
unfolding starts_with
starts_split [] s h = (s, refl)
starts_split (c ∷ mark) [] h = cc
starts_split (c ∷ mark) (d ∷ s) h =
    let (rest, e) = starts_split mark s (ground arith) in
    let same_first : c ≡ d = ground arith in
    (rest, ap (λ x. d ∷ x) e ∙ ap (λ x. x ∷ (mark ++ rest)) (sym same_first))

from_plus_one : (o : Option ℕ) (i : ℕ) → plus_one o ≡ some i → (j : ℕ) × (o ≡ some j) × (j + 1 ≡ i)
from_plus_one none i h = cc
from_plus_one (some j) i h = (j, refl, some-eq h)

at_index : (o : Option ℕ) (n : ℕ) → same_index o n ≡ true → o ≡ some n
at_index none n h = cc
at_index (some m) n h = let e : m ≡ n = ground arith in ap some e

-- The text before an index that was found, and the rest from the mark on.
split_at :
    (mark s : Text) (i : ℕ)
    → index_of mark s ≡ some i
    → (before after : Text) × (s ≡ before ++ (mark ++ after)) × (length before ≡ i)
unfolding index_of
split_at mark [] i h = elim (Bool-cases (starts_with mark [])) [
  | inl here ↦
      let (after, e) = starts_split mark [] here in
      let first : 0 ≡ i = some-eq (rw here at h) in ([], after, e, first)
  | inr elsewhere ↦ absurd (none-ne-some (rw elsewhere at h))
]
split_at mark (c ∷ s) i h = elim (Bool-cases (starts_with mark (c ∷ s))) [
  | inl here ↦
      let (after, e) = starts_split mark (c ∷ s) here in
      let first : 0 ≡ i = some-eq (rw here at h) in ([], after, e, first)
  | inr elsewhere ↦
      let (j, there, next) = from_plus_one (index_of mark s) i (rw elsewhere at h) in
      let (before, after, e, count) = split_at mark s j there in
      (c ∷ before, after, ap (λ x. c ∷ x) e, omega arith)
]

no_tail : (n : ℕ) (rest : Text) → n + length rest ≡ n → rest ≡ []
no_tail n [] h = refl
no_tail n (c ∷ rest) h = absurd (omega arith)

chosen :
    (x y : Bool) (t raw : Text)
    → (if x then Block.missing else if y then Block.repeated else Block.found t) ≡ Block.found raw
    → t ≡ raw
chosen true y t raw h = cc
chosen false true t raw h = cc
chosen false false t raw h = cc

-- A block that is found stands in the text as it should.
pub find_block-HasBlock :
    (opening closing s raw : Text)
    → find_block opening closing s ≡ Block.found raw
    → HasBlock opening closing s raw
unfolding find_block block_at
find_block-HasBlock opening closing s raw =
    go (last_index_of opening s) (last_index_of closing s) refl refl
  where
    go :
        (start end : Option ℕ)
        → last_index_of opening s ≡ start
        → last_index_of closing s ≡ end
        → block_at opening closing s start end ≡ Block.found raw
        → HasBlock opening closing s raw
    go none end e f h = cc
    go (some start) none e f h = cc
    go (some start) (some end) e f h =
        let opening_once = at_index (index_of opening s) start (ground arith) in
        let closing_once = at_index (index_of closing s) end (ground arith) in
        let (before, after, opens, before_length) = split_at opening s start opening_once in
        let (front, tail, closes, front_length) = split_at closing s end closing_once in
        let ends : end + length closing ≡ length s = ground arith in
        let whole = ap (λ x. length x) closes in
        let parts = length-append front (closing ++ tail) in
        let parts2 = length-append closing tail in
        let nothing : tail ≡ [] = no_tail (length s) tail (omega arith) in
        record {
          before = before;
          after = after;
          front = front;
          opens = opens;
          closes =
              closes
              ∙ ap (λ x. front ++ (closing ++ x)) nothing
              ∙ ap (λ x. front ++ x) (append-nil closing);
          in_order = let ordered : start ≤ end = ground arith in omega arith;
          one_opening = once opening s start opening_once e;
          one_closing = once closing s end closing_once f;
          between =
              let raw_is : trim (slice (start + length opening) end s) ≡ raw =
                chosen _ _ (trim (slice (start + length opening) end s)) raw h in
              sym raw_is
              ∙ ap (λ n. trim (slice (n + length opening) end s)) (sym before_length)
              ∙ ap (λ n. trim (slice (length before + length opening) n s)) (sym front_length);
        }
