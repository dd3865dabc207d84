-- ===== src/Prelude/Json.antt =====
-- Values of unknown shape, as `JSON.parse` and the browser's storage hand them over.
use Prim.Native.Nat.{ℕ}
use mathlib.Core.Bool.{Bool, true, false}
use mathlib.Core.List.{List, [], ◌∷◌}
use mathlib.Core.Option.{Option, none, some}
use charterion.Prelude.Texts.{Text, same}
use charterion.Prelude.Tests.{if◌then◌else◌, leb, ltb}

-- What the code asks of a number: a natural number, a positive one with a fraction (by its floor),
-- a negative one (minus infinity with them), or NaN and infinity.
pub data Number : Type 0 where
  natural : ℕ → Number
  fraction : ℕ → Number
  negative : Number
  not_finite : Number

-- `n >= number`.
abbrev pub at_least : ℕ → Number → Bool
at_least n (Number.natural m) = leb m n
at_least n (Number.fraction floor) = ltb floor n
at_least n Number.negative = true
at_least n Number.not_finite = false

mutual
  pub data Json : Type 0 where
    undefined : Json
    null : Json
    bool : Bool → Json
    num : Number → Json
    str : Text → Json
    arr : Items → Json
    obj : Fields → Json

  pub data Items : Type 0 where
    nil : Items
    cons : Json → Items → Items

  pub data Fields : Type 0 where
    end : Fields
    field : Text → Json → Fields → Fields

-- `Object.keys(value)`.
unfoldable pub keys : Fields → List Text
keys end = []
keys (field k v fs) = k ∷ keys fs

-- `value[key]`.
unfoldable pub member : Fields → Text → Json
member end k = undefined
member (field j v fs) k = if same j k then v else member fs k

-- `Array.isArray(value)` as the list of its items.
unfoldable pub items : Items → List Json
items nil = []
items (cons j js) = j ∷ items js

abbrev pub as_text : Json → Option Text
as_text (str t) = some t
as_text _ = none
