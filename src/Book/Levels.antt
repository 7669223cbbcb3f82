-- ===== src/Book/Levels.antt =====
-- Price levels (libs/polymarket/book_state.py): `normalize_levels`, and the two sorts of `_finalize`.
pub mod Merge
pub mod Sorted
use poly_bob.Base.{
  ℕ, ◌≡◌, refl, Bool, true, false, Option, some, none, if◌then◌else◌, arith, String, List, [], ◌∷◌,
  ◌==◌, string_eq, get_or,
}
use poly_bob.Base.Dict.{Dict, lookup, insert, erase}
use poly_bob.Base.Float.{Floats, Float, ◌≤f◌, ◌<f◌, ◌+f◌, 0f, float_eq}
use poly_bob.Book.Values.{Raw, Runtime, to_float}

module _ ⦃fl : Floats⦄ where
  -- `{price: size}`
  abbrev pub Levels : Type 0
  Levels = Dict Float Float

  -- The size that a book has at a price.
  abbrev pub size_of : Float → Levels → Option Float
  size_of price book = lookup price book

  -- A level of a message: a mapping (an absent field is None), a list or tuple of two or more, or
  -- anything else.
  pub data RawLevel : Type 0 where
    mapping : (price size : Raw) → RawLevel
    sequence : (price size : Raw) → RawLevel
    other : RawLevel

  abbrev pub fields : RawLevel → Option (Raw × Raw)
  fields (RawLevel.mapping price size) = some (price, size)
  fields (RawLevel.sequence price size) = some (price, size)
  fields RawLevel.other = none

  abbrev pub add_size : Float → Float → Levels → Levels
  add_size price size merged =
      if size ≤f 0f then merged else insert price (get_or (lookup price merged) 0f +f size) merged

  module _ ⦃rt : Runtime⦄ where
    abbrev pub add_parsed : Option Float → Option Float → Levels → Levels
    add_parsed (some price) (some size) merged = add_size price size merged
    add_parsed _ _ merged = merged

    -- One round of the loop.
    unfoldable pub add_level : Levels → RawLevel → Levels
    add_level merged level = elim (fields level) [
      | none ↦ merged
      | some (price, size) ↦ add_parsed (to_float price) (to_float size) merged
    ]

    unfoldable pub merge_levels : Levels → List RawLevel → Levels
    merge_levels merged [] = merged
    merge_levels merged (level ∷ levels) = merge_levels (add_level merged level) levels

    unfoldable pub normalize_levels : List RawLevel → Levels
    normalize_levels levels = merge_levels [] levels

  -- `book.pop(price, None)` or `book[price] = size`
  unfoldable pub set_level : Float → Float → Levels → Levels
  set_level price size book = if size ≤f 0f then erase price book else insert price size book

  -- Python's stable `sorted`; `before a b` says that the key of `a` is the lower one.
  unfoldable pub insert_sorted : (Float → Float → Bool) → Float × Float → Levels → Levels
  insert_sorted before x [] = x ∷ []
  insert_sorted before x (y ∷ ys) =
      let rest = insert_sorted before x ys in if before y.0 x.0 then y ∷ rest else x ∷ y ∷ ys

  unfoldable pub sorted : (Float → Float → Bool) → Levels → Levels
  sorted before [] = []
  sorted before (x ∷ xs) = insert_sorted before x (sorted before xs)

  -- Bids by `-price`, asks by `price`. The order of the negated floats is the reverse one.
  abbrev pub descending : Float → Float → Bool
  descending a b = b <f a

  abbrev pub ascending : Float → Float → Bool
  ascending a b = a <f b
