-- ===== src/Book/Levels/Merge.antt =====
-- What `normalize_levels` leaves: each price once, with the sum of its positive sizes.
use poly_bob.Base.{
  ◌≡◌, refl, ap, ◌∙◌, inl, inr, true, Option, some, none, if◌then◌else◌, arith, List, [], ◌∷◌, ◌==◌,
  nat_eq, string_eq, get_or, All, Bool-cases,
}
use poly_bob.Base.Dict.{
  lookup, insert, erase, IsUnique, insert-IsUnique, lookup-insert, lookup-erase, erase-IsUnique,
}
use poly_bob.Base.Float.{Floats, Float, ◌≤f◌, ◌<f◌, ◌+f◌, 0f, float_eq, ==f_iff}
use poly_bob.Book.Values.{Runtime, to_float}
use poly_bob.Book.Levels.{
  Levels, RawLevel, fields, add_parsed, add_level, merge_levels, normalize_levels, add_size,
  set_level,
}

module _ ⦃fl : Floats⦄ where
  abbrev pub IsPositive : Levels → Type 0
  IsPositive d = All (λ (l : Float × Float). (0f <f l.1) ≡ true) d

  pub insert-IsPositive :
      (p s : Float) (d : Levels) → (0f <f s) ≡ true → IsPositive d → IsPositive (insert p s d)
  unfolding insert
  insert-IsPositive p s [] h k = (h, tt)
  insert-IsPositive p s (x ∷ d) h k = ground (arith, insert-IsPositive p s d h k.1)

  pub erase-IsPositive : (p : Float) (d : Levels) → IsPositive d → IsPositive (erase p d)
  unfolding erase
  erase-IsPositive p [] k = tt
  erase-IsPositive p (x ∷ d) k = ground (arith, erase-IsPositive p d k.1)

  lookup_pos : (p s : Float) (d : Levels) → IsPositive d → lookup p d ≡ some s → (0f <f s) ≡ true
  unfolding lookup
  lookup_pos p s [] k h = cc
  lookup_pos p s (x ∷ d) k h = ground (arith, lookup_pos p s d k.1)

  -- Each price once, and only positive sizes.
  abbrev pub IsBook : Levels → Type 0
  IsBook d = IsUnique d × IsPositive d

  sum_pos :
      (p s : Float) (d : Levels) (o : Option Float)
      → lookup p d ≡ o
      → (0f <f s) ≡ true
      → IsPositive d
      → (0f <f (get_or o 0f +f s)) ≡ true
  sum_pos p s d none e h k = rw (fl.zero_add s) h
  sum_pos p s d (some t) e h k = fl.add_pos t s (lookup_pos p t d k e) h

  add_size-IsBook : (p s : Float) (d : Levels) → IsBook d → IsBook (add_size p s d)
  add_size-IsBook p s d (u, k) = elim (Bool-cases (0f <f s)) [
    | inr small ↦ rw small (u, k)
    | inl large ↦ rw large (
      insert-IsUnique p _ d u,
      insert-IsPositive p _ d (sum_pos p s d (lookup p d) refl large k) k,
    )
  ]

  -- What a write of one level leaves at each price.
  pub lookup-set_level :
      (p s k : Float) (d : Levels)
      → IsUnique d
      → lookup k (set_level p s d)
        ≡ (if p == k then (if s ≤f 0f then none else some s) else lookup k d)
  unfolding set_level
  lookup-set_level p s k d u = elim (Bool-cases (0f <f s)) [
    | inl e ↦ rw e (lookup-insert p k s d)
    | inr e ↦ rw e (lookup-erase p k d u)
  ]

  pub set_level-IsBook : (p s : Float) (d : Levels) → IsBook d → IsBook (set_level p s d)
  unfolding set_level
  set_level-IsBook p s d (u, k) = elim (Bool-cases (0f <f s)) [
    | inl e ↦ rw e (insert-IsUnique p s d u, insert-IsPositive p s d e k)
    | inr e ↦ rw e (erase-IsUnique p d u, erase-IsPositive p d k)
  ]

  module _ ⦃rt : Runtime⦄ where
    -- One level seen from one price: its size is added to what the price has.
    abbrev add_parsed_at : Float → Option Float → Option Float → Option Float → Option Float
    add_parsed_at p (some price) (some size) acc =
        if size ≤f 0f then acc else if price == p then some (get_or acc 0f +f size) else acc
    add_parsed_at p _ _ acc = acc

    abbrev add_at : Float → RawLevel → Option Float → Option Float
    add_at p level acc = elim (fields level) [
      | none ↦ acc
      | some (price, size) ↦ add_parsed_at p (to_float price) (to_float size) acc
    ]

    -- The size that a list of levels gives to a price, on top of `acc`.
    unfoldable pub size_at : Float → List RawLevel → Option Float → Option Float
    size_at p [] acc = acc
    size_at p (level ∷ levels) acc = size_at p levels (add_at p level acc)

    lookup-add_parsed :
        (p : Float) (a b : Option Float) (d : Levels)
        → lookup p (add_parsed a b d) ≡ add_parsed_at p a b (lookup p d)
    lookup-add_parsed p (some q) (some s) d =
        ground (arith, lookup-insert q p (get_or (lookup q d) 0f +f s) d, ==f_iff q p)
    lookup-add_parsed p (some q) none d = refl
    lookup-add_parsed p none b d = refl

    lookup-add_level :
        (p : Float) (l : RawLevel) (d : Levels) → lookup p (add_level d l) ≡ add_at p l (lookup p d)
    unfolding add_level
    lookup-add_level p (RawLevel.mapping a b) d = lookup-add_parsed p (to_float a) (to_float b) d
    lookup-add_level p (RawLevel.sequence a b) d = lookup-add_parsed p (to_float a) (to_float b) d
    lookup-add_level p RawLevel.other d = refl

    lookup-merge_levels :
        (p : Float) (ls : List RawLevel) (d : Levels)
        → lookup p (merge_levels d ls) ≡ size_at p ls (lookup p d)
    unfolding merge_levels size_at
    lookup-merge_levels p [] d = refl
    lookup-merge_levels p (l ∷ ls) d =
        lookup-merge_levels p ls (add_level d l) ∙ ap (size_at p ls) (lookup-add_level p l d)

    add_parsed-IsBook : (a b : Option Float) (d : Levels) → IsBook d → IsBook (add_parsed a b d)
    add_parsed-IsBook (some p) (some s) d h = add_size-IsBook p s d h
    add_parsed-IsBook (some p) none d h = h
    add_parsed-IsBook none b d h = h

    add_level-IsBook : (l : RawLevel) (d : Levels) → IsBook d → IsBook (add_level d l)
    unfolding add_level
    add_level-IsBook (RawLevel.mapping a b) d h = add_parsed-IsBook (to_float a) (to_float b) d h
    add_level-IsBook (RawLevel.sequence a b) d h = add_parsed-IsBook (to_float a) (to_float b) d h
    add_level-IsBook RawLevel.other d h = h

    merge_levels-IsBook : (ls : List RawLevel) (d : Levels) → IsBook d → IsBook (merge_levels d ls)
    unfolding merge_levels
    merge_levels-IsBook [] d h = h
    merge_levels-IsBook (l ∷ ls) d h =
        merge_levels-IsBook ls (add_level d l) (add_level-IsBook l d h)

    pub normalize_levels-IsBook : (ls : List RawLevel) → IsBook (normalize_levels ls)
    unfolding normalize_levels
    normalize_levels-IsBook ls = merge_levels-IsBook ls [] (tt, tt)

    -- The normalised levels hold each price once, all sizes in them are positive, and the size
    -- at a price is the sum, in the order of the message, of the positive sizes given for it.
    pub normalize_levels_sums :
        (ls : List RawLevel)
        → IsBook (normalize_levels ls)
          × ((p : Float) → lookup p (normalize_levels ls) ≡ size_at p ls none)
    unfolding normalize_levels lookup
    normalize_levels_sums ls = (normalize_levels-IsBook ls, λ p. lookup-merge_levels p ls [])
