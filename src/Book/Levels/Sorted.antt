-- ===== src/Book/Levels/Sorted.antt =====
-- The sorts of `_finalize`: strictly ordered by price, with the same size at each price.
use poly_bob.Base.{
  ◌≡◌, refl, ap, ◌∙◌, inl, inr, Bool, true, false, some, if◌then◌else◌, arith, [], ◌∷◌, ◌==◌,
  nat_eq, string_eq, All, All-imp, is_some, Bool-cases,
}
use poly_bob.Base.Dict.{lookup, IsUnique}
use poly_bob.Base.Float.{Floats, Float, float_eq, ==f_iff}
use poly_bob.Book.Levels.{Levels, insert_sorted, sorted, ascending, descending}

module _ ⦃fl : Floats⦄ where
  -- Each price comes before all that follow.
  abbrev pub IsOrdered : (Float → Float → Bool) → Levels → Type 0
  IsOrdered before [] = Unit
  IsOrdered before (x ∷ xs) =
      All (λ (y : Float × Float). before x.0 y.0 ≡ true) xs × IsOrdered before xs

  module _ (before : Float → Float → Bool) where
    pub lookup-insert_sorted :
        (k : Float) (x : Float × Float) (ys : Levels)
        → is_some (lookup x.0 ys) ≡ false
        → lookup k (insert_sorted before x ys) ≡ (if k == x.0 then some x.1 else lookup k ys)
    unfolding lookup insert_sorted
    lookup-insert_sorted k x [] h = refl
    lookup-insert_sorted k x (y ∷ ys) h =
        ground (arith, lookup-insert_sorted k x ys, ==f_iff k x.0, ==f_iff k y.0, ==f_iff x.0 y.0)

    lookup-sorted_keys :
        (d : Levels) → IsUnique d → (k : Float) → lookup k (sorted before d) ≡ lookup k d
    unfolding lookup sorted
    lookup-sorted_keys [] h k = refl
    lookup-sorted_keys (x ∷ d) h k =
        lookup-insert_sorted k x (sorted before d) (ap is_some (lookup-sorted_keys d h.1 x.0) ∙ h.0)
        ∙ ap (λ o. if k == x.0 then some x.1 else o) (lookup-sorted_keys d h.1 k)

    pub lookup-sorted :
        (d : Levels) (k : Float) → IsUnique d → lookup k (sorted before d) ≡ lookup k d
    lookup-sorted d k h = lookup-sorted_keys d h k

    insert_sorted-All :
        (P : Float × Float → Type 0) (x : Float × Float) (ys : Levels)
        → P x
        → All P ys
        → All P (insert_sorted before x ys)
    unfolding insert_sorted
    insert_sorted-All P x [] h k = (h, tt)
    insert_sorted-All P x (y ∷ ys) h k = elim (Bool-cases (before y.0 x.0)) [
      | inl e ↦ rw e (k.0, insert_sorted-All P x ys h k.1)
      | inr e ↦ rw e (h, k)
    ]

    module _ (trans : (a b c : Float) → before a b ≡ true → before b c ≡ true → before a c ≡ true)
        (connex : (a b : Float) → before a b ≡ false → before b a ≡ false → a ≡ b) where
      insert_sorted-IsOrdered :
          (x : Float × Float) (ys : Levels)
          → is_some (lookup x.0 ys) ≡ false
          → IsOrdered before ys
          → IsOrdered before (insert_sorted before x ys)
      unfolding lookup insert_sorted
      insert_sorted-IsOrdered x [] h k = (tt, tt)
      insert_sorted-IsOrdered x (y ∷ ys) h k = elim (Bool-cases (before y.0 x.0)) [
        | inl e ↦ rw e (
          insert_sorted-All (λ (z : Float × Float). before y.0 z.0 ≡ true) x ys e k.0,
          insert_sorted-IsOrdered x ys (ground (arith, ==f_iff x.0 y.0)) k.1,
        )
        | inr e ↦
            let first : before x.0 y.0 ≡ true = ground (arith, connex x.0 y.0, ==f_iff x.0 y.0) in
            rw e ((first, All-imp ys (λ z. trans x.0 y.0 z.0 first) k.0), k)
      ]

      sorted-IsOrdered : (d : Levels) → IsUnique d → IsOrdered before (sorted before d)
      unfolding sorted lookup
      sorted-IsOrdered [] h = tt
      sorted-IsOrdered (x ∷ d) h =
          insert_sorted-IsOrdered x (sorted before d) (ap is_some (lookup-sorted d x.0 h.1) ∙ h.0)
            (sorted-IsOrdered d h.1)

  pub sorted-ascending-IsOrdered :
      (d : Levels) → IsUnique d → IsOrdered ascending (sorted ascending d)
  sorted-ascending-IsOrdered = sorted-IsOrdered ascending fl.lt_trans fl.lt_connex

  pub sorted-descending-IsOrdered :
      (d : Levels) → IsUnique d → IsOrdered descending (sorted descending d)
  sorted-descending-IsOrdered =
      sorted-IsOrdered descending (λ a b c h k. fl.lt_trans c b a k h)
        (λ a b h k. fl.lt_connex a b k h)
