-- ===== src/Promotion/Multiples.antt =====
-- The ends of the sorted cost multiples are the least and the greatest of them.
use poly_bob.Base.{
  ◌≡◌, refl, subst, inl, inr, Bool, true, ◌||◌, arith, List, [], ◌∷◌, nat_eq, string_eq, All,
  All-imp, any, Bool-cases,
}
use poly_bob.Base.Float.{Floats, Float, ◌≤f◌, ◌<f◌, ◌==f◌}
use poly_bob.Promotion.Evaluate.{insert_unique, sorted_set, last_of}

module _ ⦃fl : Floats⦄ where
  -- Each before all that follow.
  abbrev IsAscending : List Float → Type 0
  IsAscending [] = Unit
  IsAscending (x ∷ xs) = All (λ y. x <f y ≡ true) xs × IsAscending xs

  abbrev pub is_in : Float → List Float → Bool
  is_in m xs = any (λ x. x ==f m) xs

  All-insert_unique :
      (P : Float → Type 0) (x : Float) (xs : List Float)
      → P x
      → All P xs
      → All P (insert_unique x xs)
  unfolding insert_unique
  All-insert_unique P x [] p h = (p, tt)
  All-insert_unique P x (y ∷ ys) p h = elim (Bool-cases (x <f y)) [
    | inl below ↦ rw below (p, h)
    | inr above ↦ elim (Bool-cases (y <f x)) [
      | inl over ↦ rw (above, over) (h.0, All-insert_unique P x ys p h.1)
      | inr same ↦ rw (above, same) h
    ]
  ]

  insert_unique-IsAscending :
      (x : Float) (xs : List Float) → IsAscending xs → IsAscending (insert_unique x xs)
  unfolding insert_unique
  insert_unique-IsAscending x [] h = (tt, tt)
  insert_unique-IsAscending x (y ∷ ys) h = elim (Bool-cases (x <f y)) [
    | inl below ↦ rw below ((below, All-imp ys (λ z over. fl.lt_trans x y z below over) h.0), h)
    | inr above ↦ elim (Bool-cases (y <f x)) [
      | inl over ↦
          rw (above, over)
            (
              All-insert_unique (λ z. y <f z ≡ true) x ys over h.0,
              insert_unique-IsAscending x ys h.1,
            )
      | inr same ↦ rw (above, same) h
    ]
  ]

  sorted_set-IsAscending : (xs : List Float) → IsAscending (sorted_set xs)
  unfolding sorted_set
  sorted_set-IsAscending [] = tt
  sorted_set-IsAscending (x ∷ xs) =
      insert_unique-IsAscending x (sorted_set xs) (sorted_set-IsAscending xs)

  is_in-insert_unique :
      (m x : Float) (xs : List Float) → is_in m (insert_unique x xs) ≡ (x ==f m || is_in m xs)
  unfolding insert_unique
  is_in-insert_unique m x [] = ground (arith)
  is_in-insert_unique m x (y ∷ ys) = ground (arith, is_in-insert_unique m x ys, fl.lt_connex x y)

  is_in-sorted_set : (m : Float) (xs : List Float) → is_in m (sorted_set xs) ≡ is_in m xs
  unfolding sorted_set
  is_in-sorted_set m [] = refl
  is_in-sorted_set m (x ∷ xs) =
      ground (arith, is_in-insert_unique m x (sorted_set xs), is_in-sorted_set m xs)

  All-sorted_set : (P : Float → Type 0) (xs : List Float) → All P xs → All P (sorted_set xs)
  unfolding sorted_set
  All-sorted_set P [] h = tt
  All-sorted_set P (x ∷ xs) h = All-insert_unique P x (sorted_set xs) h.0 (All-sorted_set P xs h.1)

  above_member :
      (x m : Float) (xs : List Float)
      → All (λ y. x <f y ≡ true) xs
      → is_in m xs ≡ true
      → x <f m ≡ true
  above_member x m [] h i = ground (arith)
  above_member x m (y ∷ ys) h i = ground (arith, above_member x m ys h.1, h.0, fl.lt_connex y m)

  pub first_is_least :
      (low x : Float) (xs : List Float)
      → IsAscending (x ∷ xs)
      → is_in low (x ∷ xs) ≡ true
      → All (λ m. low ≤f m ≡ true) (x ∷ xs)
      → x ≡ low
  first_is_least low x xs a i h =
      ground (arith, i, h.0, above_member x low xs a.0, fl.lt_connex x low)

  pub last_is_greatest :
      (high x : Float) (xs : List Float)
      → IsAscending (x ∷ xs)
      → is_in high (x ∷ xs) ≡ true
      → All (λ m. m ≤f high ≡ true) (x ∷ xs)
      → last_of x xs ≡ high
  last_is_greatest high x [] a i h = ground (arith, i, fl.lt_connex x high)
  last_is_greatest high x (y ∷ ys) a i h =
      last_is_greatest high y ys a.1 (ground (arith, i, a.0.0, h.1.0, fl.lt_connex x high)) h.1

  -- The sorted set of a list in which `low` is least and `high` is greatest starts and ends with them.
  pub sorted_set-ends :
      (low high : Float) (xs : List Float)
      → is_in low xs ≡ true
      → is_in high xs ≡ true
      → All (λ m. low ≤f m ≡ true) xs
      → All (λ m. m ≤f high ≡ true) xs
      → (rest : List Float) × (sorted_set xs ≡ low ∷ rest) × (last_of low rest ≡ high)
  sorted_set-ends low high xs l g above below = ends (sorted_set xs) refl
    where
      ends :
          (s : List Float)
          → sorted_set xs ≡ s
          → (rest : List Float) × (sorted_set xs ≡ low ∷ rest) × (last_of low rest ≡ high)
      ends [] e = absurd (ground (arith, is_in-sorted_set low xs, l, e))
      ends (x ∷ rest) e =
          let a : IsAscending (x ∷ rest) = subst IsAscending e (sorted_set-IsAscending xs) in
          let least = first_is_least low x rest a (ground (arith, is_in-sorted_set low xs, l, e)) (
            subst (All (λ m. low ≤f m ≡ true)) e
              (All-sorted_set (λ m. low ≤f m ≡ true) xs above)) in
          let greatest =
            last_is_greatest high x rest a (ground (arith, is_in-sorted_set high xs, g, e)) (
              subst (All (λ m. m ≤f high ≡ true)) e
                (All-sorted_set (λ m. m ≤f high ≡ true) xs below)) in
          (rest, ground (arith, e, least), ground (arith, least, greatest))
