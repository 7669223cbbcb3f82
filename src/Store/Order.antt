-- ===== src/Store/Order.antt =====
-- `ORDER BY created_at` of a table with a primary key (libs/db/repositories.py): rows of one time stay in
-- the order of their insertion.
use poly_bob.Base.{
  ℕ, ◌≡◌, refl, false, some, if◌then◌else◌, arith, String, [], ◌∷◌, ◌==◌, nat_eq, string_eq,
  is_some, leb,
}
use poly_bob.Base.Dict.{Dict, lookup, IsUnique}

module _ {R : Type 0} (created_at : R → ℕ) where
  unfoldable pub insert_created : String → R → Dict String R → Dict String R
  insert_created id row [] = (id, row) ∷ []
  insert_created id row ((j, other) ∷ rows) =
      if leb (created_at row) (created_at other)
      then (id, row) ∷ (j, other) ∷ rows
      else (j, other) ∷ insert_created id row rows

  unfoldable pub order_by_created : Dict String R → Dict String R
  order_by_created [] = []
  order_by_created ((id, row) ∷ rows) = insert_created id row (order_by_created rows)

  lookup-insert_created :
      (id j : String) (row : R) (rows : Dict String R)
      → is_some (lookup id rows) ≡ false
      → lookup j (insert_created id row rows) ≡ (if j == id then some row else lookup j rows)
  unfolding insert_created lookup
  lookup-insert_created id j row [] h = ground (arith)
  lookup-insert_created id j row ((k, other) ∷ rows) h = ground (
    arith,
    lookup-insert_created id j row rows,
    string_eq.beq_iff j id,
    string_eq.beq_iff j k,
    string_eq.beq_iff id k,
  )

  insert_created-IsUnique :
      (id : String) (row : R) (rows : Dict String R)
      → is_some (lookup id rows) ≡ false
      → IsUnique rows
      → IsUnique (insert_created id row rows)
  unfolding insert_created lookup
  insert_created-IsUnique id row [] h u = ground (arith)
  insert_created-IsUnique id row ((k, other) ∷ rows) h u = ground (
    arith,
    insert_created-IsUnique id row rows,
    lookup-insert_created id k row rows,
    string_eq.beq_iff k id,
    string_eq.beq_iff id k,
  )

  -- Sorting moves no row to another id.
  pub lookup-order_by_created :
      (j : String) (rows : Dict String R)
      → IsUnique rows
      → (lookup j (order_by_created rows) ≡ lookup j rows) × IsUnique (order_by_created rows)
  unfolding order_by_created lookup
  lookup-order_by_created j [] u = (refl, tt)
  lookup-order_by_created j ((id, row) ∷ rows) u =
      let absent : is_some (lookup id (order_by_created rows)) ≡ false =
        ground (arith, lookup-order_by_created id rows u.1) in
      (
        ground (
          arith,
          lookup-order_by_created j rows u.1,
          lookup-insert_created id j row (order_by_created rows),
        ),
        insert_created-IsUnique id row (order_by_created rows) absent
            (lookup-order_by_created j rows u.1).1,
      )
