-- ===== src/Store/IntentLaws.antt =====
-- What the reads of `IntentRepository` (libs/db/repositories.py) find after its writes.
use poly_bob.Base.{
  ℕ, ◌≡◌, refl, inl, inr, false, Option, some, none, if◌then◌else◌, arith, String, [], ◌∷◌, ◌==◌,
  nat_eq, string_eq, or_else, Option-cases,
}
use poly_bob.Base.Dict.{Dict, lookup, IsUnique, insert-IsUnique, lookup-insert}
use poly_bob.Store.Intents.{
  IntentRow, key_taken, attach_key, update_status, find_by_idempotency_key, list_all,
}
use poly_bob.Store.Order.{lookup-order_by_created}

module _ {P St E : Type 0} where
  -- Sorting moves no row to another id.
  pub lookup-list_all :
      (j : String) (rows : Dict String (IntentRow P St E))
      → IsUnique rows
      → (lookup j (list_all rows) ≡ lookup j rows) × IsUnique (list_all rows)
  unfolding list_all
  lookup-list_all j rows u = lookup-order_by_created (λ row. row.created_at) j rows u

  -- A key under which no row is found is no row's.
  pub find_by_idempotency_key_free :
      (key id : String) (rows : Dict String (IntentRow P St E))
      → find_by_idempotency_key key rows ≡ none
      → key_taken key id rows ≡ false
  unfolding find_by_idempotency_key key_taken
  find_by_idempotency_key_free key id [] h = refl
  find_by_idempotency_key_free key id ((j, row) ∷ rows) h =
      ground (arith, find_by_idempotency_key_free key id rows)

  pub find_by_idempotency_key-lookup :
      (key : String) (rows : Dict String (IntentRow P St E)) (j : String) (row : IntentRow P St E)
      → find_by_idempotency_key key rows ≡ some (j, row)
      → IsUnique rows
      → lookup j rows ≡ some row
  unfolding find_by_idempotency_key lookup
  find_by_idempotency_key-lookup key [] j row h u = ground (arith)
  find_by_idempotency_key-lookup key ((k, other) ∷ rows) j row h u =
      ground (arith, find_by_idempotency_key-lookup key rows j row, string_eq.beq_iff j k, u)

  -- An update of a row that is there writes it, under some key, and no other.
  pub update_status_lem :
      (id : String) (status : St) (error : Option E) (basket_id key : Option String) (now : ℕ)
      (rows : Dict String (IntentRow P St E)) (row : IntentRow P St E)
      → lookup id rows ≡ some row
      → (k : Option String) × ((j : String)
          → lookup j (update_status id status error basket_id key now rows) ≡ (
              if id == j
              then some (record row {
                status = status;
                error = error;
                basket_id = or_else basket_id row.basket_id;
                idempotency_key = k;
                updated_at = now;
              })
              else lookup j rows))
  unfolding update_status
  update_status_lem id status error basket_id none now rows row here = (
    row.idempotency_key,
    λ j. ground (
      arith,
      here,
      lookup-insert id j
          (record row {
            status = status;
            error = error;
            basket_id = or_else basket_id row.basket_id;
            updated_at = now;
          })
          rows,
    ),
  )
  update_status_lem id status error basket_id (some key) now rows row here =
      let row' : IntentRow P St E = record row {
        status = status;
        error = error;
        basket_id = or_else basket_id row.basket_id;
        updated_at = now;
      } in
      (
        (attach_key key id row' rows).idempotency_key,
        λ j. ground (arith, here, lookup-insert id j (attach_key key id row' rows) rows),
      )

  pub update_status-IsUnique :
      (id : String) (status : St) (error : Option E) (basket_id key : Option String) (now : ℕ)
      (rows : Dict String (IntentRow P St E))
      → IsUnique rows
      → IsUnique (update_status id status error basket_id key now rows)
  unfolding update_status
  update_status-IsUnique id status error basket_id key now rows u =
      elim (Option-cases (lookup id rows)) [
        | inl absent ↦ rw (absent, update_status) u
        | inr (row, here) ↦ rw (here, update_status) (insert-IsUnique id _ rows u)
      ]
