-- ===== src/Store/Intents.antt =====
-- `IntentRepository` (libs/db/repositories.py) over the table `intents`: the id is its primary key, and
-- the idempotency key is unique where it is not NULL. `P` is the type of a payload's JSON, and `St` and
-- `E` are those of the texts of a status and of an error. A time is a number, the audit rows are left
-- out, and the rows of a table are in the order of their insertion.
use poly_bob.Base.{
  ℕ, Bool, false, not, ◌&&◌, ◌||◌, Option, some, none, if◌then◌else◌, String, [], ◌∷◌, ◌==◌, nat_eq,
  string_eq, or_else, is_some,
}
use poly_bob.Base.Dict.{Dict, lookup, insert}
use poly_bob.Store.Order.{order_by_created}

pub record IntentRow (P St E : Type 0) : Type 0 where
  pub payload : P
  pub status : St
  pub error : Option E
  pub basket_id : Option String
  pub idempotency_key : Option String
  pub created_at : ℕ
  pub updated_at : ℕ

module _ {P St E : Type 0} where
  abbrev pub has_key : String → IntentRow P St E → Bool
  has_key key row = elim row.idempotency_key [ none ↦ false | some k ↦ k == key ]

  -- Whether another row than that of `id` has the key.
  unfoldable pub key_taken : (key id : String) → Dict String (IntentRow P St E) → Bool
  key_taken key id [] = false
  key_taken key id ((j, row) ∷ rows) = not (j == id) && has_key key row || key_taken key id rows

  abbrev pub takes : Option String → String → Dict String (IntentRow P St E) → Bool
  takes none id rows = false
  takes (some key) id rows = key_taken key id rows

  abbrev pub saved_row :
      Option (IntentRow P St E)
      → P
      → St
      → Option E
      → (basket_id key : Option String) → ℕ
      → IntentRow P St E
  saved_row none payload status error basket_id key now = record {
    payload = payload;
    status = status;
    error = error;
    basket_id = basket_id;
    idempotency_key = key;
    created_at = now;
    updated_at = now;
  }
  saved_row (some row) payload status error basket_id key now = record {
    payload = payload;
    status = status;
    error = error;
    basket_id = or_else basket_id row.basket_id;
    idempotency_key = or_else row.idempotency_key key;
    created_at = row.created_at;
    updated_at = now;
  }

  -- `save`; none where the unique key is another row's and SQLite raises.
  unfoldable pub save :
      String
      → P
      → St
      → Option E
      → (basket_id key : Option String) → (now : ℕ) → Dict String (IntentRow P St E)
      → Option (Dict String (IntentRow P St E))
  save id payload status error basket_id key now rows =
      if takes key id rows
      then none
      else some (insert id (saved_row (lookup id rows) payload status error basket_id key now) rows)

  -- The second statement of `update_status`: the key goes where there is none and no other row has it.
  abbrev pub attach_key :
      String → String → IntentRow P St E → Dict String (IntentRow P St E) → IntentRow P St E
  attach_key key id row rows =
      if is_some row.idempotency_key || key_taken key id rows
      then row
      else record row { idempotency_key = some key }

  abbrev pub keyed :
      Option String → String → IntentRow P St E → Dict String (IntentRow P St E) → IntentRow P St E
  keyed none id row rows = row
  keyed (some key) id row rows = attach_key key id row rows

  -- `update_status`
  unfoldable pub update_status :
      String
      → St
      → Option E
      → (basket_id key : Option String) → (now : ℕ) → Dict String (IntentRow P St E)
      → Dict String (IntentRow P St E)
  update_status id status error basket_id key now rows = elim (lookup id rows) [
    | none ↦ rows
    | some row ↦
        let row' = record row {
          status = status;
          error = error;
          basket_id = or_else basket_id row.basket_id;
          updated_at = now;
        } in
        insert id (keyed key id row' rows) rows
  ]

  -- `find_by_idempotency_key`
  unfoldable pub find_by_idempotency_key :
      String → Dict String (IntentRow P St E) → Option (String × IntentRow P St E)
  find_by_idempotency_key key [] = none
  find_by_idempotency_key key ((j, row) ∷ rows) =
      let rest = find_by_idempotency_key key rows in if has_key key row then some (j, row) else rest

  -- `list_all`: the rows by `created_at`, and where that is equal in the table's order.
  unfoldable pub list_all : Dict String (IntentRow P St E) → Dict String (IntentRow P St E)
  list_all rows = order_by_created (λ row. row.created_at) rows
