-- ===== src/Store/Baskets.antt =====
-- `BasketRepository` (libs/db/repositories.py) over the tables `baskets` and `basket_legs`. `P` and `L`
-- are the types of the JSON of a basket and of a leg, `St` and `Sl` of the texts of their statuses. The
-- rows of a basket's legs are a list, since their indices count from 0 without gap: `save` writes them
-- all. Of a fill only its presence is kept; the audit rows are left out.
use poly_bob.Base.{
  ℕ, zero, suc, ◌≡◌, refl, ap, Bool, false, Option, some, none, String, List, [], ◌∷◌, ◌++◌, nat_eq,
  string_eq, length,
}
use poly_bob.Base.Dict.{Dict, lookup, insert}
use poly_bob.Store.Order.{order_by_created}

pub record LegRow (L Sl : Type 0) : Type 0 where
  pub payload : L
  pub status : Sl
  pub has_fill : Bool

pub record BasketRow (P L St Sl : Type 0) : Type 0 where
  pub intent_id : String
  pub status : St
  pub payload : P
  pub created_at : ℕ
  pub updated_at : ℕ
  pub legs : List (LegRow L Sl)

module _ {L Sl : Type 0} where
  -- The rows of the legs that `save` inserts, or updates without their fill.
  unfoldable pub saved_legs : List (L × Sl) → List (LegRow L Sl) → List (LegRow L Sl)
  saved_legs [] rows = rows
  saved_legs ((payload, status) ∷ legs) [] =
      record { payload = payload; status = status; has_fill = false } ∷ saved_legs legs []
  saved_legs ((payload, status) ∷ legs) (row ∷ rows) =
      record row { payload = payload; status = status } ∷ saved_legs legs rows

  -- `UPDATE basket_legs` at an index; no row is no write.
  unfoldable pub write_leg : ℕ → LegRow L Sl → List (LegRow L Sl) → List (LegRow L Sl)
  write_leg index new [] = []
  write_leg zero new (row ∷ rows) = new ∷ rows
  write_leg (suc index) new (row ∷ rows) = row ∷ write_leg index new rows

  pub write_leg_behind :
      (new old : LegRow L Sl) (rows rest : List (LegRow L Sl))
      → write_leg (length rows) new (rows ++ old ∷ rest) ≡ rows ++ new ∷ rest
  unfolding write_leg
  write_leg_behind new old [] rest = refl
  write_leg_behind new old (row ∷ rows) rest =
      ap (λ x. row ∷ x) (write_leg_behind new old rows rest)

module _ {P L St Sl : Type 0} where
  abbrev pub legs_of : Option (BasketRow P L St Sl) → List (LegRow L Sl)
  legs_of none = []
  legs_of (some row) = row.legs

  abbrev pub created_of : Option (BasketRow P L St Sl) → ℕ → ℕ
  created_of none now = now
  created_of (some row) now = row.created_at

  -- `save`
  unfoldable pub save_basket :
      String
      → (intent_id : String) → St
      → P
      → List (L × Sl)
      → (now : ℕ) → Dict String (BasketRow P L St Sl)
      → Dict String (BasketRow P L St Sl)
  save_basket id intent_id status payload legs now rows =
      insert id
        (record {
          intent_id = intent_id;
          status = status;
          payload = payload;
          created_at = created_of (lookup id rows) now;
          updated_at = now;
          legs = saved_legs legs (legs_of (lookup id rows));
        })
        rows

  -- `update_status`
  unfoldable pub update_basket :
      String
      → St
      → (now : ℕ) → Dict String (BasketRow P L St Sl)
      → Dict String (BasketRow P L St Sl)
  update_basket id status now rows = elim (lookup id rows) [
    | none ↦ rows
    | some row ↦ insert id (record row { status = status; updated_at = now }) rows
  ]

  -- `update_leg` with a payload
  unfoldable pub update_leg :
      String
      → ℕ
      → Sl
      → L
      → (has_fill : Bool) → Dict String (BasketRow P L St Sl)
      → Dict String (BasketRow P L St Sl)
  update_leg id index status payload has_fill rows = elim (lookup id rows) [
    | none ↦ rows
    | some row ↦
        insert id
          (record row {
            legs =
                write_leg index (record { payload = payload; status = status; has_fill = has_fill })
                  row.legs;
          })
          rows
  ]

  -- `list_all`
  unfoldable pub list_baskets :
      Dict String (BasketRow P L St Sl) → Dict String (BasketRow P L St Sl)
  list_baskets rows = order_by_created (λ row. row.created_at) rows
