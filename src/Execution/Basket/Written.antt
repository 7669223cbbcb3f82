-- ===== src/Execution/Basket/Written.antt =====
-- What a write of a leg leaves in the row of its basket (libs/db/repositories.py,
-- modules/execution_engine/basket_executor.py).
use poly_bob.Base.{
  ℕ, ◌≡◌, refl, Bool, true, false, Option, some, none, if◌then◌else◌, arith, String, List, [], ◌∷◌,
  ◌++◌, ◌==◌, nat_eq, string_eq, length,
}
use poly_bob.Base.Dict.{Dict, lookup, lookup-insert}
use poly_bob.Base.Float.{Floats}
use poly_bob.Execution.Orders.{pending, filled, cancelled, submitted}
use poly_bob.Execution.Basket.{
  LegStatus, pending_submit, rejected, unavailable, order, OrderLeg, OrderBasket, Effect,
}
use poly_bob.Execution.Basket.{venue_eq}
use poly_bob.Store.Baskets.{LegRow, write_leg, write_leg_behind, update_leg}
use poly_bob.Execution.Basket.Restore.{Row, restore_leg, persist_effect, persist_effects}

-- The statuses that `OrderStatus` of libs/schemas has.
abbrev pub is_known : LegStatus → Bool
is_known pending_submit = true
is_known rejected = true
is_known unavailable = false
is_known (order s) = elim s [
  | pending ↦ false
  | submitted ↦ true
  | filled ↦ true
  | cancelled ↦ true
]

module _ ⦃fl : Floats⦄ where
  -- A leg as it is made.
  abbrev pub IsPending : OrderLeg → Type 0
  IsPending leg = (leg.status ≡ pending_submit) × (leg.client_order_id ≡ none)

module _ ⦃fl : Floats⦄ {P L : Type 0} (dump_basket : OrderBasket → P) (dump_leg : OrderLeg → L)
    (validate_basket : P → Option OrderBasket) (validate_leg : L → Option OrderLeg) where
  abbrev pub ValidatesLegs : Type 0
  ValidatesLegs =
      (l : OrderLeg) → validate_leg (dump_leg l) ≡ (if is_known l.status then some l else none)

  abbrev pub leg_row : OrderLeg → Bool → LegRow L LegStatus
  leg_row l fill = record { payload = dump_leg l; status = l.status; has_fill = fill }

  -- Only the row of the basket is written, and of it only the legs.
  abbrev pub LegsWritten :
      String
      → Row dump_basket dump_leg validate_basket validate_leg
      → List (LegRow L LegStatus)
      → Dict String (Row dump_basket dump_leg validate_basket validate_leg)
      → Dict String (Row dump_basket dump_leg validate_basket validate_leg)
      → Type 0
  LegsWritten id row legs before after =
      (j : String)
      → lookup j after ≡ (if id == j then some (record row { legs = legs }) else lookup j before)

  pub one_written :
      (id : String) (i : ℕ) (leg : OrderLeg) (fill : Bool) (pre rest : List (LegRow L LegStatus))
      (old : LegRow L LegStatus) (row : Row dump_basket dump_leg validate_basket validate_leg)
      (rows : Dict String (Row dump_basket dump_leg validate_basket validate_leg))
      → i ≡ length pre
      → lookup id rows ≡ some row
      → row.legs ≡ pre ++ old ∷ rest
      → LegsWritten id row
          (pre ++ leg_row leg fill ∷ rest)
          rows
          (update_leg id i leg.status (dump_leg leg) fill rows)
  unfolding update_leg
  one_written id i leg fill pre rest old row rows at here same j = ground (
    arith,
    at,
    here,
    same,
    write_leg_behind (leg_row leg fill) old pre rest,
    lookup-insert id j (record row { legs = write_leg i (leg_row leg fill) row.legs }) rows,
  )

  pub LegsWritten-then :
      (id : String) (row : Row dump_basket dump_leg validate_basket validate_leg)
      (mid legs : List (LegRow L LegStatus))
      (before between after : Dict String (Row dump_basket dump_leg validate_basket validate_leg))
      → LegsWritten id row mid before between
      → LegsWritten id (record row { legs = mid }) legs between after
      → LegsWritten id row legs before after
  LegsWritten-then id row mid legs before between after first second j =
      ground (arith, first j, second j)

  pub restore_leg_known :
      ValidatesLegs
      → (base l : OrderLeg) (fill : Bool) → is_known l.status ≡ true
      → restore_leg dump_basket dump_leg validate_basket validate_leg base (leg_row l fill) ≡ l
  restore_leg_known reads base l fill k = rw (restore_leg, reads l, k) refl

  pub persist_effects-append :
      (now : ℕ) (a b : List Effect)
      (rows : Dict String (Row dump_basket dump_leg validate_basket validate_leg))
      → persist_effects dump_basket dump_leg validate_basket validate_leg now (a ++ b) rows
        ≡ persist_effects dump_basket dump_leg validate_basket validate_leg now b
            (persist_effects dump_basket dump_leg validate_basket validate_leg now a rows)
  unfolding persist_effects
  persist_effects-append now [] b rows = refl
  persist_effects-append now (e ∷ a) b rows =
      persist_effects-append now a b
        (persist_effect dump_basket dump_leg validate_basket validate_leg now e rows)

  pub LegsWritten-same :
      (id : String) (row : Row dump_basket dump_leg validate_basket validate_leg)
      (rows : Dict String (Row dump_basket dump_leg validate_basket validate_leg))
      → lookup id rows ≡ some row
      → LegsWritten id row row.legs rows rows
  LegsWritten-same id row rows here j = ground (arith, here, string_eq.beq_iff id j)

  pub written_here :
      (id : String) (row : Row dump_basket dump_leg validate_basket validate_leg)
      (legs : List (LegRow L LegStatus))
      (before after : Dict String (Row dump_basket dump_leg validate_basket validate_leg))
      → LegsWritten id row legs before after
      → lookup id after ≡ some (record row { legs = legs })
  written_here id row legs before after w = ground (arith, w id, string_eq.beq_iff id id)
