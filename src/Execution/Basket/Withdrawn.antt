-- ===== src/Execution/Basket/Withdrawn.antt =====
-- The loop of `cancel_basket` over the repository (modules/execution_engine/basket_executor.py).
use poly_bob.Base.{
  ℕ, suc, ◌+◌, ◌≡◌, refl, sym, ap, ◌∙◌, inl, inr, true, false, Option, some, arith, String, List,
  [], ◌∷◌, ◌++◌, append_assoc, nat_eq, string_eq, length, Option-cases, length-append,
}
use poly_bob.Base.Dict.{Dict, lookup, insert}
use poly_bob.Base.Float.{Floats}
use poly_bob.Execution.Orders.{cancelled, ContractExecutor}
use poly_bob.Execution.Basket.{Venue, LegStatus, order, OrderLeg, OrderBasket}
use poly_bob.Execution.Basket.Cancel.{target, cancel_legs}
use poly_bob.Execution.Basket.{venue_eq}
use poly_bob.Store.Baskets.{LegRow, update_leg}
use poly_bob.Execution.Basket.Restore.{
  Row, restore_leg, restore_legs, persist_effect, persist_effects,
}
use poly_bob.Execution.Basket.Written.{
  ValidatesLegs, leg_row, LegsWritten, one_written, LegsWritten-then, restore_leg_known,
  LegsWritten-same, written_here,
}
use poly_bob.Execution.Orders.{cancel_trade}

module _ ⦃fl : Floats⦄ {P L : Type 0} (dump_basket : OrderBasket → P) (dump_leg : OrderLeg → L)
    (validate_basket : P → Option OrderBasket) (validate_leg : L → Option OrderLeg) where
  -- The loop of `cancel_basket`: a restart reads the legs that it leaves.
  pub cancel_legs_written :
      ValidatesLegs dump_basket dump_leg validate_basket validate_leg
      → (id : String) (i now : ℕ) (bases : List OrderLeg) (olds : List (LegRow L LegStatus))
        (executors : Dict Venue ContractExecutor) (pre : List (LegRow L LegStatus))
        (row : Row dump_basket dump_leg validate_basket validate_leg)
        (rows : Dict String (Row dump_basket dump_leg validate_basket validate_leg))
      → i ≡ length pre
      → lookup id rows ≡ some row
      → row.legs ≡ pre ++ olds
      → length olds ≡ length bases
      → (news : List (LegRow L LegStatus)) × LegsWritten dump_basket dump_leg validate_basket
          validate_leg id row
          (pre ++ news)
          rows
          (persist_effects dump_basket dump_leg validate_basket validate_leg now
            (cancel_legs id i true
              (restore_legs dump_basket dump_leg validate_basket validate_leg bases olds)
              executors).effects
            rows)
        × (restore_legs dump_basket dump_leg validate_basket validate_leg bases news
            ≡ (cancel_legs id i true
                (restore_legs dump_basket dump_leg validate_basket validate_leg bases olds)
                executors).legs)
        × (length news ≡ length bases)
  unfolding cancel_legs restore_legs persist_effects persist_effect
  cancel_legs_written reads id i now [] [] executors pre row rows at here same long = (
    [],
    rw (← same)
        (LegsWritten-same dump_basket dump_leg validate_basket validate_leg id row rows here),
    refl,
    refl,
  )
  cancel_legs_written reads id i now [] (o ∷ os) executors pre row rows at here same long =
      ground (arith)
  cancel_legs_written reads id i now (b ∷ bs) [] executors pre row rows at here same long =
      ground (arith)
  cancel_legs_written reads id i now (b ∷ bs) (o ∷ os) executors pre row rows at here same long =
      let leg : OrderLeg = restore_leg dump_basket dump_leg validate_basket validate_leg b o in
      elim (Option-cases (target leg executors)) [
        | inl absent ↦
            let (news, rest, restored, long') =
              cancel_legs_written reads id (i + 1) now bs os executors (pre ++ o ∷ []) row rows
                (ground (arith, at, length-append pre (o ∷ []))) here
                (same ∙ sym (append_assoc pre (o ∷ []) os)) (ground (arith)) in
            (
              o ∷ news,
              rw (restore_legs, cancel_legs, absent, ← append_assoc pre (o ∷ []) news) rest,
              rw (restore_legs, cancel_legs, absent, restored) refl,
              ap suc long',
            )
        | inr ((n, e), there) ↦
            let done : OrderLeg = record leg { status = order cancelled } in
            let x : LegRow L LegStatus =
              leg_row dump_basket dump_leg validate_basket validate_leg done false in
            let rows1 : Dict String (Row dump_basket dump_leg validate_basket validate_leg) =
              update_leg id i (order cancelled) (dump_leg done) false rows in
            let row1 : Row dump_basket dump_leg validate_basket validate_leg = record row {
              legs = pre ++ x ∷ os;
            } in
            let one : LegsWritten dump_basket dump_leg validate_basket validate_leg id row
                (pre ++ x ∷ os) rows rows1 =
              one_written dump_basket dump_leg validate_basket validate_leg id i done false pre os o
                row rows at here same in
            let executors' : Dict Venue ContractExecutor =
              insert leg.venue (cancel_trade n e).0 executors in
            let (news, rest, restored, long') =
              cancel_legs_written reads id (i + 1) now bs os executors' (pre ++ x ∷ []) row1 rows1
                (ground (arith, at, length-append pre (x ∷ [])))
                (written_here dump_basket dump_leg validate_basket validate_leg id row
                  (pre ++ x ∷ os) rows rows1 one)
                (sym (append_assoc pre (x ∷ []) os)) (ground (arith)) in
            let all_written : LegsWritten dump_basket dump_leg validate_basket validate_leg id row
                (pre ++ x ∷ news) rows
                (persist_effects dump_basket dump_leg validate_basket validate_leg now
                  (cancel_legs id (i + 1) true
                    (restore_legs dump_basket dump_leg validate_basket validate_leg bs os)
                    executors').effects
                  rows1) =
              LegsWritten-then dump_basket dump_leg validate_basket validate_leg id row
                (pre ++ x ∷ os) (pre ++ x ∷ news) rows rows1
                (persist_effects dump_basket dump_leg validate_basket validate_leg now
                  (cancel_legs id (i + 1) true
                    (restore_legs dump_basket dump_leg validate_basket validate_leg bs os)
                    executors').effects
                  rows1)
                one (rw (← append_assoc pre (x ∷ []) news) rest) in
            (
              x ∷ news,
              rw (restore_legs, cancel_legs, there) all_written,
              rw
                  (
                    restore_legs,
                    cancel_legs,
                    there,
                    restore_leg_known dump_basket dump_leg validate_basket validate_leg reads b done
                        false refl,
                    restored,
                  )
                  refl,
              ap suc long',
            )
      ]
