-- ===== src/Execution/Basket/Placed.antt =====
-- The loop of `submit_basket` over the repository (modules/execution_engine/basket_executor.py).
use poly_bob.Base.{
  ℕ, suc, ◌+◌, ◌≡◌, refl, sym, ap, inl, inr, Bool, true, false, Option, some, arith, String, List,
  [], ◌∷◌, ◌++◌, map, append_assoc, nat_eq, string_eq, get_or, All, length, Bool-cases,
  Option-cases, length-append,
}
use poly_bob.Base.Dict.{Dict, lookup}
use poly_bob.Base.Float.{Floats}
use poly_bob.Execution.Orders.{submitted, ContractExecutor}
use poly_bob.Execution.Basket.{
  Venue, LegStatus, rejected, unavailable, order, OrderLeg, OrderBasket, is_filled,
}
use poly_bob.Execution.Basket.Submit.{Round, submit_leg, submit_legs}
use poly_bob.Execution.Orders.{execute_trade}
use poly_bob.Execution.Basket.Submit.{attempt, order_type}
use poly_bob.Execution.Basket.Laws.{submit_leg_settles, submit_leg_attempts}
use poly_bob.Base.Float.{0f}
use poly_bob.Execution.Basket.{venue_eq}
use poly_bob.Store.Baskets.{LegRow, update_leg}
use poly_bob.Execution.Basket.Restore.{
  Row, restore_leg, restore_legs, persist_effect, persist_effects,
}
use poly_bob.Execution.Basket.Written.{
  IsPending, ValidatesLegs, leg_row, LegsWritten, one_written, LegsWritten-then, restore_leg_known,
  persist_effects-append, LegsWritten-same, written_here,
}

module _ ⦃fl : Floats⦄ {P L : Type 0} (dump_basket : OrderBasket → P) (dump_leg : OrderLeg → L)
    (validate_basket : P → Option OrderBasket) (validate_leg : L → Option OrderLeg) where
  -- A round that ends writes the leg it leaves, and a restart reads that leg.
  submit_leg_persists :
      (id : String) (i now : ℕ) (leg : OrderLeg) (executors : Dict Venue ContractExecutor)
      (rows : Dict String (Row dump_basket dump_leg validate_basket validate_leg))
      → (submit_leg id i true leg executors).finished ≡ true
      → persist_effects dump_basket dump_leg validate_basket validate_leg now
          (submit_leg id i true leg executors).effects
          rows
        ≡ update_leg id i
            (submit_leg id i true leg executors).leg.status
            (dump_leg (submit_leg id i true leg executors).leg)
            (is_filled (submit_leg id i true leg executors).leg.status)
            rows
  unfolding submit_leg persist_effects persist_effect
  submit_leg_persists id i now leg executors rows ends =
      elim (Option-cases (lookup leg.venue executors)) [
        | inl h ↦ rw (h, submit_leg, persist_effects, persist_effect) refl
        | inr (e, h) ↦ elim (Bool-cases e.available) [
          | inr a ↦ rw (h, a, submit_leg, persist_effects, persist_effect) refl
          | inl a ↦
              elim (Option-cases
                (execute_trade leg.symbol leg.side (get_or leg.limit_price 0f) leg.quantity
                  (order_type leg.limit_price) e).1) [
                    | inl fails ↦ ground (arith, submit_leg_attempts id i true leg executors e h a)
                    | inr (n, takes) ↦
                        rw (submit_leg_attempts id i true leg executors e h a, attempt, takes) refl
                  ]
        ]
      ]

  submit_leg_breaks :
      (id : String) (i : ℕ) (leg : OrderLeg) (executors : Dict Venue ContractExecutor)
      → (submit_leg id i true leg executors).finished ≡ false
      → ((submit_leg id i true leg executors).effects ≡ [])
        × ((submit_leg id i true leg executors).leg ≡ leg)
  unfolding submit_leg
  submit_leg_breaks id i leg executors breaks = elim (Option-cases (lookup leg.venue executors)) [
    | inl h ↦ ground (arith)
    | inr (e, h) ↦ elim (Bool-cases e.available) [
      | inr a ↦ ground (arith)
      | inl a ↦
          elim (Option-cases
            (execute_trade leg.symbol leg.side (get_or leg.limit_price 0f) leg.quantity
              (order_type leg.limit_price) e).1) [
                | inl fails ↦
                    rw (submit_leg_attempts id i true leg executors e h a, attempt, fails)
                      (refl, refl)
                | inr (n, takes) ↦ ground (arith, submit_leg_attempts id i true leg executors e h a)
              ]
    ]
  ]

  submit_leg_unavailable :
      (id : String) (i : ℕ) (leg : OrderLeg) (executors : Dict Venue ContractExecutor)
      (e : ContractExecutor)
      → lookup leg.venue executors ≡ some e
      → e.available ≡ false
      → (submit_leg id i true leg executors).leg ≡ record leg { status = unavailable }
  unfolding submit_leg
  submit_leg_unavailable id i leg executors e h a = rw (h, a, submit_leg) refl

  restore_leg_unavailable :
      ValidatesLegs dump_basket dump_leg validate_basket validate_leg
      → (leg : OrderLeg) (fill : Bool)
      → restore_leg dump_basket dump_leg validate_basket validate_leg leg (
          leg_row dump_basket dump_leg validate_basket validate_leg
            (record leg { status = unavailable })
            fill)
        ≡ record leg { status = unavailable }
  restore_leg_unavailable reads leg fill =
      rw (restore_leg, reads (record leg { status = unavailable })) refl

  submit_leg_restores :
      ValidatesLegs dump_basket dump_leg validate_basket validate_leg
      → (id : String) (i : ℕ) (leg : OrderLeg) (executors : Dict Venue ContractExecutor)
      → IsPending leg
      → (submit_leg id i true leg executors).finished ≡ true
      → restore_leg dump_basket dump_leg validate_basket validate_leg leg (
          leg_row dump_basket dump_leg validate_basket validate_leg
            (submit_leg id i true leg executors).leg
            (is_filled (submit_leg id i true leg executors).leg.status))
        ≡ (submit_leg id i true leg executors).leg
  unfolding submit_leg
  submit_leg_restores reads id i leg executors new ends =
      elim (Option-cases (lookup leg.venue executors)) [
        | inl h ↦
            rw (h, submit_leg)
              (restore_leg_known dump_basket dump_leg validate_basket validate_leg reads leg
                (record leg { status = rejected }) false refl)
        | inr (e, h) ↦ elim (Bool-cases e.available) [
          | inr a ↦
              rw (submit_leg_unavailable id i leg executors e h a)
                (restore_leg_unavailable reads leg false)
          | inl a ↦
              let s : (submit_leg id i true leg executors).leg.status ≡ order submitted =
                ground (arith, submit_leg_settles id i true leg executors new.1 ends) in
              restore_leg_known dump_basket dump_leg validate_basket validate_leg reads leg
                (submit_leg id i true leg executors).leg
                (is_filled (submit_leg id i true leg executors).leg.status) (rw (s) refl)
        ]
      ]

  -- The rows of legs as `save` inserts them.
  abbrev pub new_rows : List OrderLeg → List (LegRow L LegStatus)
  new_rows legs = map (λ l. leg_row dump_basket dump_leg validate_basket validate_leg l false) legs

  pub restore_legs-new :
      ValidatesLegs dump_basket dump_leg validate_basket validate_leg
      → (legs : List OrderLeg) → All IsPending legs
      → restore_legs dump_basket dump_leg validate_basket validate_leg legs (new_rows legs) ≡ legs
  unfolding restore_legs
  restore_legs-new reads [] new = refl
  restore_legs-new reads (leg ∷ legs) new =
      let here =
        restore_leg_known dump_basket dump_leg validate_basket validate_leg reads leg leg false
          (rw (new.0.0) refl) in
      rw (here, restore_legs-new reads legs new.1) refl

  pub length-map_rows : (legs : List OrderLeg) → length (new_rows legs) ≡ length legs
  length-map_rows [] = refl
  length-map_rows (leg ∷ legs) = ap suc (length-map_rows legs)

  -- The loop of `submit_basket`: a restart reads the legs that it leaves.
  pub submit_legs_written :
      ValidatesLegs dump_basket dump_leg validate_basket validate_leg
      → (id : String) (i now : ℕ) (legs : List OrderLeg) (executors : Dict Venue ContractExecutor)
        (pre : List (LegRow L LegStatus))
        (row : Row dump_basket dump_leg validate_basket validate_leg)
        (rows : Dict String (Row dump_basket dump_leg validate_basket validate_leg))
      → i ≡ length pre
      → lookup id rows ≡ some row
      → row.legs ≡ pre ++ new_rows legs
      → All IsPending legs
      → (news : List (LegRow L LegStatus)) × LegsWritten dump_basket dump_leg validate_basket
          validate_leg id row
          (pre ++ news)
          rows
          (persist_effects dump_basket dump_leg validate_basket validate_leg now
            (submit_legs id i true legs executors).effects
            rows)
        × (restore_legs dump_basket dump_leg validate_basket validate_leg legs news
            ≡ (submit_legs id i true legs executors).legs)
        × (length news ≡ length legs)
  unfolding submit_legs restore_legs persist_effects
  submit_legs_written reads id i now [] executors pre row rows at here same new = (
    [],
    rw (← same)
        (LegsWritten-same dump_basket dump_leg validate_basket validate_leg id row rows here),
    refl,
    refl,
  )
  submit_legs_written reads id i now (leg ∷ legs) executors pre row rows at here same new =
      elim (Bool-cases (submit_leg id i true leg executors).finished) [
        | inl f ↦
            let r : Round = submit_leg id i true leg executors in
            let x : LegRow L LegStatus =
              leg_row dump_basket dump_leg validate_basket validate_leg r.leg
                (is_filled r.leg.status) in
            let rows1 =
              persist_effects dump_basket dump_leg validate_basket validate_leg now r.effects
                rows in
            let row1 : Row dump_basket dump_leg validate_basket validate_leg = record row {
              legs = pre ++ x ∷ new_rows legs;
            } in
            let one : LegsWritten dump_basket dump_leg validate_basket validate_leg id row
                (pre ++ x ∷ new_rows legs) rows rows1 =
              rw (submit_leg_persists id i now leg executors rows f) (
                one_written dump_basket dump_leg validate_basket validate_leg id i r.leg
                  (is_filled r.leg.status) pre (new_rows legs)
                  (leg_row dump_basket dump_leg validate_basket validate_leg leg false) row rows at
                  here same) in
            let here1 : lookup id rows1 ≡ some row1 =
              written_here dump_basket dump_leg validate_basket validate_leg id row
                (pre ++ x ∷ new_rows legs) rows rows1 one in
            let (news, rest, restored, long) =
              submit_legs_written reads id (i + 1) now legs r.executors (pre ++ x ∷ []) row1 rows1
                (ground (arith, at, length-append pre (x ∷ []))) here1
                (sym (append_assoc pre (x ∷ []) (new_rows legs))) new.1 in
            let all_written : LegsWritten dump_basket dump_leg validate_basket validate_leg id row
                (pre ++ x ∷ news) rows
                (persist_effects dump_basket dump_leg validate_basket validate_leg now
                  (submit_legs id (i + 1) true legs r.executors).effects rows1) =
              LegsWritten-then dump_basket dump_leg validate_basket validate_leg id row
                (pre ++ x ∷ new_rows legs) (pre ++ x ∷ news) rows rows1
                (persist_effects dump_basket dump_leg validate_basket validate_leg now
                  (submit_legs id (i + 1) true legs r.executors).effects rows1)
                one (rw (← append_assoc pre (x ∷ []) news) rest) in
            (
              x ∷ news,
              rw
                  (
                    submit_legs,
                    f,
                    persist_effects-append dump_basket dump_leg validate_basket validate_leg now
                        r.effects (submit_legs id (i + 1) true legs r.executors).effects rows,
                  )
                  all_written,
              rw
                  (
                    submit_legs,
                    f,
                    restore_legs,
                    submit_leg_restores reads id i leg executors new.0 f,
                    restored,
                  )
                  refl,
              ap suc long,
            )
        | inr f ↦
            let (no_effects, as_was) = submit_leg_breaks id i leg executors f in
            (
              new_rows (leg ∷ legs),
              rw (submit_legs, f, no_effects, persist_effects, ← same)
                  (LegsWritten-same dump_basket dump_leg validate_basket validate_leg id row rows
                    here),
              rw (submit_legs, f, as_was) (restore_legs-new reads (leg ∷ legs) new),
              length-map_rows (leg ∷ legs),
            )
      ]
