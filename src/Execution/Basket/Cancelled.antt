-- ===== src/Execution/Basket/Cancelled.antt =====
-- What `cancel_basket` leaves (modules/execution_engine/basket_executor.py).
use poly_bob.Base.{
  ℕ, ◌+◌, ◌≡◌, refl, ◌∙◌, inl, inr, Bool, true, false, some, if◌then◌else◌, arith, String, List, [],
  ◌∷◌, map, nat_eq, string_eq, is_some, Bool-cases, Option-cases,
}
use poly_bob.Base.Dict.{Dict, lookup, insert, lookup-insert, lookup-insert_self}
use poly_bob.Base.Float.{Floats}
use poly_bob.Execution.Orders.{cancelled, ContractExecutor, cancel_trade}
use poly_bob.Execution.Basket.{
  Venue, venue_beq, venue_eq, order, OrderLeg, all_cancelled, OrderBasket, BasketExecutor,
}
use poly_bob.Execution.Basket.Cancel.{target, cancel_legs, cancel_basket}

module _ ⦃fl : Floats⦄ where
  -- A leg after the call: cancelled if it had an order at a venue with an executor.
  abbrev pub after_cancel : Dict Venue ContractExecutor → OrderLeg → OrderLeg
  after_cancel executors leg =
      if is_some (target leg executors) then record leg { status = order cancelled } else leg

  target-insert :
      (executors : Dict Venue ContractExecutor) (w : Venue) (e e' : ContractExecutor)
      (leg : OrderLeg)
      → lookup w executors ≡ some e
      → is_some (target leg (insert w e' executors)) ≡ is_some (target leg executors)
  target-insert executors w e e' leg h = elim (Option-cases leg.client_order_id) [
    | inl absent ↦ rw (absent, target) refl
    | inr (k, present) ↦ elim (Bool-cases (venue_beq w leg.venue)) [
      | inl eq ↦
          rw
            (
              present,
              target,
              lookup-insert w leg.venue e' executors,
              eq,
              ← (venue_eq.beq_iff w leg.venue).0 eq,
              h,
            )
            refl
      | inr ne ↦ rw (present, target, lookup-insert w leg.venue e' executors, ne) refl
    ]
  ]

  target-venue :
      (executors : Dict Venue ContractExecutor) (leg : OrderLeg) (n : ℕ) (e : ContractExecutor)
      → target leg executors ≡ some (n, e)
      → lookup leg.venue executors ≡ some e
  target-venue executors leg n e h = elim (Option-cases leg.client_order_id) [
    | inl absent ↦ ground (arith)
    | inr (k, present) ↦ elim (Option-cases (lookup leg.venue executors)) [
      | inl absent ↦ ground (arith)
      | inr (e', there) ↦ ground (arith)
    ]
  ]

  cancel_legs_lem :
      (id : String) (i : ℕ) (repo : Bool) (legs : List OrderLeg)
      (executors start : Dict Venue ContractExecutor)
      → ((leg : OrderLeg) → is_some (target leg executors) ≡ is_some (target leg start))
      → (cancel_legs id i repo legs executors).legs ≡ map (after_cancel start) legs
  unfolding cancel_legs
  cancel_legs_lem id i repo [] executors start same = refl
  cancel_legs_lem id i repo (leg ∷ legs) executors start same =
      elim (Option-cases (target leg executors)) [
        | inl h ↦
            let rest = cancel_legs_lem id (i + 1) repo legs executors start same in
            let missed : is_some (target leg start) ≡ false = rw (← same leg, h) refl in
            rw (h, cancel_legs, missed, rest) refl
        | inr ((n, e), h) ↦
            let rest =
              cancel_legs_lem id (i + 1) repo legs (insert leg.venue (cancel_trade n e).0 executors)
                start
                (λ l.
                  target-insert executors leg.venue e (cancel_trade n e).0 l
                    (target-venue executors leg n e h)
                  ∙ same l) in
            let hit : is_some (target leg start) ≡ true = rw (← same leg, h) refl in
            rw (h, cancel_legs, hit, rest) refl
      ]

  -- Cancelling a basket that is there marks as cancelled each leg that has an order at a venue with an
  -- executor, and keeps any other as it is; the basket's status is cancelled whatever its legs say,
  -- and the basket is kept under its id.
  pub cancel_basket_lem :
      (id : String) (x : BasketExecutor) (basket : OrderBasket)
      → lookup id x.baskets ≡ some basket
      → let done = record basket {
        legs = map (after_cancel x.executors) basket.legs;
        status = all_cancelled;
      } in
        ((cancel_basket id x).1 ≡ some done)
        × (lookup id (cancel_basket id x).0.baskets ≡ some done)
  unfolding cancel_basket
  cancel_basket_lem id x basket h =
      rw
        (
          h,
          cancel_basket,
          cancel_legs_lem id 0 x.has_repository basket.legs x.executors x.executors (λ l. refl),
        )
        (
          refl,
          lookup-insert_self id
              (record basket {
                legs = map (after_cancel x.executors) basket.legs;
                status = all_cancelled;
              })
              x.baskets,
        )
