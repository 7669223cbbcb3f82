-- ===== src/Execution/Basket/Cancel.antt =====
-- `cancel_basket` of `BasketExecutor` (modules/execution_engine/basket_executor.py). An order id is
-- never an empty text, so a leg has one or has none.
use poly_bob.Base.{
  ℕ, ◌+◌, Bool, false, Option, some, none, String, List, [], ◌∷◌, ◌++◌, nat_eq, string_eq,
}
use poly_bob.Base.Dict.{Dict, lookup, insert}
use poly_bob.Base.Float.{Floats}
use poly_bob.Execution.Orders.{cancelled, ContractExecutor, cancel_trade}
use poly_bob.Execution.Basket.{
  Venue, venue_eq, order, OrderLeg, all_cancelled, OrderBasket, Effect, leg_saved, status_saved,
  BasketExecutor, persist,
}

module _ ⦃fl : Floats⦄ where
  -- `client_order_id` and `executors.get(leg.venue)`, where both are there.
  abbrev pub target : OrderLeg → Dict Venue ContractExecutor → Option (ℕ × ContractExecutor)
  target leg executors = elim leg.client_order_id [
    | none ↦ none
    | some n ↦ elim (lookup leg.venue executors) [ none ↦ none | some e ↦ some (n, e) ]
  ]

  pub record Cancelling : Type 0 where
    pub legs : List OrderLeg
    pub executors : Dict Venue ContractExecutor
    pub effects : List Effect

  -- The loop: what `cancel_trade` answers is not read.
  unfoldable pub cancel_legs :
      String → ℕ → Bool → List OrderLeg → Dict Venue ContractExecutor → Cancelling
  cancel_legs basket_id index repo [] executors = record {
    legs = [];
    executors = executors;
    effects = [];
  }
  cancel_legs basket_id index repo (leg ∷ legs) executors = elim (target leg executors) [
    | none ↦
        let rest = cancel_legs basket_id (index + 1) repo legs executors in
        record { legs = leg ∷ rest.legs; executors = rest.executors; effects = rest.effects }
    | some (n, e) ↦
        let rest =
          cancel_legs basket_id (index + 1) repo legs
            (insert leg.venue (cancel_trade n e).0 executors) in
        record {
          legs = record leg { status = order cancelled } ∷ rest.legs;
          executors = rest.executors;
          effects =
              persist repo
                (leg_saved basket_id index (record leg { status = order cancelled }) false)
              ++ rest.effects;
        }
  ]

  -- `cancel_basket`: no basket under the id raises KeyError.
  unfoldable pub cancel_basket : String → BasketExecutor → BasketExecutor × Option OrderBasket
  cancel_basket basket_id x = elim (lookup basket_id x.baskets) [
    | none ↦ (x, none)
    | some basket ↦
        let r = cancel_legs basket_id 0 x.has_repository basket.legs x.executors in
        let done = record basket { legs = r.legs; status = all_cancelled } in
        (
          record x {
            executors = r.executors;
            baskets = insert basket_id done x.baskets;
            log =
                x.log
                ++ r.effects
                ++ persist x.has_repository (status_saved basket_id all_cancelled);
          },
          some done,
        )
  ]
