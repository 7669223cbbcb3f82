-- ===== src/Execution/Basket/Submit.antt =====
-- `submit_basket` of `BasketExecutor` (modules/execution_engine/basket_executor.py).
use poly_bob.Base.{
  ℕ, ◌+◌, Bool, true, false, not, Option, some, none, if◌then◌else◌, String, List, [], ◌∷◌, ◌++◌,
  nat_eq, string_eq, get_or, length, or_str,
}
use poly_bob.Base.Dict.{Dict, lookup, insert}
use poly_bob.Base.Float.{Floats, Float, 0f}
use poly_bob.Execution.Orders.{
  OrderStatus, submitted, OrderType, limit, market, ContractExecutor, execute_trade,
  get_order_status,
}
use poly_bob.Execution.Basket.{
  Venue, venue_eq, LegStatus, pending_submit, rejected, unavailable, order, is_filled, OrderLeg,
  submitting, OrderBasket, LegRequest, Effect, saved, leg_saved, status_saved, leg_updated,
  basket_submitted, BasketExecutor, persist, derive_status,
}

module _ ⦃fl : Floats⦄ where
  -- The first loop: none where a venue is unknown, before anything is kept. A missing or empty `leg_id` is
  -- made of the basket's id and the index.
  unfoldable pub make_legs : List LegRequest → Option (List OrderLeg)
  make_legs [] = some []
  make_legs (q ∷ qs) = elim q.venue [
    | none ↦ none
    | some venue ↦ elim (make_legs qs) [
      | none ↦ none
      | some legs ↦ some (
          record {
            leg_id = or_str q.leg_id none;
            venue = venue;
            symbol = q.symbol;
            side = q.side;
            quantity = q.quantity;
            limit_price = q.limit_price;
            status = pending_submit;
            client_order_id = none;
          }
          ∷ legs)
    ]
  ]

  -- One leg: the leg, the executors, the effects, and whether the round came to its end.
  pub record Round : Type 0 where
    pub leg : OrderLeg
    pub executors : Dict Venue ContractExecutor
    pub effects : List Effect
    pub finished : Bool

  abbrev pub order_type : Option Float → OrderType
  order_type none = market
  order_type (some _) = limit

  abbrev pub status_or_submitted : Option OrderStatus → LegStatus
  status_or_submitted none = order submitted
  status_or_submitted (some s) = order s

  -- The round behind a successful `execute_trade`.
  abbrev placed :
      String → ℕ → Bool → OrderLeg → ℕ → Dict Venue ContractExecutor → ContractExecutor → Round
  placed basket_id index repo leg n executors e =
      let status = status_or_submitted (get_order_status n e) in
      record {
        leg = record leg { status = status; client_order_id = some n };
        executors = executors;
        effects =
            persist repo (
              leg_saved basket_id index (record leg { status = status; client_order_id = some n })
                (is_filled status))
            ++ leg_updated basket_id status (some n) ∷ [];
        finished = true;
      }

  abbrev pub attempt :
      String → ℕ → Bool → OrderLeg → Dict Venue ContractExecutor → ContractExecutor → Round
  attempt basket_id index repo leg executors e =
      let (e', answer) =
        execute_trade leg.symbol leg.side (get_or leg.limit_price 0f) leg.quantity
          (order_type leg.limit_price) e in
      let executors' = insert leg.venue e' executors in
      elim answer [
        | none ↦ record { leg = leg; executors = executors'; effects = []; finished = false }
        | some n ↦ placed basket_id index repo leg n executors' e'
      ]

  unfoldable pub submit_leg : String → ℕ → Bool → OrderLeg → Dict Venue ContractExecutor → Round
  submit_leg basket_id index repo leg executors = elim (lookup leg.venue executors) [
    | none ↦ record {
      leg = record leg { status = rejected };
      executors = executors;
      effects = persist repo (leg_saved basket_id index (record leg { status = rejected }) false);
      finished = true;
    }
    | some e ↦
        if not e.available
        then record {
          leg = record leg { status = unavailable };
          executors = executors;
          effects =
              persist repo (leg_saved basket_id index (record leg { status = unavailable }) false)
              ++ leg_updated basket_id unavailable leg.client_order_id ∷ [];
          finished = true;
        }
        else attempt basket_id index repo leg executors e
  ]

  pub record Rounds : Type 0 where
    pub legs : List OrderLeg
    pub executors : Dict Venue ContractExecutor
    pub effects : List Effect
    pub finished : Bool

  -- The second loop; a raise leaves the legs behind it as they were.
  unfoldable pub submit_legs :
      String → ℕ → Bool → List OrderLeg → Dict Venue ContractExecutor → Rounds
  submit_legs basket_id index repo [] executors = record {
    legs = [];
    executors = executors;
    effects = [];
    finished = true;
  }
  submit_legs basket_id index repo (leg ∷ legs) executors =
      let r = submit_leg basket_id index repo leg executors in
      let rest = submit_legs basket_id (index + 1) repo legs r.executors in
      if r.finished
      then record {
        legs = r.leg ∷ rest.legs;
        executors = rest.executors;
        effects = r.effects ++ rest.effects;
        finished = rest.finished;
      }
      else record {
        legs = r.leg ∷ legs;
        executors = r.executors;
        effects = r.effects;
        finished = false;
      }

  abbrev pub closed : BasketExecutor → OrderBasket → Rounds → BasketExecutor
  closed x basket r =
      let status = derive_status r.legs in
      let done = record basket { legs = r.legs; status = status } in
      record x {
        executors = r.executors;
        baskets = insert basket.basket_id done x.baskets;
        log =
            x.log
            ++ persist x.has_repository (saved basket)
            ++ r.effects
            ++ persist x.has_repository (status_saved basket.basket_id status)
            ++ basket_submitted basket.basket_id basket.parent_intent_id status (length r.legs)
              ∷ [];
      }

  abbrev pub broken : BasketExecutor → OrderBasket → Rounds → BasketExecutor
  broken x basket r = record x {
    executors = r.executors;
    baskets = insert basket.basket_id (record basket { legs = r.legs }) x.baskets;
    log = x.log ++ persist x.has_repository (saved basket) ++ r.effects;
  }

  abbrev pub submit_made :
      String → String → List OrderLeg → BasketExecutor → BasketExecutor × Option OrderBasket
  submit_made basket_id parent legs x =
      let basket : OrderBasket = record {
        basket_id = basket_id;
        parent_intent_id = parent;
        status = submitting;
        legs = legs;
      } in
      let r = submit_legs basket_id 0 x.has_repository legs x.executors in
      if r.finished
      then (
        closed x basket r,
        some (record basket { legs = r.legs; status = derive_status r.legs }),
      )
      else (broken x basket r, none)

  -- `submit_basket`: the basket that is returned, or none where the call raises.
  unfoldable pub submit_basket :
      (basket_id parent_intent_id : String)
      → List LegRequest
      → BasketExecutor
      → BasketExecutor × Option OrderBasket
  submit_basket basket_id parent requests x = elim (make_legs requests) [
    | none ↦ (x, none)
    | some legs ↦ submit_made basket_id parent legs x
  ]
