-- ===== src/Tests/Orders.antt =====
-- A paper venue that takes every order, and an intent that goes to it.
use poly_bob.Base.{
  ℕ, ◌≡◌, refl, ◌≢◌, true, false, Option, some, none, List, [], ◌∷◌, map, nat_eq, string_eq, All,
  length,
}
use poly_bob.Base.Dict.{lookup, insert}
use poly_bob.Base.Float.{lit}
use poly_bob.Tests.Samples.{fixed_floats}
use poly_bob.Execution.Orders.{
  OrderType, market, limit, OrderStatus, pending, submitted, cancelled, OrderManager, Order,
  Exchange, ContractExecutor, no_orders, execute_trade, cancel_trade, get_order_status,
}
use poly_bob.Execution.Orders.Laws.{new_order, execute_trade_lem, cancel_trade_lem, CancelsOrKeeps}
use poly_bob.Execution.Basket.{
  rejected, order, partial_failure, Venue, paper, binance, venue_eq, OrderLeg, OrderBasket,
  all_cancelled, LegRequest, BasketExecutor,
}
use poly_bob.Execution.Basket.Submit.{submit_basket}
use poly_bob.Execution.Basket.Laws.{SettledBy}
use poly_bob.Execution.Basket.Asked.{asked, named}
use poly_bob.Execution.Basket.Outcome.{settled_status, submit_basket_settles}
use poly_bob.Execution.Basket.Cancel.{cancel_basket}
use poly_bob.Execution.Basket.Cancelled.{after_cancel, cancel_basket_lem}

abbrev exchange : Exchange
exchange = record { place = λ n a b p s k. some "x1"; cancel = λ id m. false }

abbrev pub executor : ContractExecutor
executor = record {
  client = exchange;
  order_manager = no_orders;
  paper_trading = true;
  available = true;
}

execute_trade_lem_example :
    let answer = executor.client.place 1 "rain" "buy" (lit 5 1) (lit 10 0) limit in
    let (e', r) = execute_trade "rain" "buy" (lit 5 1) (lit 10 0) limit executor in
    (r ≡ (elim answer [ none ↦ none | some _ ↦ some 1 ]))
    × (e'.order_manager.order_counter ≡ 1)
    × (lookup 1 e'.order_manager.orders
        ≡ some (
            new_order 1 "rain" "buy"
              (lit 5 1)
              (lit 10 0)
              (elim answer [ none ↦ pending | some _ ↦ submitted ])
              answer))
    × ((j : ℕ) → j ≢ 1 → lookup j e'.order_manager.orders ≡ lookup j executor.order_manager.orders)
execute_trade_lem_example = execute_trade_lem "rain" "buy" (lit 5 1) (lit 10 0) limit executor

abbrev traded : ContractExecutor
traded = (execute_trade "rain" "buy" (lit 5 1) (lit 10 0) limit executor).0

-- The order that was sent, at an exchange that cancels.
abbrev cancelling : ContractExecutor
cancelling = record traded { client = record exchange { cancel = λ id m. true } }

cancel_trade_lem_example : CancelsOrKeeps 1 cancelling (cancel_trade 1 cancelling)
cancel_trade_lem_example = cancel_trade_lem 1 cancelling

is_cancelled_now : get_order_status 1 (cancel_trade 1 cancelling).0 ≡ some cancelled
unfolding get_order_status cancel_trade execute_trade lookup insert
    poly_bob.Execution.Orders.get_order poly_bob.Execution.Orders.create_order
    poly_bob.Execution.Orders.submit_order
is_cancelled_now = refl

abbrev pub desk : BasketExecutor
desk = record { executors = (paper, executor) ∷ []; has_repository = false; baskets = []; log = [] }

abbrev request : Venue → LegRequest
request v = record {
  leg_id = none;
  venue = some v;
  symbol = "rain";
  side = "buy";
  quantity = lit 10 0;
  limit_price = some (lit 5 1);
}

-- The second leg has no executor.
abbrev pub two_legs : List LegRequest
two_legs = request paper ∷ request binance ∷ []

abbrev pub made : BasketExecutor × Option OrderBasket
made = submit_basket "b1" "i1" two_legs desk

abbrev made_basket : OrderBasket
made_basket = record {
  basket_id = "b1";
  parent_intent_id = "i1";
  status = partial_failure;
  legs =
      record {
        leg_id = none;
        venue = paper;
        symbol = "rain";
        side = "buy";
        quantity = lit 10 0;
        limit_price = some (lit 5 1);
        status = order submitted;
        client_order_id = some 1;
      }
      ∷ record {
        leg_id = none;
        venue = binance;
        symbol = "rain";
        side = "buy";
        quantity = lit 10 0;
        limit_price = some (lit 5 1);
        status = rejected;
        client_order_id = none;
      }
      ∷ [];
}

makes : made ≡ (made.0, some made_basket)
unfolding submit_basket poly_bob.Execution.Basket.Submit.make_legs
    poly_bob.Execution.Basket.Submit.submit_legs poly_bob.Execution.Basket.Submit.submit_leg lookup
    execute_trade insert poly_bob.Execution.Basket.derive_status get_order_status
    poly_bob.Execution.Orders.submit_order poly_bob.Execution.Orders.create_order
makes = refl

submit_basket_settles_example :
    All (SettledBy desk.executors) made_basket.legs
    × (length made_basket.legs ≡ length two_legs)
    × (map asked made_basket.legs ≡ map named two_legs)
    × (made_basket.status ≡ settled_status desk.executors made_basket.legs)
    × (lookup "b1" made.0.baskets ≡ some made_basket)
submit_basket_settles_example =
    submit_basket_settles "b1" "i1" two_legs desk made.0 made_basket makes

kept_basket : lookup "b1" made.0.baskets ≡ some made_basket
unfolding lookup submit_basket poly_bob.Execution.Basket.Submit.make_legs
    poly_bob.Execution.Basket.Submit.submit_legs poly_bob.Execution.Basket.Submit.submit_leg
    execute_trade insert poly_bob.Execution.Basket.derive_status get_order_status
    poly_bob.Execution.Orders.submit_order poly_bob.Execution.Orders.create_order
kept_basket = refl

-- The exchange of the samples refuses every cancellation; the leg is marked all the same.
cancel_basket_lem_example :
    let done = record made_basket {
      legs = map (after_cancel made.0.executors) made_basket.legs;
      status = all_cancelled;
    } in
    ((cancel_basket "b1" made.0).1 ≡ some done)
    × (lookup "b1" (cancel_basket "b1" made.0).0.baskets ≡ some done)
cancel_basket_lem_example = cancel_basket_lem "b1" made.0 made_basket kept_basket
