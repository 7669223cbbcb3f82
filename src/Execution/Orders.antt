-- ===== src/Execution/Orders.antt =====
-- `OrderManager` (modules/execution_engine/order_manager.py) and `ContractExecutor`
-- (modules/execution_engine/contract_executor.py). The text `order_{n}` of an order id is kept as the
-- number n. What the exchange answers is the record `Exchange`: `place_order` raises or gives an id.
pub mod Laws
use poly_bob.Base.{
  ℕ, zero, suc, ◌+◌, ◌-◌, ◌*◌, ◌/◌, ◌%◌, ◌≤◌, ◌<◌, ◌≡◌, refl, sym, ap, ◌∙◌, ◌≢◌, ◌↔◌, ◌⊎◌, inl, inr,
  Bool, true, false, not, ◌&&◌, ◌||◌, Option, some, none, if◌then◌else◌, arith, String, List, [],
  ◌∷◌, ◌++◌, map, append-nil, append_assoc, ◌==◌, Eq, nat_eq, string_eq, get_or, or_else, All,
  All-imp, All-append, is_some, is_empty, length, any, all, keep, count, Bool-cases, Option-cases,
  ltb, leb, length-append, found, some_pair, or_str, is_text,
}
use poly_bob.Base.Dict.{
  Dict, lookup, insert, erase, IsUnique, insert-IsUnique, lookup-insert, lookup-insert_self,
  lookup-insert_ne, lookup-erase, erase-IsUnique,
}
use poly_bob.Base.Float.{
  Floats, Float, ◌≤f◌, ◌<f◌, ◌+f◌, ◌-f◌, ◌*f◌, ◌/f◌, ◌==f◌, lit, 0f, 1f, abs, lt_asymm, ==f_iff,
}

pub data OrderStatus : Type 0 where
  pending submitted filled cancelled : OrderStatus

-- "LIMIT" or "MARKET"
pub data OrderType : Type 0 where
  limit market : OrderType

-- The times of creation and of the fill are left out.
module _ ⦃fl : Floats⦄ where
  pub record Order : Type 0 where
    pub order_id : ℕ
    pub market_id : String
    pub side : String
    pub price : Float
    pub size : Float
    pub status : OrderStatus
    pub exchange_order_id : Option String

  pub record OrderManager : Type 0 where
    pub orders : Dict ℕ Order
    pub order_counter : ℕ

  abbrev pub no_orders : OrderManager
  no_orders = record { orders = []; order_counter = 0 }

  unfoldable pub create_order : String → String → Float → Float → OrderManager → OrderManager × ℕ
  create_order market_id side price size m =
      let n = m.order_counter + 1 in
      let order : Order = record {
        order_id = n;
        market_id = market_id;
        side = side;
        price = price;
        size = size;
        status = pending;
        exchange_order_id = none;
      } in
      (record { orders = insert n order m.orders; order_counter = n }, n)

  -- `submit_order` and `fill_order`: the status of an order that is there.
  abbrev pub set_status : OrderStatus → ℕ → OrderManager → OrderManager × Bool
  set_status status n m = elim (lookup n m.orders) [
    | none ↦ (m, false)
    | some order ↦
        (record m { orders = insert n (record order { status = status }) m.orders }, true)
  ]

  unfoldable pub submit_order : ℕ → OrderManager → OrderManager × Bool
  submit_order n m = set_status submitted n m

  unfoldable pub fill_order : ℕ → OrderManager → OrderManager × Bool
  fill_order n m = set_status filled n m

  unfoldable pub get_order : ℕ → OrderManager → Option Order
  get_order n m = lookup n m.orders

  -- The client of an exchange; `call` tells one call from another.
  pub record Exchange : Type 0 where
    pub place :
        (call : ℕ) (symbol side : String) (price size : Float) (kind : OrderType) → Option String
    pub cancel : (exchange_order_id market_id : String) → Bool

  pub record ContractExecutor : Type 0 where
    pub client : Exchange
    pub order_manager : OrderManager
    pub paper_trading : Bool
    pub available : Bool

  -- `order.exchange_order_id = …`, on the order that the manager holds
  abbrev pub set_exchange_id : String → ℕ → OrderManager → OrderManager
  set_exchange_id id n m = elim (lookup n m.orders) [
    | none ↦ m
    | some order ↦ record m {
      orders = insert n (record order { exchange_order_id = some id }) m.orders;
    }
  ]

  -- The order's number, or none where the call raises; the order that was created stays pending.
  unfoldable pub execute_trade :
      String → String → Float → Float → OrderType → ContractExecutor → ContractExecutor × Option ℕ
  execute_trade symbol side price size kind e =
      let (m, n) = create_order symbol side price size e.order_manager in
      elim (e.client.place n symbol side price size kind) [
        | none ↦ (record e { order_manager = m }, none)
        | some id ↦
            (record e { order_manager = (submit_order n (set_exchange_id id n m)).0 }, some n)
      ]

  -- `not order or not order.exchange_order_id`
  abbrev cancel_order : ContractExecutor → ℕ → Option Order → ContractExecutor × Bool
  cancel_order e n none = (e, false)
  cancel_order e n (some order) =
      let id = get_or order.exchange_order_id "" in
      if id == ""
      then (e, false)
      else if e.client.cancel id order.market_id
      then (record e { order_manager = (set_status cancelled n e.order_manager).0 }, true)
      else (e, false)

  unfoldable pub cancel_trade : ℕ → ContractExecutor → ContractExecutor × Bool
  unfolding get_order
  cancel_trade n e = cancel_order e n (get_order n e.order_manager)

  -- The status in what `get_order_status` answers.
  unfoldable pub get_order_status : ℕ → ContractExecutor → Option OrderStatus
  unfolding get_order
  get_order_status n e = elim (get_order n e.order_manager) [
    | none ↦ none
    | some order ↦ some order.status
  ]
