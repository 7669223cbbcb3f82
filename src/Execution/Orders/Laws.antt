-- ===== src/Execution/Orders/Laws.antt =====
-- What the executor of a venue does to its orders.
use poly_bob.Base.{
  true, false, not, ◌||◌, ◌⊎◌, ◌==◌, get_or, Bool, ℕ, ◌+◌, ◌≡◌, refl, sym, subst, ◌∙◌, ◌≢◌, inl,
  inr, Option, some, none, arith, String, nat_eq, string_eq, Bool-cases, Option-cases,
}
use poly_bob.Base.Dict.{Dict, lookup, insert, lookup-insert_self, lookup-insert_ne}
use poly_bob.Base.Float.{Floats, Float}
use poly_bob.Execution.Orders.{
  Order, OrderStatus, pending, submitted, cancelled, OrderType, OrderManager, create_order,
  set_status, submit_order, ContractExecutor, set_exchange_id, execute_trade, cancel_trade,
  get_order,
}

module _ ⦃fl : Floats⦄ where
  -- The order that `execute_trade` makes, before and after the exchange answers.
  abbrev pub new_order : ℕ → String → String → Float → Float → OrderStatus → Option String → Order
  new_order n symbol side price size status id = record {
    order_id = n;
    market_id = symbol;
    side = side;
    price = price;
    size = size;
    status = status;
    exchange_order_id = id;
  }

  set_exchange_id_lem :
      (id : String) (n : ℕ) (m : OrderManager) (o : Order)
      → lookup n m.orders ≡ some o
      → set_exchange_id id n m
        ≡ record m { orders = insert n (record o { exchange_order_id = some id }) m.orders }
  set_exchange_id_lem id n m o h = rw (h, set_exchange_id)

  submit_order_lem :
      (n : ℕ) (m : OrderManager) (o : Order)
      → lookup n m.orders ≡ some o
      → (submit_order n m).0
        ≡ record m { orders = insert n (record o { status = submitted }) m.orders }
  unfolding submit_order
  submit_order_lem n m o h = rw (h, set_status)

  -- A trade takes the next order number and leaves every other order as it is. If the exchange gives
  -- an id, the call returns the number, and the order is submitted under that id; if it raises, so
  -- does the call, and the order stays behind as pending.
  pub execute_trade_lem :
      (symbol side : String) (price size : Float) (kind : OrderType) (e : ContractExecutor)
      → let n = e.order_manager.order_counter + 1 in
        let answer = e.client.place n symbol side price size kind in
        let (e', r) = execute_trade symbol side price size kind e in
        (r ≡ (elim answer [ none ↦ none | some _ ↦ some n ]))
        × (e'.order_manager.order_counter ≡ n)
        × (lookup n e'.order_manager.orders
            ≡ some (
                new_order n symbol side price size
                  (elim answer [ none ↦ pending | some _ ↦ submitted ])
                  answer))
        × ((j : ℕ) → j ≢ n → lookup j e'.order_manager.orders ≡ lookup j e.order_manager.orders)
  unfolding execute_trade create_order
  execute_trade_lem symbol side price size kind e =
      let n : ℕ = e.order_manager.order_counter + 1 in
      let d0 : Dict ℕ Order = e.order_manager.orders in
      let o1 : Order = new_order n symbol side price size pending none in
      let d1 : Dict ℕ Order = insert n o1 d0 in
      elim (Option-cases (e.client.place n symbol side price size kind)) [
        | inl fails ↦
            rw (fails, execute_trade)
              (
                refl,
                refl,
                lookup-insert_self n o1 d0,
                (λ j h. lookup-insert_ne n j o1 d0 (λ k. h (sym k))),
              )
        | inr (id, answers) ↦
            let o2 : Order = new_order n symbol side price size pending (some id) in
            let d2 : Dict ℕ Order = insert n o2 d1 in
            let o3 : Order = new_order n symbol side price size submitted (some id) in
            let m1 : OrderManager = record { orders = d1; order_counter = n } in
            let m2 : OrderManager = record { orders = d2; order_counter = n } in
            rw
              (
                answers,
                execute_trade,
                set_exchange_id_lem id n m1 o1 (lookup-insert_self n o1 d0),
                submit_order_lem n m2 o2 (lookup-insert_self n o2 d1),
              )
              (
                refl,
                refl,
                lookup-insert_self n o3 d2,
                (λ j h.
                    let ne : n ≢ j = λ k. h (sym k) in
                    lookup-insert_ne n j o3 d2 ne
                    ∙ (lookup-insert_ne n j o2 d1 ne ∙ lookup-insert_ne n j o1 d0 ne)),
              )
      ]

  -- An order that stands under a number with an exchange id that is not empty, and that the exchange
  -- cancels when it is asked.
  abbrev pub IsCancellable : ℕ → ContractExecutor → Order → Type 0
  IsCancellable n e order =
      (lookup n e.order_manager.orders ≡ some order)
      × (id : String) × (order.exchange_order_id ≡ some id)
      × (id ≢ "")
      × (e.client.cancel id order.market_id ≡ true)

  -- From one executor to the next an order is cancelled, and nothing else is changed: neither a field of
  -- that order, nor another order, nor the counter, nor the rest of the executor.
  abbrev pub Cancels : ℕ → Order → ContractExecutor → ContractExecutor → Type 0
  Cancels n order e e' =
      (lookup n e'.order_manager.orders ≡ some (record order { status = cancelled }))
      × ((j : ℕ) → j ≢ n → lookup j e'.order_manager.orders ≡ lookup j e.order_manager.orders)
      × (e'.order_manager.order_counter ≡ e.order_manager.order_counter)
      × (e'.client ≡ e.client)
      × (e'.paper_trading ≡ e.paper_trading)
      × (e'.available ≡ e.available)

  -- An order that the exchange is not asked to cancel, or refuses to.
  not-IsCancellable :
      (n : ℕ) (e : ContractExecutor) (order : Order) (id : String)
      → lookup n e.order_manager.orders ≡ some order
      → get_or order.exchange_order_id "" ≡ id
      → ((id == "") || not (e.client.cancel id order.market_id)) ≡ true
      → (o : Order) → ¬ IsCancellable n e o
  not-IsCancellable n e order id here own fails o (there, k, known, ne, takes) =
      ground (arith, string_eq.beq_iff id "", here, there, known, takes, ne)

  -- A cancellable order is cancelled and the answer is true, or there is none, the answer is false and
  -- the executor is as before.
  abbrev pub CancelsOrKeeps : ℕ → ContractExecutor → ContractExecutor × Bool → Type 0
  CancelsOrKeeps n e (e', r) =
      ((r ≡ true) × (order : Order) × IsCancellable n e order × Cancels n order e e')
      ⊎ ((r ≡ false) × ((order : Order) → ¬ IsCancellable n e order) × (e' ≡ e))

  cancel_trade_keeps :
      (n : ℕ) (e : ContractExecutor) (order : Order)
      → lookup n e.order_manager.orders ≡ some order
      → ((get_or order.exchange_order_id "" == "")
          || not (e.client.cancel (get_or order.exchange_order_id "") order.market_id))
        ≡ true
      → cancel_trade n e ≡ (e, false)
  unfolding cancel_trade get_order
  cancel_trade_keeps n e order here fails = ground (arith, here, fails)

  cancel_trade_takes :
      (n : ℕ) (e : ContractExecutor) (order : Order)
      → lookup n e.order_manager.orders ≡ some order
      → (get_or order.exchange_order_id "" == "") ≡ false
      → e.client.cancel (get_or order.exchange_order_id "") order.market_id ≡ true
      → cancel_trade n e ≡ (
        record e {
          order_manager = record e.order_manager {
            orders = insert n (record order { status = cancelled }) e.order_manager.orders;
          };
        },
        true,
      )
  unfolding cancel_trade get_order
  cancel_trade_takes n e order here known takes = ground (arith, here, known, takes)

  -- Whatever the number, `cancel_trade` answers true where a cancellable order stands under it, and then
  -- cancels that order and changes nothing else; and it answers false where none does, and then leaves
  -- the executor as it is.
  pub cancel_trade_lem : (n : ℕ) (e : ContractExecutor) → CancelsOrKeeps n e (cancel_trade n e)
  unfolding cancel_trade get_order
  cancel_trade_lem n e = elim (Option-cases (lookup n e.order_manager.orders)) [
    | inl absent ↦
        let none_there : (o : Order) → ¬ IsCancellable n e o = λ o c. ground (arith, c.0) in
        subst (CancelsOrKeeps n e) (rw (absent, cancel_trade, get_order) refl)
          (inr (refl, none_there, refl))
    | inr (order, here) ↦
        let id : String = get_or order.exchange_order_id "" in
        let fails : Bool = (id == "") || not (e.client.cancel id order.market_id) in
        elim (Bool-cases fails) [
          | inl kept ↦
              subst (CancelsOrKeeps n e) (sym (cancel_trade_keeps n e order here kept))
                (inr (refl, not-IsCancellable n e order id here refl kept, refl))
          | inr taken ↦
              let known : (id == "") ≡ false = ground (arith) in
              let takes : e.client.cancel id order.market_id ≡ true = ground (arith) in
              let d : Dict ℕ Order = e.order_manager.orders in
              let o' : Order = record order { status = cancelled } in
              let there : (order.exchange_order_id ≡ some id) × (id ≢ "") =
                ground (arith, string_eq.beq_iff id "") in
              subst (CancelsOrKeeps n e) (sym (cancel_trade_takes n e order here known takes)) (
                inl (
                  refl,
                  order,
                  (here, id, there.0, there.1, takes),
                  (
                    lookup-insert_self n o' d,
                    (λ j h. lookup-insert_ne n j o' d (λ k. h (sym k))),
                    refl,
                    refl,
                    refl,
                    refl,
                  ),
                ))
        ]
  ]
