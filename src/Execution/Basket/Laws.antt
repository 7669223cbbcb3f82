-- ===== src/Execution/Basket/Laws.antt =====
-- How a submitted basket ends: what becomes of each leg, and what its status then says.
use poly_bob.Base.{
  ℕ, suc, ◌+◌, ◌≡◌, refl, ap, ◌∙◌, inl, inr, Bool, true, false, Option, some, none, arith, String,
  List, [], ◌∷◌, nat_eq, string_eq, get_or, All, is_some, length, Bool-cases, Option-cases,
}
use poly_bob.Base.Dict.{Dict, lookup, insert, lookup-insert}
use poly_bob.Base.Float.{Floats, Float, 0f}
use poly_bob.Execution.Orders.{
  Order, pending, OrderType, submitted, ContractExecutor, execute_trade, get_order_status,
  get_order,
}
use poly_bob.Execution.Orders.Laws.{new_order, execute_trade_lem}
use poly_bob.Execution.Basket.{
  Venue, venue_beq, venue_eq, rejected, unavailable, order, OrderLeg, LegRequest,
}
use poly_bob.Execution.Basket.Submit.{
  make_legs, Round, attempt, order_type, submit_leg, submit_legs,
}

module _ ⦃fl : Floats⦄ where
  -- Whether a venue has an executor, and then whether it is available.
  abbrev pub available_at : Venue → Dict Venue ContractExecutor → Option Bool
  available_at v executors = elim (lookup v executors) [ none ↦ none | some e ↦ some e.available ]

  -- A leg without an executor is rejected, one of an unavailable venue is marked so, and neither has
  -- an order; any other is submitted and has an order.
  abbrev pub IsSettled : Option Bool → OrderLeg → Type 0
  IsSettled none leg = (leg.status ≡ rejected) × (leg.client_order_id ≡ none)
  IsSettled (some false) leg = (leg.status ≡ unavailable) × (leg.client_order_id ≡ none)
  IsSettled (some true) leg = (leg.status ≡ order submitted) × (is_some leg.client_order_id ≡ true)

  execute_trade-available :
      (symbol side : String) (p s : Float) (k : OrderType) (e : ContractExecutor)
      → (execute_trade symbol side p s k e).0.available ≡ e.available
  unfolding execute_trade
  execute_trade-available symbol side p s k e = ground arith

  get_order_status_lem :
      (n : ℕ) (e : ContractExecutor) (o : Order)
      → lookup n e.order_manager.orders ≡ some o
      → get_order_status n e ≡ some o.status
  unfolding get_order_status get_order
  get_order_status_lem n e o h = rw (h, get_order_status, get_order) refl

  -- A round that comes to its end has an order that the exchange took.
  attempt_settles :
      (id : String) (i : ℕ) (repo : Bool) (leg : OrderLeg) (executors : Dict Venue ContractExecutor)
      (e : ContractExecutor)
      → (attempt id i repo leg executors e).finished ≡ true
      → IsSettled (some true) (attempt id i repo leg executors e).leg
  attempt_settles id i repo leg executors e ends =
      let p : Float = get_or leg.limit_price 0f in
      let k : OrderType = order_type leg.limit_price in
      let n : ℕ = e.order_manager.order_counter + 1 in
      let e' : ContractExecutor = (execute_trade leg.symbol leg.side p leg.quantity k e).0 in
      let (answer, _, here, _) = execute_trade_lem leg.symbol leg.side p leg.quantity k e in
      elim (Option-cases (e.client.place n leg.symbol leg.side p leg.quantity k)) [
        | inl fails ↦ ground (arith, answer, fails)
        | inr (x, takes) ↦
            let a : (execute_trade leg.symbol leg.side p leg.quantity k e).1 ≡ some n =
              ground (arith, answer, takes) in
            let s : get_order_status n e' ≡ some submitted =
              get_order_status_lem n e'
                (new_order n leg.symbol leg.side p leg.quantity
                  (elim (e.client.place n leg.symbol leg.side p leg.quantity k) [
                    | none ↦ pending
                    | some _ ↦ submitted
                  ])
                  (e.client.place n leg.symbol leg.side p leg.quantity k))
                here
              ∙ ap (λ x. some (elim x [ none ↦ pending | some _ ↦ submitted ])) takes in
            rw (attempt, a, s) (refl, refl)
      ]

  attempt-executors :
      (id : String) (i : ℕ) (repo : Bool) (leg : OrderLeg) (executors : Dict Venue ContractExecutor)
      (e : ContractExecutor)
      → (attempt id i repo leg executors e).executors
        ≡ insert leg.venue
            (execute_trade leg.symbol leg.side
              (get_or leg.limit_price 0f)
              leg.quantity
              (order_type leg.limit_price)
              e).0
            executors
  attempt-executors id i repo leg executors e =
      elim (Option-cases
        (execute_trade leg.symbol leg.side (get_or leg.limit_price 0f) leg.quantity
          (order_type leg.limit_price) e).1) [
            | inl h ↦ rw (attempt, h) refl
            | inr (n, h) ↦ rw (attempt, h) refl
          ]

  available_at-insert :
      (v w : Venue) (e e' : ContractExecutor) (d : Dict Venue ContractExecutor)
      → lookup w d ≡ some e
      → e'.available ≡ e.available
      → available_at v (insert w e' d) ≡ available_at v d
  available_at-insert v w e e' d h same = elim (Bool-cases (venue_beq w v)) [
    | inl eq ↦
        rw (available_at, lookup-insert w v e' d, eq, ← (venue_eq.beq_iff w v).0 eq, h, same) refl
    | inr ne ↦ rw (available_at, lookup-insert w v e' d, ne) refl
  ]

  -- What `submit_leg` does for a venue that is available.
  pub submit_leg_attempts :
      (id : String) (i : ℕ) (repo : Bool) (leg : OrderLeg) (executors : Dict Venue ContractExecutor)
      (e : ContractExecutor)
      → lookup leg.venue executors ≡ some e
      → e.available ≡ true
      → submit_leg id i repo leg executors ≡ attempt id i repo leg executors e
  unfolding submit_leg
  submit_leg_attempts id i repo leg executors e h a = ground (arith)

  submit_leg-available_at :
      (id : String) (i : ℕ) (repo : Bool) (leg : OrderLeg) (executors : Dict Venue ContractExecutor)
      (v : Venue)
      → available_at v (submit_leg id i repo leg executors).executors ≡ available_at v executors
  unfolding submit_leg
  submit_leg-available_at id i repo leg executors v =
      elim (Option-cases (lookup leg.venue executors)) [
        | inl h ↦ rw (h, submit_leg) refl
        | inr (e, h) ↦ elim (Bool-cases e.available) [
          | inl a ↦
              let p : Float = get_or leg.limit_price 0f in
              let k : OrderType = order_type leg.limit_price in
              rw
                (
                  submit_leg_attempts id i repo leg executors e h a,
                  attempt-executors id i repo leg executors e,
                )
                (available_at-insert v leg.venue e
                  (execute_trade leg.symbol leg.side p leg.quantity k e).0 executors h
                  (execute_trade-available leg.symbol leg.side p leg.quantity k e))
          | inr a ↦ rw (h, a, submit_leg) refl
        ]
      ]

  pub submit_leg_settles :
      (id : String) (i : ℕ) (repo : Bool) (leg : OrderLeg) (executors : Dict Venue ContractExecutor)
      → leg.client_order_id ≡ none
      → (submit_leg id i repo leg executors).finished ≡ true
      → IsSettled (available_at leg.venue executors) (submit_leg id i repo leg executors).leg
  unfolding submit_leg
  submit_leg_settles id i repo leg executors new ends =
      elim (Option-cases (lookup leg.venue executors)) [
        | inl h ↦ rw (h, available_at, submit_leg) (refl, new)
        | inr (e, h) ↦ elim (Bool-cases e.available) [
          | inl a ↦
              let same : submit_leg id i repo leg executors ≡ attempt id i repo leg executors e =
                submit_leg_attempts id i repo leg executors e h a in
              let ends' : (attempt id i repo leg executors e).finished ≡ true = rw (← same) ends in
              let there : available_at leg.venue executors ≡ some true = ground (arith) in
              rw (there, same) (attempt_settles id i repo leg executors e ends')
          | inr a ↦ rw (h, a, available_at, submit_leg) (refl, new)
        ]
      ]

  attempt-venue :
      (id : String) (i : ℕ) (repo : Bool) (leg : OrderLeg) (executors : Dict Venue ContractExecutor)
      (e : ContractExecutor)
      → (attempt id i repo leg executors e).leg.venue ≡ leg.venue
  attempt-venue id i repo leg executors e =
      elim (Option-cases
        (execute_trade leg.symbol leg.side (get_or leg.limit_price 0f) leg.quantity
          (order_type leg.limit_price) e).1) [
            | inl h ↦ rw (attempt, h) refl
            | inr (n, h) ↦ rw (attempt, h) refl
          ]

  submit_leg-venue :
      (id : String) (i : ℕ) (repo : Bool) (leg : OrderLeg) (executors : Dict Venue ContractExecutor)
      → (submit_leg id i repo leg executors).leg.venue ≡ leg.venue
  unfolding submit_leg
  submit_leg-venue id i repo leg executors = elim (Option-cases (lookup leg.venue executors)) [
    | inl h ↦ rw (h, submit_leg) refl
    | inr (e, h) ↦ elim (Bool-cases e.available) [
      | inl a ↦
          rw (submit_leg_attempts id i repo leg executors e h a)
            (attempt-venue id i repo leg executors e)
      | inr a ↦ rw (h, a, submit_leg) refl
    ]
  ]

  abbrev pub IsNew : OrderLeg → Type 0
  IsNew leg = leg.client_order_id ≡ none

  abbrev pub SettledBy : Dict Venue ContractExecutor → OrderLeg → Type 0
  SettledBy executors leg = IsSettled (available_at leg.venue executors) leg

  -- The legs are settled one after the other, by the executors as they were before the first.
  pub submit_legs_settles :
      (id : String) (i : ℕ) (repo : Bool) (legs : List OrderLeg)
      (executors start : Dict Venue ContractExecutor)
      → ((v : Venue) → available_at v executors ≡ available_at v start)
      → All IsNew legs
      → (submit_legs id i repo legs executors).finished ≡ true
      → All (SettledBy start) (submit_legs id i repo legs executors).legs
        × (length (submit_legs id i repo legs executors).legs ≡ length legs)
  unfolding submit_legs
  submit_legs_settles id i repo [] executors start same new ends = (tt, refl)
  submit_legs_settles id i repo (leg ∷ legs) executors start same new ends =
      elim (Bool-cases (submit_leg id i repo leg executors).finished) [
        | inl f ↦
            let r : Round = submit_leg id i repo leg executors in
            let ends' : (submit_legs id (i + 1) repo legs r.executors).finished ≡ true =
              ground (arith) in
            let same' : (v : Venue) → available_at v r.executors ≡ available_at v start =
              λ v. submit_leg-available_at id i repo leg executors v ∙ same v in
            let rest =
              submit_legs_settles id (i + 1) repo legs r.executors start same' new.1 ends' in
            let here : IsSettled (available_at leg.venue executors) r.leg =
              submit_leg_settles id i repo leg executors new.0 f in
            let here' : SettledBy start r.leg =
              rw (SettledBy, submit_leg-venue id i repo leg executors, ← same leg.venue) here in
            rw (submit_legs, f) ((here', rest.0), ap suc rest.1)
        | inr f ↦ ground (arith)
      ]

  pub make_legs-IsNew :
      (requests : List LegRequest) (legs : List OrderLeg)
      → make_legs requests ≡ some legs
      → All IsNew legs × (length legs ≡ length requests)
  unfolding make_legs
  make_legs-IsNew [] legs h = ground (arith)
  make_legs-IsNew (q ∷ qs) legs h = elim (Option-cases q.venue) [
    | inl none_here ↦ ground (arith)
    | inr (v, here) ↦ elim (Option-cases (make_legs qs)) [
      | inl fails ↦ ground (arith)
      | inr (ls, made) ↦ let rest = make_legs-IsNew qs ls made in ground (arith)
    ]
  ]
