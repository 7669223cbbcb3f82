-- ===== src/Execution/Basket/Asked.antt =====
-- What a submission keeps of the legs that were asked for (modules/execution_engine/basket_executor.py).
use poly_bob.Base.{
  ℕ, ◌+◌, ◌≡◌, refl, ap, ◌∙◌, inl, inr, Bool, some, none, arith, String, List, [], ◌∷◌, map, get_or,
  or_str, nat_eq, string_eq, Bool-cases, Option-cases,
}
use poly_bob.Base.Dict.{Dict, lookup}
use poly_bob.Base.Float.{Floats, 0f}
use poly_bob.Execution.Orders.{ContractExecutor, execute_trade}
use poly_bob.Execution.Basket.{Venue, venue_eq, OrderLeg, LegRequest}
use poly_bob.Execution.Basket.Submit.{
  make_legs, Round, attempt, order_type, submit_leg, submit_legs,
}
use poly_bob.Execution.Basket.Laws.{submit_leg_attempts}

module _ ⦃fl : Floats⦄ where
  -- The request that a leg answers: its name, venue, symbol, side, quantity and limit price.
  abbrev pub asked : OrderLeg → LegRequest
  asked leg = record {
    leg_id = leg.leg_id;
    venue = some leg.venue;
    symbol = leg.symbol;
    side = leg.side;
    quantity = leg.quantity;
    limit_price = leg.limit_price;
  }

  -- A request whose empty name is none.
  abbrev pub named : LegRequest → LegRequest
  named q = record q { leg_id = or_str q.leg_id none }

  attempt-asked :
      (id : String) (i : ℕ) (repo : Bool) (leg : OrderLeg) (executors : Dict Venue ContractExecutor)
      (e : ContractExecutor)
      → asked (attempt id i repo leg executors e).leg ≡ asked leg
  attempt-asked id i repo leg executors e =
      elim (Option-cases
        (execute_trade leg.symbol leg.side (get_or leg.limit_price 0f) leg.quantity
          (order_type leg.limit_price) e).1) [
            | inl h ↦ rw (attempt, h) refl
            | inr (n, h) ↦ rw (attempt, h) refl
          ]

  submit_leg-asked :
      (id : String) (i : ℕ) (repo : Bool) (leg : OrderLeg) (executors : Dict Venue ContractExecutor)
      → asked (submit_leg id i repo leg executors).leg ≡ asked leg
  unfolding submit_leg
  submit_leg-asked id i repo leg executors = elim (Option-cases (lookup leg.venue executors)) [
    | inl h ↦ rw (h, submit_leg) refl
    | inr (e, h) ↦ elim (Bool-cases e.available) [
      | inl a ↦
          ap asked (ap (λ r. r.leg) (submit_leg_attempts id i repo leg executors e h a))
          ∙ attempt-asked id i repo leg executors e
      | inr a ↦ rw (h, a, submit_leg) refl
    ]
  ]

  pub submit_legs-asked :
      (id : String) (i : ℕ) (repo : Bool) (legs : List OrderLeg)
      (executors : Dict Venue ContractExecutor)
      → map asked (submit_legs id i repo legs executors).legs ≡ map asked legs
  unfolding submit_legs
  submit_legs-asked id i repo [] executors = refl
  submit_legs-asked id i repo (leg ∷ legs) executors =
      let r : Round = submit_leg id i repo leg executors in
      let first = ap (λ q. q ∷ map asked legs) (submit_leg-asked id i repo leg executors) in
      elim (Bool-cases r.finished) [
        | inl f ↦
            rw (submit_legs, f)
              (ap (◌∷◌ (asked r.leg)) (submit_legs-asked id (i + 1) repo legs r.executors) ∙ first)
        | inr f ↦ rw (submit_legs, f) first
      ]

  pub make_legs-asked :
      (requests : List LegRequest) (legs : List OrderLeg)
      → make_legs requests ≡ some legs
      → map asked legs ≡ map named requests
  unfolding make_legs
  make_legs-asked [] legs h = ground (arith)
  make_legs-asked (q ∷ qs) legs h = elim (Option-cases q.venue) [
    | inl none_here ↦ ground (arith)
    | inr (v, here) ↦ elim (Option-cases (make_legs qs)) [
      | inl fails ↦ ground (arith)
      | inr (ls, made) ↦ ground (arith, make_legs-asked qs ls made)
    ]
  ]
