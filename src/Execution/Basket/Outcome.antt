-- ===== src/Execution/Basket/Outcome.antt =====
-- What a caller of `submit_basket` gets (modules/execution_engine/basket_executor.py).
use poly_bob.Base.{
  map, ◌≡◌, refl, ap, ◌∙◌, subst, inl, inr, Bool, false, not, ◌&&◌, ◌||◌, Option, some,
  if◌then◌else◌, arith, String, List, [], ◌∷◌, nat_eq, string_eq, get_or, All, is_some, is_empty,
  length, any, all, Bool-cases, Option-cases,
}
use poly_bob.Base.Dict.{Dict, lookup, lookup-insert_self}
use poly_bob.Base.Float.{Floats}
use poly_bob.Execution.Orders.{ContractExecutor}
use poly_bob.Execution.Basket.{
  Venue, venue_eq, OrderLeg, BasketStatus, submitting, all_submitted, partial_failure, partial,
  OrderBasket, LegRequest, BasketExecutor, derive_status, is_rejected, is_submitted, is_filled,
  is_cancelled,
}
use poly_bob.Execution.Basket.Submit.{
  make_legs, Rounds, closed, submit_legs, submit_made, submit_basket,
}
use poly_bob.Execution.Basket.Laws.{
  available_at, SettledBy, IsNew, submit_legs_settles, make_legs-IsNew,
}
use poly_bob.Execution.Basket.Asked.{asked, named, submit_legs-asked, make_legs-asked}

module _ ⦃fl : Floats⦄ where
  abbrev pub is_missing : Dict Venue ContractExecutor → OrderLeg → Bool
  is_missing executors leg = not (is_some (available_at leg.venue executors))

  abbrev pub is_ready : Dict Venue ContractExecutor → OrderLeg → Bool
  is_ready executors leg = get_or (available_at leg.venue executors) false

  any-SettledBy :
      (executors : Dict Venue ContractExecutor) (legs : List OrderLeg)
      → All (SettledBy executors) legs
      → any (λ l. is_rejected l.status) legs ≡ any (is_missing executors) legs
  any-SettledBy executors [] h = refl
  any-SettledBy executors (l ∷ ls) h =
      let rest = any-SettledBy executors ls h.1 in
      elim (Option-cases (available_at l.venue executors)) [
        | inl e ↦ ground (arith)
        | inr (b, e) ↦ ground (arith)
      ]

  all-SettledBy :
      (executors : Dict Venue ContractExecutor) (legs : List OrderLeg)
      → All (SettledBy executors) legs
      → all (λ l. is_submitted l.status || is_filled l.status) legs ≡ all (is_ready executors) legs
  all-SettledBy executors [] h = refl
  all-SettledBy executors (l ∷ ls) h =
      let rest = all-SettledBy executors ls h.1 in
      elim (Option-cases (available_at l.venue executors)) [
        | inl e ↦ ground (arith)
        | inr (b, e) ↦ ground (arith)
      ]

  cancelled-SettledBy :
      (executors : Dict Venue ContractExecutor) (legs : List OrderLeg)
      → All (SettledBy executors) legs
      → not (is_empty legs) && all (λ l. is_cancelled l.status) legs ≡ false
  cancelled-SettledBy executors [] h = refl
  cancelled-SettledBy executors (l ∷ ls) h = elim (Option-cases (available_at l.venue executors)) [
    | inl e ↦ ground (arith)
    | inr (b, e) ↦ ground (arith)
  ]

  -- The status of a basket, from what was at the venues of its legs.
  abbrev pub settled_status : Dict Venue ContractExecutor → List OrderLeg → BasketStatus
  settled_status executors legs =
      if any (is_missing executors) legs
      then partial_failure
      else if not (is_empty legs) && all (is_ready executors) legs
      then all_submitted
      else partial

  derive_status-SettledBy :
      (executors : Dict Venue ContractExecutor) (legs : List OrderLeg)
      → All (SettledBy executors) legs
      → derive_status legs ≡ settled_status executors legs
  unfolding derive_status
  derive_status-SettledBy executors legs h =
      rw
        (
          derive_status,
          cancelled-SettledBy executors legs h,
          any-SettledBy executors legs h,
          all-SettledBy executors legs h,
        )
        refl

  abbrev HasOutcome : BasketExecutor → List OrderLeg → OrderBasket → Type 0
  HasOutcome x legs basket =
      All (SettledBy x.executors) basket.legs
      × (length basket.legs ≡ length legs)
      × (map asked basket.legs ≡ map asked legs)
      × (basket.status ≡ settled_status x.executors basket.legs)

  submit_made_lem :
      (id parent : String) (legs : List OrderLeg) (x x' : BasketExecutor) (basket : OrderBasket)
      → All IsNew legs
      → submit_made id parent legs x ≡ (x', some basket)
      → HasOutcome x legs basket × (lookup id x'.baskets ≡ some basket)
  submit_made_lem id parent legs x x' basket new made =
      let r : Rounds = submit_legs id 0 x.has_repository legs x.executors in
      let fresh : OrderBasket = record {
        basket_id = id;
        parent_intent_id = parent;
        status = submitting;
        legs = legs;
      } in
      let done : OrderBasket = record fresh { legs = r.legs; status = derive_status r.legs } in
      elim (Bool-cases r.finished) [
        | inl f ↦
            let settled =
              submit_legs_settles id 0 x.has_repository legs x.executors x.executors (λ v. refl) new
                f in
            let pair : ◌≡◌ {A = BasketExecutor × Option OrderBasket} (closed x fresh r, some done)
                (x', some basket) =
              rw (← made, submit_made, f) refl in
            let second : some done ≡ some basket = ap (λ p. p.1) pair in
            let same_basket : done ≡ basket = ground (arith) in
            let same_executor : closed x fresh r ≡ x' = ap (λ p. p.0) pair in
            let outcome : HasOutcome x legs done = (
              settled.0,
              settled.1,
              submit_legs-asked id 0 x.has_repository legs x.executors,
              derive_status-SettledBy x.executors r.legs settled.0,
            ) in
            (
              subst (HasOutcome x legs) same_basket outcome,
              subst (λ y. lookup id y.baskets ≡ some basket) same_executor
                  (subst (λ b. lookup id (closed x fresh r).baskets ≡ some b) same_basket
                    (lookup-insert_self id done x.baskets)),
            )
        | inr f ↦ ground (arith)
      ]

  -- Where `submit_basket` returns a basket, that basket is kept under its id and has one leg for each
  -- leg asked for, in their order, with the venue, the symbol, the side, the quantity, the limit price and
  -- the name asked for. By what stood at its venue before the call, a leg without an executor is rejected,
  -- one of an unavailable executor is unavailable, both without an order, and any other is submitted
  -- and has an order; the status is partial_failure if an executor was missing, all_submitted if all
  -- were available, and partial otherwise.
  pub submit_basket_settles :
      (id parent : String) (requests : List LegRequest) (x x' : BasketExecutor)
      (basket : OrderBasket)
      → submit_basket id parent requests x ≡ (x', some basket)
      → All (SettledBy x.executors) basket.legs
        × (length basket.legs ≡ length requests)
        × (map asked basket.legs ≡ map named requests)
        × (basket.status ≡ settled_status x.executors basket.legs)
        × (lookup id x'.baskets ≡ some basket)
  unfolding submit_basket
  submit_basket_settles id parent requests x x' basket made =
      elim (Option-cases (make_legs requests)) [
        | inl h ↦ ground (arith)
        | inr (legs, h) ↦
            let news = make_legs-IsNew requests legs h in
            let same : submit_made id parent legs x ≡ (x', some basket) = ground (arith) in
            let (outcome, kept) = submit_made_lem id parent legs x x' basket news.0 same in
            (
              outcome.0,
              outcome.1 ∙ news.1,
              outcome.2 ∙ make_legs-asked requests legs h,
              outcome.3,
              kept,
            )
      ]
