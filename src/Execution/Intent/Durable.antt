-- ===== src/Execution/Intent/Durable.antt =====
-- The writes of `submit_intent` keep the repository a mirror of the service.
use poly_bob.Base.{
  ℕ, ◌≡◌, refl, ap, inl, inr, true, Option, some, none, arith, String, List, map, nat_eq, string_eq,
  get_or, Bool-cases, Option-cases, ltb, is_text,
}
use poly_bob.Base.Dict.{lookup, insert-IsUnique, erase-IsUnique}
use poly_bob.Base.Float.{Floats}
use poly_bob.Execution.Basket.{BasketExecutor, OrderBasket, LegRequest}
use poly_bob.Execution.Basket.Submit.{submit_basket, make_legs}
use poly_bob.Execution.Intent.{
  Formats, TradeIntent, IntentStatus, created, submitted, duplicate_blocked, risk_rejected,
  IntentError, duplicate_intent, max_open_intents_exceeded,
}
use poly_bob.Execution.Intent.Submit.{
  is_submitted_status, submit_intent, submit_known, refused, accepted, settle, basket_request,
  is_recent, intent_signature, open_intents, evaluate_risk,
}
use poly_bob.Store.Intents.{IntentRow}
use poly_bob.Execution.Intent.Restore.{Desk, commit}
use poly_bob.Execution.Intent.Mirror.{
  view_of-refused, view_of-accepted, Mirrors, quiet, updated-Mirrors,
}

module _ ⦃fl : Floats⦄ where
  submit_basket-basket_id :
      (basket_id parent : String) (requests : List LegRequest) (x x' : BasketExecutor)
      (basket : OrderBasket)
      → submit_basket basket_id parent requests x ≡ (x', some basket)
      → basket.basket_id ≡ basket_id
  unfolding submit_basket
  submit_basket-basket_id basket_id parent requests x x' basket h =
      elim (Option-cases (make_legs requests)) [
        | inl bad ↦ ground (arith)
        | inr (legs, good) ↦ ground (arith)
      ]

  module _ {P : Type 0} (dump : TradeIntent → P) (validate : P → Option TradeIntent) where
    row_of :
        (d : Desk dump validate) (id : String) (i : TradeIntent)
        → Mirrors dump validate d
        → lookup id d.service.intents ≡ some i
        → (row : IntentRow P IntentStatus IntentError) × (lookup id d.rows ≡ some row)
    row_of d id i m h = elim (Option-cases (lookup id d.rows)) [
      | inl absent ↦ absurd (ground (arith, m.each id))
      | inr there ↦ there
    ]

    refused-Mirrors :
        (now : ℕ) (d : Desk dump validate) (id : String) (i : TradeIntent) (status : IntentStatus)
        (error : IntentError)
        → Mirrors dump validate d
        → lookup id d.service.intents ≡ some i
        → Mirrors dump validate (commit dump validate now d (refused id status error d.service))
    refused-Mirrors now d id i status error m h =
        let (row, here) = row_of d id i m h in
        updated-Mirrors dump validate now d (refused id status error d.service) id row status
          (some error) none none m here refl (ground (arith, m.written))
          (insert-IsUnique id error d.service.intent_errors m.unique_errors)
          (λ j. ground (arith, view_of-refused id j status error d.service))

    accepted-Mirrors :
        (now : ℕ) (d : Desk dump validate) (id : String) (i : TradeIntent)
        (basket_id signature : String) (x : BasketExecutor)
        → Mirrors dump validate d
        → lookup id d.service.intents ≡ some i
        → is_text (some basket_id) ≡ true
        → Mirrors dump validate
            (commit dump validate now d (accepted id basket_id signature now x d.service))
    accepted-Mirrors now d id i basket_id signature x m h text =
        let (row, here) = row_of d id i m h in
        updated-Mirrors dump validate now d (accepted id basket_id signature now x d.service) id row
          submitted none (some basket_id) (some signature) m here (ground (arith))
          (ground (arith, m.written)) (erase-IsUnique id d.service.intent_errors m.unique_errors)
          (λ j.
            ground
              (arith, view_of-accepted id basket_id signature now x j d.service m.unique_errors))

    settle-Mirrors :
        (now : ℕ) (d : Desk dump validate) (id : String) (i : TradeIntent)
        (basket_id signature : String) (x : BasketExecutor) (made : Option OrderBasket)
        → Mirrors dump validate d
        → lookup id d.service.intents ≡ some i
        → is_text (some basket_id) ≡ true
        → ((basket : OrderBasket) → made ≡ some basket → basket.basket_id ≡ basket_id)
        → Mirrors dump validate
            (commit dump validate now d (settle id signature now d.service (x, made)).0)
    settle-Mirrors now d id i basket_id signature x none m h text named =
        quiet dump validate now d (record (d.service) { basket_executor = x }) m m.written refl
          (λ j. refl)
    settle-Mirrors now d id i basket_id signature x (some basket) m h text named =
        accepted-Mirrors now d id i basket.basket_id signature x m h (rw (named basket refl) text)

    submit_known-Mirrors :
        (fm : Formats) (now : ℕ) (d : Desk dump validate) (id basket_id : String) (i : TradeIntent)
        → Mirrors dump validate d
        → lookup id d.service.intents ≡ some i
        → is_text (some basket_id) ≡ true
        → Mirrors dump validate
            (commit dump validate now d (submit_known fm id basket_id now i d.service).0)
    submit_known-Mirrors fm now d id basket_id i m h text =
        let s = d.service in
        elim (Bool-cases
          (is_recent s.dedupe_window now (lookup (intent_signature fm i) s.recent_signatures))) [
            | inl again ↦
                rw again (refused-Mirrors now d id i duplicate_blocked duplicate_intent m h)
            | inr new ↦ elim (Bool-cases (ltb s.max_open_intents (open_intents s.intent_status))) [
              | inl many ↦
                  rw (new, many)
                    (refused-Mirrors now d id i risk_rejected max_open_intents_exceeded m h)
              | inr few ↦ elim (Option-cases (evaluate_risk s.risk_checker i)) [
                | inr (reason, risky) ↦
                    rw (new, few, risky) (refused-Mirrors now d id i risk_rejected reason m h)
                | inl safe ↦
                    let placed =
                      submit_basket basket_id i.intent_id (map basket_request i.legs)
                        s.basket_executor in
                    rw (new, few, safe)
                      (settle-Mirrors now d id i basket_id (intent_signature fm i) placed.0 placed.1
                        m h text
                        (λ basket made.
                          submit_basket-basket_id basket_id i.intent_id (map basket_request i.legs)
                            s.basket_executor placed.0 basket (ap (λ o. (placed.0, o)) made)))
              ]
            ]
          ]

    pub submit_stored-Mirrors :
        (fm : Formats) (now : ℕ) (id basket_id : String) (d : Desk dump validate)
        → Mirrors dump validate d
        → is_text (some basket_id) ≡ true
        → Mirrors dump validate
            (commit dump validate now d (submit_intent fm id basket_id now d.service).0)
    unfolding submit_intent
    submit_stored-Mirrors fm now id basket_id d m text =
        let same = quiet dump validate now d d.service m m.written refl (λ j. refl) in
        elim (Option-cases (lookup id d.service.intents)) [
          | inl absent ↦ rw (absent, submit_intent) same
          | inr (i, here) ↦
              elim (Bool-cases
                (is_submitted_status (get_or (lookup id d.service.intent_status) created))) [
                  | inl done ↦ rw (here, submit_intent, done) same
                  | inr open_still ↦
                      rw (here, submit_intent, open_still)
                        (submit_known-Mirrors fm now d id basket_id i m here text)
                ]
        ]
