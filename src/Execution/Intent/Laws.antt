-- ===== src/Execution/Intent/Laws.antt =====
-- Which intents are created, and which reach a venue.
use poly_bob.Base.{
  Bool, ◌⊎◌, ◌<◌, subst, sym, Bool-cases, ℕ, ◌≤◌, ◌≡◌, refl, ap, ◌≢◌, inl, inr, true, false, Option,
  some, none, arith, String, List, map, nat_eq, string_eq, get_or, Option-cases, ltb,
}
use poly_bob.Base.Dict.{lookup, lookup-insert_self, lookup-insert_ne}
use poly_bob.Base.Float.{Floats}
use poly_bob.Promotion.Registry.{PromotionRecord, is_promoted}
use poly_bob.Execution.Basket.{OrderBasket}
use poly_bob.Execution.Basket.Submit.{submit_basket}
use poly_bob.Execution.Intent.{
  Formats, TradeIntent, created, submitted, duplicate_blocked, risk_rejected, IntentStatus,
  IntentError, duplicate_intent, max_open_intents_exceeded, IntentService, StoredIntent,
  IntentRequest, require_promoted, create_intent,
}
use poly_bob.Execution.Intent.Submit.{
  evaluate_risk, open_intents, is_recent, intent_signature, basket_request, submit_intent,
  is_submitted_status, refused, submit_known, settle, send,
}

module _ ⦃fl : Floats⦄ where
  -- While promotion is required, a strategy that is not promoted gets no intent: the call raises, and
  -- the service is as before.
  pub create_intent_blocked :
      (day_of : String → Option ℕ) (today : ℕ) (registry : List PromotionRecord) (fm : Formats)
      (stored : Option StoredIntent) (id : String) (q : IntentRequest) (s : IntentService)
      → is_promoted day_of today q.strategy_id none registry ≡ false
      → create_intent true day_of today registry fm stored id q s ≡ (s, none)
  unfolding create_intent require_promoted
  create_intent_blocked day_of today registry fm stored id q s h = ground (arith)

  -- A venue is called only for an intent that is known, not yet submitted, whose signature was not
  -- submitted within the window, with no more open intents than allowed, and that passes the risk
  -- checks: where one of these fails, the basket executor is as before.
  pub submit_intent-basket_executor :
      (fm : Formats) (id basket_id : String) (now : ℕ) (s : IntentService)
      → (submit_intent fm id basket_id now s).0.basket_executor ≢ s.basket_executor
      → (intent : TradeIntent) × (lookup id s.intents ≡ some intent)
        × (lookup id s.intent_status ≢ some submitted)
        × (is_recent s.dedupe_window now (lookup (intent_signature fm intent) s.recent_signatures)
            ≡ false)
        × (open_intents s.intent_status ≤ s.max_open_intents)
        × (evaluate_risk s.risk_checker intent ≡ none)
  unfolding submit_intent
  submit_intent-basket_executor fm id basket_id now s acts =
      elim (Option-cases (lookup id s.intents)) [
        | inl h ↦ absurd (acts (rw (h, submit_intent) refl))
        | inr (intent, h) ↦
            let known : TradeIntent = intent in
            let sent : is_submitted_status (get_or (lookup id s.intent_status) created) ≡ false =
              ground (arith) in
            let opened : is_recent s.dedupe_window now
                  (lookup (intent_signature fm intent) s.recent_signatures)
                ≡ false =
              ground (arith) in
            let few : ltb s.max_open_intents (open_intents s.intent_status) ≡ false =
              ground (arith) in
            let safe : evaluate_risk s.risk_checker intent ≡ none = ground (arith) in
            (intent, h, ground (arith), opened, ground (arith), safe)
      ]

  -- The three checks of an intent, in no order.
  abbrev pub Passes : Formats → ℕ → IntentService → TradeIntent → Type 0
  Passes fm now s intent =
      (is_recent s.dedupe_window now (lookup (intent_signature fm intent) s.recent_signatures)
        ≡ false)
      × (open_intents s.intent_status ≤ s.max_open_intents)
      × (evaluate_risk s.risk_checker intent ≡ none)

  -- The first check that fails, with the status and the error that it gives.
  abbrev pub Fails : Formats → ℕ → IntentService → TradeIntent → IntentStatus → IntentError → Type 0
  Fails fm now s intent status error =
      let recent =
        is_recent s.dedupe_window now (lookup (intent_signature fm intent) s.recent_signatures) in
      ((recent ≡ true) × (status ≡ duplicate_blocked) × (error ≡ duplicate_intent))
      ⊎ ((recent ≡ false)
          × (status ≡ risk_rejected)
          × (((s.max_open_intents < open_intents s.intent_status)
                × (error ≡ max_open_intents_exceeded))
              ⊎ ((open_intents s.intent_status ≤ s.max_open_intents)
                  × (evaluate_risk s.risk_checker intent ≡ some error))))

  -- The intent is handed over, and submitted under the basket that came back.
  abbrev pub Accepts :
      Formats → String → String → ℕ → IntentService → TradeIntent → IntentService × Bool → Type 0
  Accepts fm id basket_id now s intent (s', ok) =
      let (x, placed) =
        submit_basket basket_id intent.intent_id (map basket_request intent.legs)
          s.basket_executor in
      Passes fm now s intent
      × (basket : OrderBasket) × (placed ≡ some basket)
      × (ok ≡ true)
      × (s'.basket_executor ≡ x)
      × (lookup id s'.intent_status ≡ some submitted)
      × (lookup id s'.intent_baskets ≡ some basket.basket_id)
      × (lookup (intent_signature fm intent) s'.recent_signatures ≡ some now)

  -- The intent is handed over, and the basket executor raises.
  abbrev pub Breaks :
      Formats → String → String → ℕ → IntentService → TradeIntent → IntentService × Bool → Type 0
  Breaks fm id basket_id now s intent (s', ok) =
      let (x, placed) =
        submit_basket basket_id intent.intent_id (map basket_request intent.legs)
          s.basket_executor in
      Passes fm now s intent
      × (placed ≡ none)
      × (ok ≡ false)
      × (s' ≡ record s { basket_executor = x })

  -- The intent is refused, with the reason, and nothing is handed over.
  abbrev pub Refuses :
      Formats → String → ℕ → IntentService → TradeIntent → IntentService × Bool → Type 0
  Refuses fm id now s intent (s', ok) =
      (status : IntentStatus) × (error : IntentError) × Fails fm now s intent status error
      × (ok ≡ true)
      × (s'.basket_executor ≡ s.basket_executor)
      × (lookup id s'.intent_status ≡ some status)
      × (lookup id s'.intent_errors ≡ some error)
      × (s'.intent_baskets ≡ s.intent_baskets)
      × (s'.recent_signatures ≡ s.recent_signatures)

  -- What the call leaves of the statuses and the baskets of other intents.
  abbrev pub KeepsOthers : String → IntentService → IntentService × Bool → Type 0
  KeepsOthers id s (s', ok) =
      (j : String)
      → j ≢ id
      → (lookup j s'.intent_status ≡ lookup j s.intent_status)
        × (lookup j s'.intent_baskets ≡ lookup j s.intent_baskets)

  -- One of the three, and the other intents as before.
  abbrev pub Decides :
      Formats → String → String → ℕ → IntentService → TradeIntent → IntentService × Bool → Type 0
  Decides fm id basket_id now s intent p =
      (Accepts fm id basket_id now s intent p
        ⊎ (Breaks fm id basket_id now s intent p ⊎ Refuses fm id now s intent p))
      × KeepsOthers id s p

  refused-Decides :
      (fm : Formats) (id basket_id : String) (now : ℕ) (s : IntentService) (intent : TradeIntent)
      (status : IntentStatus) (error : IntentError)
      → Fails fm now s intent status error
      → Decides fm id basket_id now s intent (refused id status error s, true)
  refused-Decides fm id basket_id now s intent status error why = (
    inr (
        inr (
          status,
          error,
          why,
          refl,
          refl,
          lookup-insert_self id status s.intent_status,
          lookup-insert_self id error s.intent_errors,
          refl,
          refl,
        )),
    λ j ne. (lookup-insert_ne id j status s.intent_status (λ e. ne (sym e)), refl),
  )

  send-Decides :
      (fm : Formats) (id basket_id : String) (now : ℕ) (s : IntentService) (intent : TradeIntent)
      → Passes fm now s intent
      → Decides fm id basket_id now s intent
          (send id intent basket_id (intent_signature fm intent) now s)
  send-Decides fm id basket_id now s intent passes =
      let out =
        submit_basket basket_id intent.intent_id (map basket_request intent.legs)
          s.basket_executor in
      let signature : String = intent_signature fm intent in
      let D = Decides fm id basket_id now s intent in
      elim (Option-cases out.1) [
        | inl breaks ↦
            subst D (sym (ap (λ o. settle id signature now s (out.0, o)) breaks))
              (inr (inl (passes, breaks, refl, refl)), λ j ne. (refl, refl))
        | inr (basket, placed) ↦
            subst D (sym (ap (λ o. settle id signature now s (out.0, o)) placed)) (
              inl (
                passes,
                basket,
                placed,
                refl,
                refl,
                lookup-insert_self id submitted s.intent_status,
                lookup-insert_self id basket.basket_id s.intent_baskets,
                lookup-insert_self signature now s.recent_signatures,
              ),
              λ j ne.
                  let ne' : id ≢ j = λ e. ne (sym e) in
                  (
                    lookup-insert_ne id j submitted s.intent_status ne',
                    lookup-insert_ne id j basket.basket_id s.intent_baskets ne',
                  ),
            )
      ]

  -- What `submit_intent` does with a known intent that is not yet submitted. If it passes the window, the
  -- limit and the risk checks, its legs go to the basket executor, with the intent's own id as the parent:
  -- where that returns a basket, the intent is submitted under it and its signature has the time, and
  -- where it raises, so does the call, and only the executor is changed. If a check fails, the intent has
  -- the status and the error of the first that does, and nothing is handed over. Other intents keep their
  -- status and basket.
  pub submit_intent_accepts :
      (fm : Formats) (id basket_id : String) (now : ℕ) (s : IntentService) (intent : TradeIntent)
      → lookup id s.intents ≡ some intent
      → lookup id s.intent_status ≢ some submitted
      → Decides fm id basket_id now s intent (submit_intent fm id basket_id now s)
  unfolding submit_intent
  submit_intent_accepts fm id basket_id now s intent here new =
      let signature : String = intent_signature fm intent in
      let open_now : is_submitted_status (get_or (lookup id s.intent_status) created) ≡ false =
        ground (arith) in
      let known : submit_intent fm id basket_id now s ≡ submit_known fm id basket_id now intent s =
        rw (here, submit_intent, open_now) refl in
      let D = Decides fm id basket_id now s intent in
      subst D (sym known)
        (elim (Bool-cases (is_recent s.dedupe_window now (lookup signature s.recent_signatures))) [
          | inl recent ↦ subst D (sym (rw recent refl)) (
              refused-Decides fm id basket_id now s intent duplicate_blocked duplicate_intent
                (inl (recent, refl, refl)))
          | inr fresh ↦ elim (Bool-cases (ltb s.max_open_intents (open_intents s.intent_status))) [
            | inl many ↦ subst D (sym (rw (fresh, many) refl)) (
                refused-Decides fm id basket_id now s intent risk_rejected max_open_intents_exceeded
                  (inr (fresh, refl, inl (ground (arith), refl))))
            | inr few ↦
                let room : open_intents s.intent_status ≤ s.max_open_intents = ground (arith) in
                elim (Option-cases (evaluate_risk s.risk_checker intent)) [
                  | inl safe ↦
                      subst D (sym (rw (fresh, few, safe) refl))
                        (send-Decides fm id basket_id now s intent (fresh, room, safe))
                  | inr (reason, unsafe) ↦ subst D (sym (rw (fresh, few, unsafe) refl)) (
                      refused-Decides fm id basket_id now s intent risk_rejected reason
                        (inr (fresh, refl, inr (room, unsafe))))
                ]
          ]
        ])
