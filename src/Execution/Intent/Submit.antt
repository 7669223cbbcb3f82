-- ===== src/Execution/Intent/Submit.antt =====
-- `submit_intent` (modules/execution_engine/intent_execution_service.py). `now` is `utcnow` in
-- microseconds, and `basket_id` is the id that `submit_basket` draws.
use poly_bob.Base.{
  ℕ, ◌+◌, Bool, true, false, Option, some, none, if◌then◌else◌, String, List, [], ◌∷◌, ◌++◌, map,
  nat_eq, string_eq, get_or, is_some, count, ltb,
}
use poly_bob.Base.Dict.{Dict, lookup, insert, erase}
use poly_bob.Base.Float.{Floats}
use Prim.Native.String.{◌++◌ as append}
use poly_bob.Risk.Checker.{
  RiskChecker, check_order, Leg, instrumented, number, absent, null, evaluate_intent,
}
use poly_bob.Execution.Basket.{
  Venue, polymarket, binance, hyperliquid, paper, BasketExecutor, OrderBasket, LegRequest,
}
use poly_bob.Execution.Basket.Submit.{submit_basket}
use poly_bob.Execution.Intent.{
  Formats, TradeIntentLeg, TradeIntent, IntentStatus, created, submitted, duplicate_blocked,
  risk_rejected, IntentError, duplicate_intent, max_open_intents_exceeded, portfolio_risk,
  order_risk, update_intent, Checker, legacy, portfolio, IntentService,
}

module _ ⦃fl : Floats⦄ where
  -- `ExecutionVenue.value`
  abbrev pub venue_value : Venue → String
  venue_value polymarket = "polymarket"
  venue_value binance = "binance"
  venue_value hyperliquid = "hyperliquid"
  venue_value paper = "paper"

  abbrev leg_signature : Formats → TradeIntentLeg → String
  leg_signature fm leg = append (venue_value leg.venue) (
      append ":" (
        append leg.symbol (append ":" (append leg.side (append ":" (fm.float_text leg.quantity))))))

  -- `"|".join(…)`
  abbrev joined : List String → String
  joined [] = ""
  joined (x ∷ []) = x
  joined (x ∷ y ∷ xs) = append x (append "|" (joined (y ∷ xs)))

  unfoldable pub intent_signature : Formats → TradeIntent → String
  intent_signature fm intent = append intent.strategy_id (
      append ":" (
        append (get_or (lookup "pair_id" intent.metadata) "manual")
          (append ":" (joined (map (leg_signature fm) intent.legs)))))

  -- A leg as `PortfolioRiskChecker` reads it: an object with an `instrument`, and without a `price`.
  abbrev pub risk_leg : TradeIntentLeg → Leg
  risk_leg leg =
      instrumented leg.market_id leg.symbol leg.quantity
        (elim leg.limit_price [ none ↦ null | some p ↦ number p ]) absent

  abbrev pub check_legs : RiskChecker → List TradeIntentLeg → Option IntentError
  check_legs c [] = none
  check_legs c (leg ∷ legs) =
      let rest = check_legs c legs in
      let (ok, verdict) = check_order c leg.quantity in
      if ok then rest else some (order_risk verdict)

  -- `_evaluate_risk`: none where the intent is allowed, and otherwise the reason.
  unfoldable pub evaluate_risk : Checker → TradeIntent → Option IntentError
  evaluate_risk (legacy c) intent = check_legs c intent.legs
  evaluate_risk (portfolio limits positions) intent =
      let decision = evaluate_intent limits (map risk_leg intent.legs) positions none in
      if decision.allowed then none else some (portfolio_risk decision.reasons)

  abbrev pub is_open : IntentStatus → Bool
  is_open created = true
  is_open submitted = true
  is_open _ = false

  unfoldable pub open_intents : Dict String IntentStatus → ℕ
  open_intents statuses = count (λ e. is_open e.1) statuses

  -- `recent and (now - recent) < dedupe_window`
  unfoldable pub is_recent : ℕ → ℕ → Option ℕ → Bool
  is_recent window now none = false
  is_recent window now (some recent) = ltb now (recent + window)

  -- The legs as they are handed to the basket executor.
  abbrev pub basket_request : TradeIntentLeg → LegRequest
  basket_request leg = record {
    leg_id = some leg.leg_id;
    venue = some leg.venue;
    symbol = leg.symbol;
    side = leg.side;
    quantity = leg.quantity;
    limit_price = leg.limit_price;
  }

  abbrev pub refused : String → IntentStatus → IntentError → IntentService → IntentService
  refused id status error s = record s {
    intent_status = insert id status s.intent_status;
    intent_errors = insert id error s.intent_errors;
    effects = s.effects ++ update_intent id status (some error) none none ∷ [];
  }

  abbrev pub set_default_key : String → String → Dict String String → Dict String String
  set_default_key id key d = if is_some (lookup id d) then d else insert id key d

  abbrev pub accepted :
      String → String → String → ℕ → BasketExecutor → IntentService → IntentService
  accepted id basket_id signature now x s = record s {
    basket_executor = x;
    intent_status = insert id submitted s.intent_status;
    intent_baskets = insert id basket_id s.intent_baskets;
    intent_errors = erase id s.intent_errors;
    recent_signatures = insert signature now s.recent_signatures;
    idempotency_keys = set_default_key id signature s.idempotency_keys;
    effects = s.effects ++ update_intent id submitted none (some basket_id) (some signature) ∷ [];
  }

  -- What follows the call of the basket executor; false where that raises.
  abbrev pub settle :
      String
      → String
      → ℕ
      → IntentService
      → BasketExecutor × Option OrderBasket
      → IntentService × Bool
  settle id signature now s (x, none) = (record s { basket_executor = x }, false)
  settle id signature now s (x, some basket) =
      (accepted id basket.basket_id signature now x s, true)

  abbrev pub send :
      String → TradeIntent → String → String → ℕ → IntentService → IntentService × Bool
  send id intent basket_id signature now s =
      settle id signature now s (
        submit_basket basket_id intent.intent_id (map basket_request intent.legs) s.basket_executor)

  -- `submit_intent` on an intent that is there and is not submitted.
  abbrev pub submit_known :
      Formats → String → String → ℕ → TradeIntent → IntentService → IntentService × Bool
  submit_known fm id basket_id now intent s =
      let signature = intent_signature fm intent in
      if is_recent s.dedupe_window now (lookup signature s.recent_signatures)
      then (refused id duplicate_blocked duplicate_intent s, true)
      else if ltb s.max_open_intents (open_intents s.intent_status)
      then (refused id risk_rejected max_open_intents_exceeded s, true)
      else elim (evaluate_risk s.risk_checker intent) [
        | some reason ↦ (refused id risk_rejected reason s, true)
        | none ↦ send id intent basket_id signature now s
      ]

  abbrev pub is_submitted_status : IntentStatus → Bool
  is_submitted_status submitted = true
  is_submitted_status _ = false

  -- `submit_intent`: whether it returns. An id that no intent has raises KeyError.
  unfoldable pub submit_intent :
      Formats → String → String → ℕ → IntentService → IntentService × Bool
  submit_intent fm id basket_id now s = elim (lookup id s.intents) [
    | none ↦ (s, false)
    | some intent ↦
        if is_submitted_status (get_or (lookup id s.intent_status) created)
        then (s, true)
        else submit_known fm id basket_id now intent s
  ]
