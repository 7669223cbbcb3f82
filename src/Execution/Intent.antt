-- ===== src/Execution/Intent.antt =====
-- `IntentExecutionService` (modules/execution_engine/intent_execution_service.py) and the intents of
-- libs/schemas. What a read of the intent repository answers is an argument, and what the service hands
-- to its repositories and to the bus is listed in `effects`. Python's text of a number is `Formats`.
pub mod Submit
pub mod Laws
pub mod Dedupe
pub mod Restore
pub mod Mirror
pub mod Durable
pub mod Created
pub mod Roundtrip
use poly_bob.Base.{
  ℕ, zero, suc, ◌+◌, ◌-◌, ◌*◌, ◌/◌, ◌%◌, ◌≤◌, ◌<◌, ◌≡◌, refl, sym, ap, ◌∙◌, ◌≢◌, ◌↔◌, ◌⊎◌, inl, inr,
  Bool, true, false, not, ◌&&◌, ◌||◌, Option, some, none, if◌then◌else◌, arith, String, List, [],
  ◌∷◌, ◌++◌, map, append-nil, append_assoc, ◌==◌, Eq, nat_eq, string_eq, get_or, or_else, All,
  All-imp, All-append, is_some, is_empty, length, any, all, keep, count, Bool-cases, Option-cases,
  ltb, leb, length-append, found, some_pair, or_str, is_text,
}
use poly_bob.Base.Dict.{
  Dict, lookup, insert, erase, IsUnique, insert-IsUnique, lookup-insert, lookup-insert_self,
  lookup-insert_ne, lookup-erase, erase-IsUnique,
}
use poly_bob.Base.Float.{
  Floats, Float, ◌≤f◌, ◌<f◌, ◌+f◌, ◌-f◌, ◌*f◌, ◌/f◌, ◌==f◌, lit, 0f, 1f, abs, lt_asymm, ==f_iff,
}
use Prim.Native.String.{◌++◌ as append}
use poly_bob.Promotion.Registry.{PromotionRecord, is_promoted}
use poly_bob.Risk.Checker.{Reason, RiskChecker, RiskLimits, Verdict}
use poly_bob.Execution.Basket.{Venue, polymarket, binance, hyperliquid, paper, BasketExecutor}

module _ ⦃fl : Floats⦄ where
  -- `str` of an int and of a float.
  pub record Formats : Type 0 where
    pub int_text : ℕ → String
    pub float_text : Float → String

  pub record TradeIntentLeg : Type 0 where
    pub leg_id : String
    pub venue : Venue
    pub symbol : String
    pub market_id : Option String
    pub asset_id : Option String
    pub side : String
    pub quantity : Float
    pub limit_price : Option Float
    pub role : String

  pub record TradeIntent : Type 0 where
    pub intent_id : String
    pub strategy_id : String
    pub rationale : String
    pub expected_edge_bps : Float
    pub confidence : Float
    pub legs : List TradeIntentLeg
    pub metadata : Dict String String

  pub data IntentStatus : Type 0 where
    created submitted duplicate_blocked risk_rejected : IntentStatus

  pub data IntentError : Type 0 where
    duplicate_intent max_open_intents_exceeded : IntentError
    portfolio_risk : List Reason → IntentError
    order_risk : Verdict → IntentError

  -- What is handed to the intent repository, to the decision repository and to the bus, if the service
  -- has them.
  pub data IntentEffect : Type 0 where
    save_intent :
        String → TradeIntent → IntentStatus → (idempotency_key : Option String) → IntentEffect
    update_intent :
        String
        → IntentStatus
        → Option IntentError
        → (basket_id idempotency_key : Option String) → IntentEffect
    save_decision :
        (decision_id strategy_id : String)
        → (market_id : Option String) → (intent_id rationale : String)
        → (expected_edge_bps confidence : Float) → (leg_count : ℕ) → IntentEffect
    intent_created :
        (intent_id strategy_id : String)
        → (leg_count : ℕ) → (expected_edge_bps : Float) → IntentEffect

  -- The legacy checker, or the portfolio checker with what `position_provider` answers.
  pub data Checker : Type 0 where
    legacy : RiskChecker → Checker
    portfolio : RiskLimits → (positions : Option (Dict String Float)) → Checker

  pub record IntentService : Type 0 where
    pub basket_executor : BasketExecutor
    pub risk_checker : Checker
    pub max_open_intents : ℕ
    pub dedupe_window : ℕ
    pub intents : Dict String TradeIntent
    pub intent_status : Dict String IntentStatus
    pub intent_baskets : Dict String String
    pub intent_errors : Dict String IntentError
    pub recent_signatures : Dict String ℕ
    pub idempotency_keys : Dict String String
    pub effects : List IntentEffect

  -- A row of the intent repository; a payload that does not validate is none.
  pub record StoredIntent : Type 0 where
    pub intent_id : String
    pub payload : Option TradeIntent
    pub status : IntentStatus
    pub basket_id : Option String
    pub error : Option IntentError

  -- A leg as it is asked for; no venue is a text that names none.
  pub record IntentLegRequest : Type 0 where
    pub leg_id : Option String
    pub venue : Option Venue
    pub symbol : String
    pub market_id : Option String
    pub asset_id : Option String
    pub side : String
    pub quantity : Float
    pub limit_price : Option Float
    pub role : Option String

  -- The loop of `create_intent`: none where a venue is unknown.
  unfoldable pub make_intent_legs :
      Formats → String → ℕ → List IntentLegRequest → Option (List TradeIntentLeg)
  make_intent_legs fm id index [] = some []
  make_intent_legs fm id index (q ∷ qs) = elim q.venue [
    | none ↦ none
    | some venue ↦ elim (make_intent_legs fm id (index + 1) qs) [
      | none ↦ none
      | some legs ↦ some (
          record {
            leg_id = get_or (or_str q.leg_id none) (append id (append ":leg" (fm.int_text index)));
            venue = venue;
            symbol = q.symbol;
            market_id = q.market_id;
            asset_id = q.asset_id;
            side = q.side;
            quantity = q.quantity;
            limit_price = q.limit_price;
            role = get_or q.role "primary";
          }
          ∷ legs)
    ]
  ]

  -- What `_find_existing_intent` takes from memory: the first intent with the key.
  unfoldable pub find_in_memory :
      String → Dict String String → Dict String TradeIntent → Option TradeIntent
  find_in_memory key keys [] = none
  find_in_memory key keys ((id, intent) ∷ intents) =
      let rest = find_in_memory key keys intents in
      if (elim (lookup id keys) [ none ↦ false | some k ↦ k == key ]) then some intent else rest

  abbrev pub set_some {ℓ} : {V : Type ℓ} → String → Option V → Dict String V → Dict String V
  set_some id none d = d
  set_some id (some v) d = insert id v d

  abbrev pub remember_stored : StoredIntent → TradeIntent → IntentService → IntentService
  remember_stored row intent s = record s {
    intents = insert row.intent_id intent s.intents;
    intent_status = insert row.intent_id row.status s.intent_status;
    intent_baskets = set_some row.intent_id (or_str row.basket_id none) s.intent_baskets;
    intent_errors = set_some row.intent_id row.error s.intent_errors;
  }

  abbrev pub with_key : String → String → IntentService → IntentService
  with_key id key s = record s { idempotency_keys = insert id key s.idempotency_keys }

  abbrev pub take_stored :
      String → StoredIntent → IntentService → IntentService × Option TradeIntent
  take_stored key row s = elim (lookup row.intent_id s.intents) [
    | some intent ↦ (with_key row.intent_id key s, some intent)
    | none ↦ elim row.payload [
      | none ↦ (s, none)
      | some intent ↦ (with_key row.intent_id key (remember_stored row intent s), some intent)
    ]
  ]

  -- `_find_existing_intent`; `stored` is the row that the repository finds, none also where there is
  -- no repository or the read fails.
  unfoldable pub find_existing_intent :
      String → Option StoredIntent → IntentService → IntentService × Option TradeIntent
  find_existing_intent key stored s = elim (find_in_memory key s.idempotency_keys s.intents) [
    | some intent ↦ (s, some intent)
    | none ↦ elim stored [ none ↦ (s, none) | some row ↦ take_stored key row s ]
  ]

  pub record IntentRequest : Type 0 where
    pub strategy_id : String
    pub rationale : String
    pub expected_edge_bps : Float
    pub confidence : Float
    pub legs : List IntentLegRequest
    pub metadata : Option (Dict String String)
    pub idempotency_key : Option String

  -- `first_leg.instrument.market_id or first_leg.instrument.symbol`
  abbrev pub decision_market : List TradeIntentLeg → Option String
  decision_market [] = none
  decision_market (leg ∷ legs) = or_str leg.market_id (some leg.symbol)

  abbrev pub creation_effects : TradeIntent → Option String → List IntentEffect
  creation_effects i key =
      save_intent i.intent_id i created key
      ∷ save_decision (append "dec_" i.intent_id) i.strategy_id (decision_market i.legs) i.intent_id
          i.rationale i.expected_edge_bps i.confidence (length i.legs)
      ∷ intent_created i.intent_id i.strategy_id (length i.legs) i.expected_edge_bps
      ∷ []

  abbrev pub put_created : IntentRequest → TradeIntent → IntentService → IntentService
  put_created q intent s = record s {
    intents = insert intent.intent_id intent s.intents;
    intent_status = insert intent.intent_id created s.intent_status;
    idempotency_keys = set_some intent.intent_id q.idempotency_key s.idempotency_keys;
    effects = s.effects ++ creation_effects intent q.idempotency_key;
  }

  -- The part of `create_intent` that makes the intent.
  abbrev pub create_new :
      Formats → String → IntentRequest → IntentService → IntentService × Option TradeIntent
  create_new fm id q s = elim (make_intent_legs fm id 1 q.legs) [
    | none ↦ (s, none)
    | some legs ↦
        let intent : TradeIntent = record {
          intent_id = id;
          strategy_id = q.strategy_id;
          rationale = q.rationale;
          expected_edge_bps = q.expected_edge_bps;
          confidence = q.confidence;
          legs = legs;
          metadata = get_or q.metadata [];
        } in
        (put_created q intent s, some intent)
  ]

  -- `create_intent` behind `_require_promoted`; none where it raises.
  abbrev pub create_allowed :
      Formats
      → Option StoredIntent
      → String
      → IntentRequest
      → IntentService
      → IntentService × Option TradeIntent
  create_allowed fm stored id q s = elim q.idempotency_key [
    | none ↦ create_new fm id q s
    | some key ↦
        let (s', existing) = find_existing_intent key stored s in
        elim existing [ none ↦ create_new fm id q s' | some intent ↦ (s', some intent) ]
  ]

  module _ (require_strategy_promotion : Bool) (day_of : String → Option ℕ) (today : ℕ)
      (registry : List PromotionRecord) where
    -- `_require_promoted`: whether it returns.
    unfoldable pub require_promoted : String → Bool
    require_promoted strategy_id =
        if not require_strategy_promotion
        then true
        else is_promoted day_of today strategy_id none registry

    unfoldable pub create_intent :
        Formats
        → Option StoredIntent
        → String
        → IntentRequest
        → IntentService
        → IntentService × Option TradeIntent
    create_intent fm stored id q s =
        if require_promoted q.strategy_id then create_allowed fm stored id q s else (s, none)
