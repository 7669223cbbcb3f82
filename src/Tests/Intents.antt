-- ===== src/Tests/Intents.antt =====
-- An intent that is created, sent, and sent again.
use poly_bob.Base.{
  ℕ, zero, suc, ◌+◌, ◌-◌, ◌*◌, ◌/◌, ◌%◌, ◌≤◌, ◌<◌, ◌≡◌, refl, sym, ap, ◌∙◌, ◌≢◌, ◌↔◌, ◌⊎◌, inl, inr,
  Bool, true, false, not, ◌&&◌, ◌||◌, Option, some, none, if◌then◌else◌, arith, String, List, [],
  ◌∷◌, ◌++◌, map, append-nil, append_assoc, ◌==◌, Eq, nat_eq, string_eq, get_or, or_else, All,
  All-imp, All-append, is_some, is_empty, length, any, all, keep, count, Bool-cases, Option-cases,
  ltb, leb, length-append, found, some_pair, or_str, is_text,
}
use poly_bob.Base.Dict.{lookup, insert}
use poly_bob.Base.Float.{Floats, Float, lit, 0f}
use poly_bob.Tests.Samples.{fixed_floats}
use poly_bob.Tests.Orders.{desk}
use poly_bob.Promotion.Registry.{is_promoted}
use poly_bob.Risk.Checker.{default_limits}
use poly_bob.Execution.Basket.{Venue, paper, BasketExecutor, OrderBasket, partial_failure}
use poly_bob.Execution.Basket.Submit.{submit_basket}
use poly_bob.Execution.Intent.{
  Formats, TradeIntentLeg, TradeIntent, created, submitted, Checker, portfolio, IntentService,
  IntentLegRequest, IntentRequest, require_promoted, create_intent,
}
use poly_bob.Execution.Intent.Submit.{
  evaluate_risk, open_intents, is_recent, intent_signature, basket_request, submit_intent,
}
use poly_bob.Execution.Intent.Laws.{
  create_intent_blocked, submit_intent-basket_executor, submit_intent_accepts, Decides,
}
use poly_bob.Execution.Intent.Dedupe.{create_intent_idempotent, submit_intent_again}

abbrev pub formats : Formats
formats = record { int_text = λ n. "n"; float_text = λ x. "x" }

abbrev pub service : IntentService
service = record {
  basket_executor = desk;
  risk_checker = portfolio default_limits (some []);
  max_open_intents = 3;
  dedupe_window = 30;
  intents = [];
  intent_status = [];
  intent_baskets = [];
  intent_errors = [];
  recent_signatures = [];
  idempotency_keys = [];
  effects = [];
}

abbrev pub asked_leg : IntentLegRequest
asked_leg = record {
  leg_id = none;
  venue = some paper;
  symbol = "rain";
  market_id = none;
  asset_id = none;
  side = "buy";
  quantity = lit 10 0;
  limit_price = some (lit 5 1);
  role = none;
}

abbrev pub asked : IntentRequest
asked = record {
  strategy_id = "reversion";
  rationale = "";
  expected_edge_bps = lit 5 0;
  confidence = lit 5 1;
  legs = asked_leg ∷ [];
  metadata = none;
  idempotency_key = some "k1";
}

abbrev no_date : String → Option ℕ
no_date s = none

blocks : is_promoted no_date 15 "reversion" none [] ≡ false
unfolding is_promoted
blocks = refl

unpromoted_is_blocked :
    create_intent true no_date 15 [] formats none "i1" asked service ≡ (service, none)
unpromoted_is_blocked = create_intent_blocked no_date 15 [] formats none "i1" asked service blocks

abbrev with_intent : IntentService
with_intent = (create_intent false no_date 15 [] formats none "i1" asked service).0

abbrev intent : TradeIntent
intent = record {
  intent_id = "i1";
  strategy_id = "reversion";
  rationale = "";
  expected_edge_bps = lit 5 0;
  confidence = lit 5 1;
  legs =
      record {
        leg_id = "i1:legn";
        venue = paper;
        symbol = "rain";
        market_id = none;
        asset_id = none;
        side = "buy";
        quantity = lit 10 0;
        limit_price = some (lit 5 1);
        role = "primary";
      }
      ∷ [];
  metadata = [];
}

creates :
    create_intent false no_date 15 [] formats none "i1" asked service ≡ (with_intent, some intent)
unfolding create_intent require_promoted poly_bob.Execution.Intent.find_existing_intent
    poly_bob.Execution.Intent.find_in_memory poly_bob.Execution.Intent.make_intent_legs
creates = refl

passes : require_promoted false no_date 15 [] "reversion" ≡ true
unfolding require_promoted
passes = refl

create_intent_idempotent_example :
    create_intent false no_date 15 [] formats none "i2" asked with_intent
    ≡ (with_intent, some intent)
create_intent_idempotent_example =
    create_intent_idempotent false no_date 15 [] formats none none "i1" "i2" asked asked service
      with_intent "k1" intent refl refl passes creates

known : lookup "i1" with_intent.intents ≡ some intent
unfolding lookup create_intent require_promoted poly_bob.Execution.Intent.find_existing_intent
    poly_bob.Execution.Intent.find_in_memory poly_bob.Execution.Intent.make_intent_legs insert
known = refl

is_created : lookup "i1" with_intent.intent_status ≡ some created
unfolding lookup create_intent require_promoted poly_bob.Execution.Intent.find_existing_intent
    poly_bob.Execution.Intent.find_in_memory poly_bob.Execution.Intent.make_intent_legs insert
is_created = refl

not_submitted : lookup "i1" with_intent.intent_status ≢ some submitted
not_submitted h = ground (arith, is_created)

submit_intent_accepts_example :
    Decides formats "i1" "b1" 100 with_intent intent
      (submit_intent formats "i1" "b1" 100 with_intent)
submit_intent_accepts_example =
    submit_intent_accepts formats "i1" "b1" 100 with_intent intent known not_submitted

abbrev orders_of : BasketExecutor → ℕ
orders_of x = length x.baskets

one_basket : orders_of (submit_intent formats "i1" "b1" 100 with_intent).0.basket_executor ≡ 1
unfolding lookup insert poly_bob.Base.Dict.erase poly_bob.Execution.Intent.create_intent
    poly_bob.Execution.Intent.require_promoted poly_bob.Execution.Intent.find_existing_intent
    poly_bob.Execution.Intent.find_in_memory poly_bob.Execution.Intent.make_intent_legs
    submit_intent poly_bob.Execution.Intent.Submit.is_recent
    poly_bob.Execution.Intent.Submit.open_intents poly_bob.Execution.Intent.Submit.evaluate_risk
    poly_bob.Execution.Intent.Submit.intent_signature poly_bob.Risk.Checker.evaluate_intent
    poly_bob.Risk.Checker.evaluate_known poly_bob.Risk.Checker.scan_legs
    poly_bob.Risk.Checker.check_order poly_bob.Risk.Checker.gross_from
    poly_bob.Risk.Checker.leg_fields poly_bob.Risk.Checker.market_reasons
    poly_bob.Risk.Checker.scan_leg poly_bob.Base.Float.abs
    poly_bob.Execution.Basket.Submit.make_legs poly_bob.Execution.Basket.Submit.submit_basket
    poly_bob.Execution.Basket.Submit.submit_leg poly_bob.Execution.Basket.Submit.submit_legs
    poly_bob.Execution.Basket.derive_status poly_bob.Execution.Orders.create_order
    poly_bob.Execution.Orders.execute_trade poly_bob.Execution.Orders.get_order
    poly_bob.Execution.Orders.get_order_status poly_bob.Execution.Orders.submit_order
one_basket = refl

no_baskets : orders_of with_intent.basket_executor ≡ 0
unfolding create_intent require_promoted poly_bob.Execution.Intent.find_existing_intent
    poly_bob.Execution.Intent.find_in_memory poly_bob.Execution.Intent.make_intent_legs
no_baskets = refl

acts :
    (submit_intent formats "i1" "b1" 100 with_intent).0.basket_executor
    ≢ with_intent.basket_executor
acts h =
    let counts : orders_of (submit_intent formats "i1" "b1" 100 with_intent).0.basket_executor
        ≡ orders_of with_intent.basket_executor =
      ap orders_of h in
    ground (arith, one_basket, no_baskets)

submit_intent-basket_executor_example :
    (i : TradeIntent) × (lookup "i1" with_intent.intents ≡ some i)
    × (lookup "i1" with_intent.intent_status ≢ some submitted)
    × (is_recent with_intent.dedupe_window 100
          (lookup (intent_signature formats i) with_intent.recent_signatures)
        ≡ false)
    × (open_intents with_intent.intent_status ≤ with_intent.max_open_intents)
    × (evaluate_risk with_intent.risk_checker i ≡ none)
submit_intent-basket_executor_example =
    submit_intent-basket_executor formats "i1" "b1" 100 with_intent acts

abbrev sent : IntentService
sent = record service { intents = ("i1", intent) ∷ []; intent_status = ("i1", submitted) ∷ [] }

sent_known : lookup "i1" sent.intents ≡ some intent
unfolding lookup
sent_known = refl

sent_status : lookup "i1" sent.intent_status ≡ some submitted
unfolding lookup
sent_status = refl

sent_again : submit_intent formats "i1" "b2" 500 sent ≡ (sent, true)
sent_again = submit_intent_again formats "i1" "b2" 500 sent intent sent_known sent_status
