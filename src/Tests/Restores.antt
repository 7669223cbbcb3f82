-- ===== src/Tests/Restores.antt =====
-- An intent that is created, submitted and read back by a new service.
use poly_bob.Base.{
  ℕ, zero, suc, ◌+◌, ◌-◌, ◌*◌, ◌/◌, ◌%◌, ◌≤◌, ◌<◌, ◌≡◌, refl, sym, ap, ◌∙◌, ◌≢◌, ◌↔◌, ◌⊎◌, inl, inr,
  Bool, true, false, not, ◌&&◌, ◌||◌, Option, some, none, if◌then◌else◌, arith, String, List, [],
  ◌∷◌, ◌++◌, map, append-nil, append_assoc, ◌==◌, Eq, nat_eq, string_eq, get_or, or_else, All,
  All-imp, All-append, is_some, is_empty, length, any, all, keep, count, Bool-cases, Option-cases,
  ltb, leb, length-append, found, some_pair, or_str, is_text,
}
use poly_bob.Base.Dict.{lookup, insert, erase}
use poly_bob.Tests.Samples.{fixed_floats}
use poly_bob.Tests.Intents.{formats, service, asked}
use poly_bob.Execution.Intent.{TradeIntent, IntentService, IntentStatus, submitted}
use poly_bob.Execution.Intent.Restore.{Desk, create_stored, submit_stored, restore_state}
use poly_bob.Execution.Intent.Mirror.{view_of}
use poly_bob.Execution.Intent.Roundtrip.{
  IsFresh, DeskReached, opened, called, call_create, call_submit, restore_state_roundtrip,
}

abbrev Json : Type 0
Json = TradeIntent

abbrev dump : TradeIntent → Json
dump i = i

abbrev validate : Json → Option (TradeIntent)
validate i = some i

service-IsFresh : IsFresh dump validate service
unfolding lookup
service-IsFresh = record { no_view = λ id. refl; no_errors = refl; no_effects = refl }

abbrev opened_desk : Desk dump validate
opened_desk = record { service = service; rows = [] }

abbrev created_desk : Desk dump validate
created_desk = create_stored dump validate false (λ t. none) 0 [] formats 50 "i1" asked opened_desk

abbrev submitted_desk : Desk dump validate
submitted_desk =
    submit_stored dump validate false (λ t. none) 0 [] formats 100 "i1" "b1" created_desk

new_id : lookup "i1" opened_desk.rows ≡ none
unfolding lookup
new_id = refl

submitted_reached :
    DeskReached dump validate (λ i. refl) false (λ t. none) 0 [] formats submitted_desk
submitted_reached =
    called created_desk submitted_desk
      (called opened_desk created_desk (opened service service-IsFresh)
        (call_create 50 "i1" asked opened_desk new_id))
      (call_submit 100 "i1" "b1" created_desk refl)

restore_state_roundtrip_example :
    view_of "i1" (restore_state dump validate submitted_desk.rows service)
    ≡ view_of "i1" submitted_desk.service
restore_state_roundtrip_example =
    restore_state_roundtrip dump validate (λ i. refl) false (λ t. none) 0 [] formats submitted_desk
      service "i1" submitted_reached service-IsFresh

desk_is_submitted : lookup "i1" submitted_desk.service.intent_status ≡ some submitted
unfolding lookup insert erase create_stored submit_stored poly_bob.Execution.Intent.create_intent
    poly_bob.Execution.Intent.require_promoted poly_bob.Execution.Intent.find_existing_intent
    poly_bob.Execution.Intent.find_in_memory poly_bob.Execution.Intent.make_intent_legs
    poly_bob.Execution.Intent.Submit.submit_intent poly_bob.Execution.Intent.Submit.is_recent
    poly_bob.Execution.Intent.Submit.open_intents poly_bob.Execution.Intent.Submit.evaluate_risk
    poly_bob.Execution.Intent.Submit.intent_signature poly_bob.Store.Intents.find_by_idempotency_key
    poly_bob.Store.Intents.key_taken poly_bob.Store.Intents.save
    poly_bob.Store.Intents.update_status poly_bob.Risk.Checker.evaluate_intent
    poly_bob.Risk.Checker.evaluate_known poly_bob.Risk.Checker.scan_legs
    poly_bob.Risk.Checker.check_order poly_bob.Risk.Checker.gross_from
    poly_bob.Risk.Checker.leg_fields poly_bob.Risk.Checker.market_reasons
    poly_bob.Risk.Checker.scan_leg poly_bob.Base.Float.abs
    poly_bob.Execution.Basket.Submit.make_legs poly_bob.Execution.Basket.Submit.submit_basket
    poly_bob.Execution.Basket.Submit.submit_leg poly_bob.Execution.Basket.Submit.submit_legs
    poly_bob.Execution.Basket.derive_status poly_bob.Execution.Intent.Restore.persist_effect
    poly_bob.Execution.Intent.Restore.persist_effects poly_bob.Execution.Orders.create_order
    poly_bob.Execution.Orders.execute_trade poly_bob.Execution.Orders.get_order
    poly_bob.Execution.Orders.get_order_status poly_bob.Execution.Orders.submit_order
desk_is_submitted = refl
