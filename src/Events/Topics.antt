-- ===== src/Events/Topics.antt =====
-- The topics of the bus and its two delivery classes (libs/events/__init__.py).
use poly_bob.Base.{Bool, true, false, String, nat_eq, string_eq}

pub data Topic : Type 0 where
  market_discovered market_status_changed market_watchlist_updated : Topic
  orderbook_tick trade_tick bbo_tick : Topic
  feature_snapshot feature_alert pair_snapshot pair_alert : Topic
  onchain_transfer_ingested onchain_distribution_alert : Topic
  signal_generated strategy_instance_created strategy_instance_started : Topic
  strategy_instance_stopped strategy_instance_deleted strategy_intent_created : Topic
  risk_decision risk_alert risk_intent_checked risk_kill_switch_triggered : Topic
  order_request order_update fill_update order_basket_submitted order_leg_updated : Topic
  portfolio_exposure_changed ai_note websocket_connected websocket_disconnected : Topic

-- The constants of `Topics`.
unfoldable pub name : Topic → String
name market_discovered = "markets.discovered"
name market_status_changed = "markets.status_changed"
name market_watchlist_updated = "markets.watchlist_updated"
name orderbook_tick = "marketdata.orderbook"
name trade_tick = "marketdata.trades"
name bbo_tick = "marketdata.bbo"
name feature_snapshot = "features.snapshots"
name feature_alert = "features.alert"
name pair_snapshot = "features.pairs.snapshots"
name pair_alert = "features.pairs.alert"
name onchain_transfer_ingested = "features.onchain.transfer_ingested"
name onchain_distribution_alert = "features.onchain.distribution_alert"
name signal_generated = "signals.generated"
name strategy_instance_created = "strategies.instances.created"
name strategy_instance_started = "strategies.instances.started"
name strategy_instance_stopped = "strategies.instances.stopped"
name strategy_instance_deleted = "strategies.instances.deleted"
name strategy_intent_created = "strategies.intents.created"
name risk_decision = "risk.decisions"
name risk_alert = "risk.alerts"
name risk_intent_checked = "risk.intents.checked"
name risk_kill_switch_triggered = "risk.kill_switch.triggered"
name order_request = "orders.requests"
name order_update = "orders.updates"
name fill_update = "orders.fills"
name order_basket_submitted = "orders.baskets.submitted"
name order_leg_updated = "orders.legs.updated"
name portfolio_exposure_changed = "portfolio.exposure.changed"
name ai_note = "ai.notes"
name websocket_connected = "system.websocket.connected"
name websocket_disconnected = "system.websocket.disconnected"

-- `topic in CRITICAL_TOPICS`
unfoldable pub is_critical : Topic → Bool
is_critical order_request = true
is_critical order_update = true
is_critical fill_update = true
is_critical order_basket_submitted = true
is_critical order_leg_updated = true
is_critical strategy_intent_created = true
is_critical signal_generated = true
is_critical risk_decision = true
is_critical risk_intent_checked = true
is_critical risk_kill_switch_triggered = true
is_critical portfolio_exposure_changed = true
is_critical _ = false

-- `topic in LOSSY_TOPICS`
unfoldable pub is_lossy : Topic → Bool
is_lossy orderbook_tick = true
is_lossy trade_tick = true
is_lossy bbo_tick = true
is_lossy feature_snapshot = true
is_lossy pair_snapshot = true
is_lossy _ = false
