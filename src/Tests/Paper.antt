-- ===== src/Tests/Paper.antt =====
-- A paper run that follows one signal, and the life of a run.
use poly_bob.Base.{
  ℕ, zero, suc, ◌+◌, ◌-◌, ◌*◌, ◌/◌, ◌%◌, ◌≤◌, ◌<◌, ◌≡◌, refl, sym, ap, ◌∙◌, ◌≢◌, ◌↔◌, ◌⊎◌, inl, inr,
  Bool, true, false, not, ◌&&◌, ◌||◌, Option, some, none, if◌then◌else◌, arith, String, List, [],
  ◌∷◌, ◌++◌, map, append-nil, append_assoc, ◌==◌, Eq, nat_eq, string_eq, get_or, or_else, All,
  All-imp, All-append, is_some, is_empty, length, any, all, keep, count, Bool-cases, Option-cases,
  ltb, leb, length-append, found, some_pair, or_str, is_text,
}
use poly_bob.Base.Dict.{lookup, insert, erase}
use poly_bob.Base.Float.{Floats, Float, ◌<f◌, lit, 0f}
use poly_bob.Tests.Samples.{fixed_floats}
use poly_bob.Risk.Checker.{default_limits}
use poly_bob.Simulation.Fills.{
  RunConfig, Side, buy, SimSignal, book_ok, fill_price, fill_price-positive,
}
use poly_bob.Simulation.Trading.{
  running, paused, stopped, is_running, Position, Trade, ActiveRun, is_degraded, list_positions,
  equity_snapshot, mark_signal, too_old, cooling, process_signal,
}
use poly_bob.Simulation.Gate.{
  Allowed, process_signal-trades, equity_snapshot-degraded, LacksFreshMark,
}
use poly_bob.Simulation.Runs.{
  RunRecord, SimulationService, RunError, get_run_record, create_run, start_run, pause_run,
  stop_run,
}
use poly_bob.Simulation.Lifecycle.{
  IsSynced, stopped_run, creates, starts, done, then_call, Calls-IsSynced,
}

abbrev config : RunConfig
config = record {
  position_fraction = lit 5 2;
  fee_bps = lit 20 0;
  mid_penalty_bps = lit 10 0;
  impact_coefficient = lit 1 1;
  max_staleness = 30;
  cooldown = 60;
  min_trade_notional = lit 10 0;
}

abbrev signal : SimSignal
signal = record {
  instrument_id = "rain";
  side = buy;
  confidence = lit 8 1;
  bid = some (lit 49 2);
  ask = some (lit 50 2);
  mid = none;
  bid_depth = none;
  ask_depth = none;
  timestamp = some 90;
}

abbrev run : ActiveRun
run = record {
  status = running;
  cash = lit 1000 0;
  config = config;
  marks = [];
  mark_times = [];
  last_trade_at = [];
  risk_rejections = 0;
  positions = [];
  trades = [];
  equity_points = [];
}

-- The ask, without impact.
fills : fill_price config signal (lit 100 0) ≡ some (lit 50 2, lit 0 0)
unfolding fill_price poly_bob.Simulation.Fills.base_price poly_bob.Base.Float.abs
fills = refl

fill_price-positive_example :
    ((0f <f lit 50 2) ≡ true) × ((book_ok signal.bid signal.ask || is_some signal.mid) ≡ true)
fill_price-positive_example =
    fill_price-positive config signal (lit 100 0) (lit 50 2) (lit 0 0) fills

one_trade : length (process_signal default_limits 100 signal run).trades ≡ 1
unfolding process_signal mark_signal lookup insert erase equity_snapshot
    poly_bob.Simulation.Trading.value_positions list_positions poly_bob.Simulation.Trading.proposal
    poly_bob.Base.Float.abs poly_bob.Simulation.Trading.check_trade
    poly_bob.Risk.Checker.evaluate_intent poly_bob.Risk.Checker.evaluate_known
    poly_bob.Risk.Checker.scan_legs poly_bob.Risk.Checker.scan_leg poly_bob.Risk.Checker.leg_fields
    poly_bob.Risk.Checker.gross_from poly_bob.Risk.Checker.market_reasons
    poly_bob.Simulation.Fills.base_price fill_price poly_bob.Simulation.Fills.sqrt_impact
    poly_bob.Simulation.Trading.execute is_degraded poly_bob.Simulation.Trading.record_equity
    poly_bob.Simulation.Trading.upsert_position
one_trade = refl

trades_once : (process_signal default_limits 100 signal run).trades ≢ run.trades
trades_once h =
    let counts : length (process_signal default_limits 100 signal run).trades ≡ 0 = ap length h in
    let one_is_none : ◌≡◌ {A = ℕ} 1 0 = sym one_trade ∙ counts in ground (arith)

process_signal-trades_example :
    (is_running run.status ≡ true)
    × (too_old config.max_staleness 100 signal.timestamp ≡ false)
    × (cooling config.cooldown 100 (lookup "rain" run.last_trade_at) ≡ false)
    × ((0f <f (equity_snapshot 100 (mark_signal signal run)).equity) ≡ true)
    × Allowed default_limits 100 signal (mark_signal signal run)
process_signal-trades_example = process_signal-trades default_limits 100 signal run trades_once

-- A position whose mark was set by a signal only: it has no time.
abbrev marked_run : ActiveRun
marked_run = record run {
  positions = ("rain", record { size = lit 1 0; avg_price = lit 50 2 }) ∷ [];
  marks = ("rain", lit 60 2) ∷ [];
}

-- The same with a mark that was observed at 100.
abbrev old_run : ActiveRun
old_run = record marked_run { mark_times = ("rain", 100) ∷ [] }

equity_snapshot-degraded_example : ((equity_snapshot 1000000000 old_run).degraded ≡ true) ↔ (
    (id : String) × (p : Position) × (lookup id old_run.positions ≡ some p)
    × LacksFreshMark 1000000000 old_run id)
equity_snapshot-degraded_example = equity_snapshot-degraded 1000000000 old_run

is_degraded_now : (equity_snapshot 1000000000 old_run).degraded ≡ true
unfolding equity_snapshot poly_bob.Simulation.Trading.value_positions list_positions is_degraded
    lookup
is_degraded_now = refl

not_degraded : (equity_snapshot 1000 marked_run).degraded ≡ false
unfolding equity_snapshot poly_bob.Simulation.Trading.value_positions list_positions is_degraded
    lookup
not_degraded = refl

abbrev momentum : String → Bool
momentum s = s == "momentum_dualma_v1"

abbrev idle_service : SimulationService
idle_service = record { store = []; active = [] }

abbrev created_service : SimulationService
created_service =
    (create_run momentum "sim_1" "momentum_dualma_v1" ("rain" ∷ []) (lit 1000 0) idle_service).0

abbrev started_service : SimulationService
started_service = (start_run momentum "sim_1" created_service).0

Calls-IsSynced_example : IsSynced started_service
Calls-IsSynced_example = Calls-IsSynced momentum {s = idle_service} {t = started_service} refl (
    then_call {t = created_service}
      (then_call {t = idle_service} done
        (creates "sim_1" "momentum_dualma_v1" ("rain" ∷ []) (lit 1000 0)))
      (starts "sim_1"))

abbrev ended_row : RunRecord
ended_row = record {
  run_id = "sim_1";
  strategy_id = "momentum_dualma_v1";
  universe = "rain" ∷ [];
  initial_capital = lit 1000 0;
  cash = lit 1000 0;
  status = stopped;
}

abbrev ended_service : SimulationService
ended_service = record { store = ("sim_1", ended_row) ∷ []; active = [] }

ended : get_run_record "sim_1" ended_service ≡ some ended_row
unfolding get_run_record lookup
ended = refl

stopped_run_example :
    (start_run momentum "sim_1" ended_service ≡ (ended_service, inl RunError.invalid_transition))
    × (pause_run momentum "sim_1" ended_service ≡ (ended_service, inl RunError.invalid_transition))
    × (stop_run momentum "sim_1" ended_service ≡ (ended_service, inl RunError.invalid_transition))
stopped_run_example = stopped_run momentum "sim_1" ended_service ended_row ended refl
