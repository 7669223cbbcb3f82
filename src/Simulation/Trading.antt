-- ===== src/Simulation/Trading.antt =====
-- One signal of a run (modules/simulation/service.py): `_process_signal`, `_equity_snapshot`,
-- `_update_mark` and `_record_equity`. All clock readings of a call are one `now`. The positions are a
-- dictionary that the store lists by instrument id (libs/db/simulation_store.py). The texts of a trade
-- are left out.
use poly_bob.Base.{
  ℕ, ◌+◌, Bool, true, false, ◌||◌, Option, some, none, if◌then◌else◌, String, List, [], ◌∷◌, ◌++◌,
  nat_eq, string_eq, get_or, or_else, is_some, ltb,
}
use poly_bob.Base.Dict.{Dict, lookup, insert, erase}
use poly_bob.Base.Float.{Floats, Float, ◌≤f◌, ◌<f◌, ◌+f◌, ◌-f◌, ◌*f◌, ◌/f◌, lit, 0f, 1f, abs}
use Prim.Native.Nat.{Ordering}
use Prim.Native.String.{compare as text_compare}
use poly_bob.Risk.Checker.{RiskLimits, mapping, number, absent, RiskDecision, evaluate_intent}
use poly_bob.Simulation.Fills.{
  RunConfig, Side, by_side, SimSignal, fill_price, apply_avg_price_fill,
}

pub data RunStatus : Type 0 where
  running paused stopped : RunStatus

abbrev pub is_running : RunStatus → Bool
is_running running = true
is_running _ = false

module _ ⦃fl : Floats⦄ where
  pub record Position : Type 0 where
    pub size : Float
    pub avg_price : Float

  pub record Trade : Type 0 where
    pub instrument_id : String
    pub side : Side
    pub size : Float
    pub price : Float
    pub fee : Float
    pub slippage : Float
    pub realized_pnl : Option Float

  pub record EquityPoint : Type 0 where
    pub equity : Float
    pub cash : Float
    pub gross_exposure : Float
    pub degraded : Bool

  -- `_ActiveRun` with its rows of the store.
  pub record ActiveRun : Type 0 where
    pub status : RunStatus
    pub cash : Float
    pub config : RunConfig
    pub marks : Dict String Float
    pub mark_times : Dict String ℕ
    pub last_trade_at : Dict String ℕ
    pub risk_rejections : ℕ
    pub positions : Dict String Position
    pub trades : List Trade
    pub equity_points : List EquityPoint

  -- `ORDER BY instrument_id`
  abbrev pub insert_by_id : String × Position → Dict String Position → Dict String Position
  insert_by_id p [] = p ∷ []
  insert_by_id p (q ∷ qs) =
      let rest = insert_by_id p qs in
      elim (text_compare p.0 q.0) [ Ordering.gt ↦ q ∷ rest | _ ↦ p ∷ q ∷ qs ]

  unfoldable pub list_positions : Dict String Position → Dict String Position
  list_positions [] = []
  list_positions (p ∷ ps) = insert_by_id p (list_positions ps)

  unfoldable pub upsert_position :
      String → Float → Float → Dict String Position → Dict String Position
  upsert_position id size avg_price ps =
      if abs size <f lit 1 12
      then erase id ps
      else insert id (record { size = size; avg_price = avg_price }) ps

  pub record Equity : Type 0 where
    pub equity : Float
    pub gross : Float
    pub notionals : Dict String Float
    pub degraded : Bool

  -- An observation older than the limit; one without a time is not.
  abbrev pub is_stale : ℕ → ℕ → Option ℕ → Bool
  is_stale limit now none = false
  is_stale limit now (some seen) = ltb (seen + limit) now

  -- A position that is not valued at a fresh mark, as the code tests it.
  unfoldable pub is_degraded : ℕ → ActiveRun → String → Bool
  is_degraded now r id =
      if is_some (lookup id r.marks)
      then is_stale r.config.max_staleness now (lookup id r.mark_times)
      else true

  -- The loop of `_equity_snapshot`.
  unfoldable pub value_positions : ℕ → ActiveRun → Dict String Position → Equity → Equity
  value_positions now r [] e = e
  value_positions now r ((id, p) ∷ ps) e =
      let mark = get_or (lookup id r.marks) p.avg_price in
      let notional = abs p.size *f mark in
      value_positions now r ps (record {
        equity = e.equity +f p.size *f mark;
        gross = e.gross +f notional;
        notionals = insert id notional e.notionals;
        degraded = is_degraded now r id || e.degraded;
      })

  unfoldable pub equity_snapshot : ℕ → ActiveRun → Equity
  equity_snapshot now r =
      value_positions now r (list_positions r.positions)
        (record { equity = r.cash; gross = 0f; notionals = []; degraded = false })

  unfoldable pub record_equity : ℕ → ActiveRun → ActiveRun
  record_equity now r =
      let e = equity_snapshot now r in
      record r {
        equity_points =
            r.equity_points
            ++ record {
              equity = e.equity;
              cash = r.cash;
              gross_exposure = e.gross;
              degraded = e.degraded;
            }
              ∷ [];
      }

  -- `(a + b) / 2.0`, where both are there.
  abbrev pub middle : Option Float → Option Float → Option Float
  middle (some a) (some b) = some ((a +f b) /f lit 2 0)
  middle _ _ = none

  -- What a snapshot says: the key is none where it is empty, and the time is none where it is no
  -- datetime.
  pub record MarketSnapshot : Type 0 where
    pub key : Option String
    pub mid_price : Option Float
    pub bid_price : Option Float
    pub ask_price : Option Float
    pub timestamp : Option ℕ

  unfoldable pub update_mark : ℕ → MarketSnapshot → ActiveRun → ActiveRun
  update_mark now s r = elim s.key [
    | none ↦ r
    | some key ↦ elim (or_else s.mid_price (middle s.bid_price s.ask_price)) [
      | none ↦ r
      | some mid ↦ if mid ≤f 0f then r else record r {
        marks = insert key mid r.marks;
        mark_times = insert key (get_or s.timestamp now) r.mark_times;
      }
    ]
  ]

  -- The mark that a signal carries.
  unfoldable pub mark_signal : SimSignal → ActiveRun → ActiveRun
  mark_signal s r = elim (or_else s.mid (middle s.bid s.ask)) [
    | none ↦ r
    | some mid ↦ record r { marks = insert s.instrument_id mid r.marks }
  ]

  -- `age is None or age > max_staleness_seconds`
  abbrev pub too_old : ℕ → ℕ → Option ℕ → Bool
  too_old limit now none = true
  too_old limit now (some t) = ltb (t + limit) now

  abbrev pub cooling : ℕ → ℕ → Option ℕ → Bool
  cooling window now none = false
  cooling window now (some last) = ltb now (last + window)

  abbrev pub direction : Side → Float
  direction side = by_side side 1f (fl.neg 1f)

  abbrev pub held : String → ActiveRun → Position
  held id r = get_or (lookup id r.positions) (record { size = 0f; avg_price = 0f })

  -- The quantity to trade and the price it is estimated at; none where the code returns.
  unfoldable pub proposal : SimSignal → Float → ActiveRun → Option (Float × Float)
  proposal s equity r = elim (or_else (by_side s.side s.ask s.bid) s.mid) [
    | none ↦ none
    | some est ↦
        let qty =
          direction s.side *f (r.config.position_fraction *f equity) /f est
          -f (held s.instrument_id r).size in
        if est ≤f 0f
        then none
        else if qty *f direction s.side ≤f 0f
        then none
        else if abs qty *f est <f r.config.min_trade_notional
        then none
        else some (qty, est)
  ]

  unfoldable pub check_trade :
      RiskLimits → String → Float → Float → Dict String Float → Float → RiskDecision
  check_trade limits instrument qty est notionals cash =
      evaluate_intent limits (mapping (some instrument) none qty absent (number est) ∷ [])
        (some notionals) (some cash)

  -- The fill: the trade, the position, the cash and the equity point.
  unfoldable pub execute : ℕ → SimSignal → Float → Float → Float → ActiveRun → ActiveRun
  execute now s qty raw_price slippage r =
      let current = held s.instrument_id r in
      let fee = abs qty *f raw_price *f (r.config.fee_bps /f lit 10000 0) in
      let effective = raw_price +f fee /f abs qty *f (if 0f <f qty then 1f else fl.neg 1f) in
      let (new_size, new_avg, realized) =
        apply_avg_price_fill current.size current.avg_price qty effective in
      record_equity now (record r {
        trades =
            r.trades
            ++ record {
              instrument_id = s.instrument_id;
              side = s.side;
              size = abs qty;
              price = raw_price;
              fee = fee;
              slippage = slippage;
              realized_pnl = realized;
            }
              ∷ [];
        positions = upsert_position s.instrument_id new_size new_avg r.positions;
        cash = r.cash -f qty *f effective;
        last_trade_at = insert s.instrument_id now r.last_trade_at;
      })

  abbrev pub filled_or_not : ℕ → SimSignal → Float → Option (Float × Float) → ActiveRun → ActiveRun
  filled_or_not now s qty none r = r
  filled_or_not now s qty (some (price, slippage)) r = execute now s qty price slippage r

  abbrev pub trade_or_not :
      RiskLimits → ℕ → SimSignal → Equity → Option (Float × Float) → ActiveRun → ActiveRun
  trade_or_not limits now s e none r = r
  trade_or_not limits now s e (some (qty, est)) r =
      if (check_trade limits s.instrument_id qty est e.notionals r.cash).allowed
      then filled_or_not now s qty (fill_price r.config s qty) r
      else record r { risk_rejections = r.risk_rejections + 1 }

  abbrev pub act : RiskLimits → ℕ → SimSignal → ActiveRun → ActiveRun
  act limits now s r =
      let e = equity_snapshot now r in
      if too_old r.config.max_staleness now s.timestamp
      then r
      else if cooling r.config.cooldown now (lookup s.instrument_id r.last_trade_at)
      then r
      else if e.equity ≤f 0f
      then r
      else trade_or_not limits now s e (proposal s e.equity r) r

  unfoldable pub process_signal : RiskLimits → ℕ → SimSignal → ActiveRun → ActiveRun
  process_signal limits now s r =
      if is_running r.status then act limits now s (mark_signal s r) else r
