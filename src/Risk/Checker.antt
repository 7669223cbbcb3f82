-- ===== src/Risk/Checker.antt =====
-- `PortfolioRiskChecker` and the deprecated `RiskChecker` (modules/risk_manager/risk_checker.py).
-- A reason is kept as the values that its text is made of.
use poly_bob.Base.{
  ℕ, Bool, true, false, Option, some, none, if◌then◌else◌, String, List, [], ◌∷◌, ◌++◌, map, nat_eq,
  string_eq, get_or, or_else, is_empty, length, ltb, or_str,
}
use poly_bob.Base.Dict.{Dict, lookup, insert}
use poly_bob.Base.Float.{Floats, Float, ◌<f◌, ◌+f◌, ◌-f◌, ◌*f◌, lit, 0f, abs}

module _ ⦃fl : Floats⦄ where
  pub record RiskLimits : Type 0 where
    pub max_gross_notional : Float
    pub max_market_notional : Float
    pub max_basket_legs : ℕ
    pub max_order_notional : Float
    pub min_cash_buffer : Float

  -- The defaults of the dataclass.
  abbrev pub default_limits : RiskLimits
  default_limits = record {
    max_gross_notional = lit 10_000_000 0;
    max_market_notional = lit 2_500_000 0;
    max_basket_legs = 20;
    max_order_notional = lit 1_000_000 0;
    min_cash_buffer = 0f;
  }

  pub data Reason : Type 0 where
    positions_unavailable : Reason
    too_many_legs : (legs limit : ℕ) → Reason
    no_price : (market : String) → Reason
    order_too_large : (notional : Float) (market : String) → Reason
    gross_too_large : (gross : Float) → Reason
    market_too_large : (total : Float) (market : String) → Reason
    cash_unavailable : Reason
    cash_too_low : (remaining : Float) → Reason

  pub data Measure : Type 0 where
    leg_count proposed_notional existing_gross_notional gross_notional cash_after_trade : Measure
    market_notional : String → Measure

  pub record RiskDecision : Type 0 where
    pub allowed : Bool
    pub reasons : List Reason
    pub measurements : List (Measure × Float)

  -- What a price is looked up as: a key that is not there, None, or a number.
  pub data Entry : Type 0 where
    absent null : Entry
    number : Float → Entry

  -- A dict, an object with an `instrument`, or an object without one.
  pub data Leg : Type 0 where
    mapping :
        (market_id symbol : Option String) (quantity : Float) (limit_price price : Entry) → Leg
    instrumented :
        (market_id : Option String) (symbol : String) (quantity : Float) (limit_price price : Entry)
        → Leg
    plain : (market_id symbol : Option String) (quantity : Float) (limit_price price : Entry) → Leg

  abbrev pub value : Entry → Option Float
  value (number x) = some x
  value _ = none

  -- `leg.get("limit_price", leg.get("price"))`: a limit price of None is not replaced.
  abbrev pub get_price : Entry → Entry → Option Float
  get_price absent price = value price
  get_price limit_price _ = value limit_price

  -- `getattr(leg, "limit_price", None)`, and the price if that is None
  abbrev pub attribute_price : Entry → Entry → Option Float
  attribute_price limit_price price = or_else (value limit_price) (value price)

  unfoldable pub leg_fields : Leg → String × Float × Option Float
  leg_fields (mapping market symbol quantity limit_price price) = (
    get_or (or_str market (or_str symbol (some "unknown"))) "unknown",
    quantity,
    get_price limit_price price,
  )
  leg_fields (instrumented market symbol quantity limit_price price) =
      (get_or (or_str market (some symbol)) "unknown", quantity, attribute_price limit_price price)
  leg_fields (plain market symbol quantity limit_price price) = (
    get_or (or_str market (some (get_or symbol "unknown"))) "unknown",
    quantity,
    attribute_price limit_price price,
  )

  -- `abs(quantity) * abs(price)`
  abbrev pub notional : Float → Float → Float
  notional quantity price = abs quantity *f abs price

  -- The variables of the loop over the legs.
  pub record Scan : Type 0 where
    pub reasons : List Reason
    pub by_market : Dict String Float
    pub total : Float

  abbrev pub add_notional : RiskLimits → String → Float → Scan → Scan
  add_notional limits market amount s = record {
    reasons =
        if limits.max_order_notional <f amount
        then s.reasons ++ order_too_large amount market ∷ []
        else s.reasons;
    by_market = insert market (get_or (lookup market s.by_market) 0f +f amount) s.by_market;
    total = s.total +f amount;
  }

  abbrev pub scan_fields : RiskLimits → String → Float → Option Float → Scan → Scan
  scan_fields limits market quantity none s = record s {
    reasons = s.reasons ++ no_price market ∷ [];
  }
  scan_fields limits market quantity (some price) s =
      add_notional limits market (notional quantity price) s

  unfoldable pub scan_leg : RiskLimits → Leg → Scan → Scan
  scan_leg limits leg s =
      let (market, quantity, price) = leg_fields leg in scan_fields limits market quantity price s

  unfoldable pub scan_legs : RiskLimits → List Leg → Scan → Scan
  scan_legs limits [] s = s
  scan_legs limits (leg ∷ legs) s = scan_legs limits legs (scan_leg limits leg s)

  -- `sum(abs(float(v)) for v in positions.values())`
  unfoldable pub gross_from : Float → Dict String Float → Float
  gross_from acc [] = acc
  gross_from acc ((_, v) ∷ positions) = gross_from (acc +f abs v) positions

  abbrev pub market_total : Dict String Float → String → Float → Float
  market_total positions market proposed = abs (get_or (lookup market positions) 0f) +f proposed

  unfoldable pub market_reasons : RiskLimits → Dict String Float → Dict String Float → List Reason
  market_reasons limits positions [] = []
  market_reasons limits positions ((market, proposed) ∷ rest) =
      let total = market_total positions market proposed in
      let more = market_reasons limits positions rest in
      if limits.max_market_notional <f total then market_too_large total market ∷ more else more

  abbrev market_measures : Dict String Float → Dict String Float → List (Measure × Float)
  market_measures positions proposed =
      map (λ e. (market_notional e.0, market_total positions e.0 e.1)) proposed

  abbrev pub cash_reasons : RiskLimits → Option Float → Float → List Reason
  cash_reasons limits none proposed = cash_unavailable ∷ []
  cash_reasons limits (some cash) proposed =
      if cash -f proposed <f limits.min_cash_buffer
      then cash_too_low (cash -f proposed) ∷ []
      else []

  abbrev cash_measures : Option Float → Float → List (Measure × Float)
  cash_measures none proposed = []
  cash_measures (some cash) proposed = (cash_after_trade, cash -f proposed) ∷ []

  abbrev pub fresh_scan : Scan
  fresh_scan = record { reasons = []; by_market = []; total = 0f }

  -- The evaluation with known positions.
  unfoldable pub evaluate_known :
      RiskLimits → List Leg → Dict String Float → Option Float → RiskDecision
  evaluate_known limits legs positions cash =
      let count : ℕ = length legs in
      let scan = scan_legs limits legs fresh_scan in
      let existing = gross_from 0f positions in
      let gross = existing +f scan.total in
      let buffered = 0f <f limits.min_cash_buffer in
      let reasons =
        (if ltb limits.max_basket_legs count
          then too_many_legs count limits.max_basket_legs ∷ []
          else [])
        ++ scan.reasons
        ++ (if limits.max_gross_notional <f gross then gross_too_large gross ∷ [] else [])
        ++ market_reasons limits positions scan.by_market
        ++ (if buffered then cash_reasons limits cash scan.total else []) in
      record {
        allowed = is_empty reasons;
        reasons = reasons;
        measurements =
            (leg_count, lit count 0)
            ∷ (proposed_notional, scan.total)
            ∷ (existing_gross_notional, existing)
            ∷ (gross_notional, gross)
            ∷ (market_measures positions scan.by_market
                ++ (if buffered then cash_measures cash scan.total else []));
      }

  unfoldable pub evaluate_intent :
      RiskLimits → List Leg → Option (Dict String Float) → Option Float → RiskDecision
  evaluate_intent limits legs none cash = record {
    allowed = false;
    reasons = positions_unavailable ∷ [];
    measurements = [];
  }
  evaluate_intent limits legs (some positions) cash = evaluate_known limits legs positions cash

  -- The row that `_audit` appends for a decision; the append may fail without effect on the caller.
  pub record AuditEvent : Type 0 where
    pub subject_id : Option String
    pub decision : RiskDecision

  unfoldable pub audit :
      (audit_db_path : Option String) → RiskDecision → Option String → List AuditEvent
  audit none decision subject = []
  audit (some _) decision subject = record { subject_id = subject; decision = decision } ∷ []

  -- The deprecated checker.
  pub record RiskChecker : Type 0 where
    pub max_position : Float
    pub max_order_size : Float
    pub current_position : Float

  pub data Verdict : Type 0 where
    passed order_over_limit position_over_limit : Verdict

  unfoldable pub check_order : RiskChecker → Float → Bool × Verdict
  check_order c size =
      if c.max_order_size <f size
      then (false, order_over_limit)
      else if c.max_position <f abs (c.current_position +f size)
      then (false, position_over_limit)
      else (true, passed)

  unfoldable pub update_position : RiskChecker → Float → RiskChecker
  update_position c size = record c { current_position = c.current_position +f size }
