-- ===== src/Risk/Decision.antt =====
-- When `evaluate_intent` allows (modules/risk_manager/risk_checker.py).
use poly_bob.Base.{
  ◌≤◌, ◌≡◌, refl, sym, ◌∙◌, ◌↔◌, true, ◌&&◌, Option, some, none, if◌then◌else◌, arith, String, List,
  [], ◌∷◌, nat_eq, string_eq, is_empty, length, all, ltb,
}
use poly_bob.Base.Dict.{Dict, lookup, IsUnique}
use poly_bob.Base.Float.{Floats, Float, ◌≤f◌, ◌<f◌, ◌+f◌, 0f}
use poly_bob.Risk.Checker.{
  RiskLimits, Reason, Leg, Scan, scan_legs, gross_from, market_reasons, cash_reasons, too_many_legs,
  gross_too_large, fresh_scan, evaluate_known, evaluate_intent,
}
use poly_bob.Risk.Admissible.{leg_amount, total_from, proposed_at, amount_ok, IsAdmissible}
use poly_bob.Risk.Scan.{
  scan_legs-total, scan_legs-total, scan_legs-market, scan_legs-market, scan_legs-IsUnique,
  scan_legs-IsUnique, scan_legs-reasons, scan_legs-reasons, market_reasons-within,
  market_reasons-within, within-market_reasons, within-market_reasons, cash_reasons-ok,
  cash_reasons-ok, ok-cash_reasons, ok-cash_reasons, five, five, all_five, all_five, empty_five,
}

module _ ⦃fl : Floats⦄ where
  module _ (limits : RiskLimits) (legs : List Leg) (positions : Dict String Float)
      (cash : Option Float) where
    scan : Scan
    scan = scan_legs limits legs fresh_scan

    total_lem : scan.total ≡ total_from 0f legs
    unfolding scan
    total_lem = scan_legs-total limits legs fresh_scan

    orders_lem : is_empty scan.reasons ≡ all (λ leg. amount_ok limits (leg_amount leg)) legs
    unfolding scan
    orders_lem = scan_legs-reasons limits legs fresh_scan

    unique_lem : IsUnique scan.by_market
    unfolding scan
    unique_lem = scan_legs-IsUnique limits legs fresh_scan tt

    market_lem : (m : String) → lookup m scan.by_market ≡ proposed_at m legs none
    unfolding scan lookup
    market_lem m = scan_legs-market limits m legs fresh_scan

    abbrev few : List Reason
    few =
        if ltb limits.max_basket_legs (length legs)
        then too_many_legs (length legs) limits.max_basket_legs ∷ []
        else []

    abbrev gross_all : Float
    gross_all = gross_from 0f positions +f scan.total

    abbrev over_gross : List Reason
    over_gross =
        if limits.max_gross_notional <f gross_all then gross_too_large gross_all ∷ [] else []

    abbrev over_cash : List Reason
    over_cash = if 0f <f limits.min_cash_buffer then cash_reasons limits cash scan.total else []

    reasons_lem : (evaluate_known limits legs positions cash).allowed ≡ (
        is_empty few
        && (is_empty scan.reasons
            && (is_empty over_gross
                && (is_empty (market_reasons limits positions scan.by_market)
                    && is_empty over_cash))))
    unfolding evaluate_known scan
    reasons_lem =
        empty_five few scan.reasons over_gross (market_reasons limits positions scan.by_market)
          over_cash

    few_lem : is_empty few ≡ true → length legs ≤ limits.max_basket_legs
    few_lem h = ground arith

    gross_lem : is_empty over_gross ≡ true → (gross_all ≤f limits.max_gross_notional) ≡ true
    gross_lem h = ground arith

    known-IsAdmissible :
        (evaluate_known limits legs positions cash).allowed ≡ true
        → IsAdmissible limits legs positions cash
    known-IsAdmissible h =
        let (h1, h2, h3, h4, h5) =
          five (is_empty few) (is_empty scan.reasons) (is_empty over_gross)
            (is_empty (market_reasons limits positions scan.by_market)) (is_empty over_cash)
            (sym reasons_lem ∙ h) in
        record {
          few_legs = few_lem h1;
          orders = all_orders h2;
          gross = rw (← total_lem) (gross_lem h3);
          markets = λ m a e.
              market_reasons-within limits positions scan.by_market m a h4 (market_lem m ∙ e);
          buffer = λ b.
              let (c, e, w) = cash_reasons-ok limits cash scan.total h5 b in
              (c, e, rw (← total_lem) w);
        }
      where
        all_orders :
            is_empty scan.reasons ≡ true
            → all (λ leg. amount_ok limits (leg_amount leg)) legs ≡ true
        all_orders h = sym orders_lem ∙ h

    IsAdmissible-known :
        IsAdmissible limits legs positions cash
        → (evaluate_known limits legs positions cash).allowed ≡ true
    IsAdmissible-known v =
        reasons_lem
        ∙ all_five (ground (arith, v.few_legs)) (orders_lem ∙ v.orders)
            (let g : (gross_all ≤f limits.max_gross_notional) ≡ true = rw total_lem v.gross in
              ground arith)
            (within-market_reasons limits positions scan.by_market unique_lem
              (λ m a e. v.markets m a (sym (market_lem m) ∙ e)))
            (ok-cash_reasons limits cash scan.total
              (λ b. let (c, e, w) = v.buffer b in (c, e, rw total_lem w)))

  -- A decision is allowed exactly if the position data is there, no more legs than the limit are
  -- proposed, every leg has a price and a notional within the order limit, the existing and the
  -- proposed notionals together are within the gross limit, each market with a priced leg is within
  -- the market limit, and, if a cash buffer is asked for, cash is known and leaves the buffer.
  pub evaluate_intent_iff :
      (limits : RiskLimits) (legs : List Leg) (positions : Option (Dict String Float))
      (cash : Option Float)
      → ((evaluate_intent limits legs positions cash).allowed ≡ true)
        ↔ ((p : Dict String Float) × (positions ≡ some p) × IsAdmissible limits legs p cash)
  unfolding evaluate_intent
  evaluate_intent_iff limits legs none cash = ((λ h. cc), (λ h. cc (h.1)))
  evaluate_intent_iff limits legs (some p) cash = (
    (λ h. (p, refl, known-IsAdmissible limits legs p cash h)),
    (λ (q, e, v). let same : q ≡ p = cc in IsAdmissible-known limits legs p cash (rw same at v)),
  )
