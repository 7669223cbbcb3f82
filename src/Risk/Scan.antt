-- ===== src/Risk/Scan.antt =====
-- What the loops of `evaluate_intent` gather (modules/risk_manager/risk_checker.py).
use poly_bob.Base.{
  ◌≡◌, refl, ap, ◌∙◌, inl, inr, Bool, true, ◌&&◌, Option, some, none, if◌then◌else◌, arith, String,
  List, [], ◌∷◌, ◌++◌, ◌==◌, nat_eq, string_eq, get_or, is_empty, all, Bool-cases,
}
use poly_bob.Base.Dict.{Dict, lookup, IsUnique, insert-IsUnique, lookup-insert}
use poly_bob.Base.Float.{Floats, Float, ◌≤f◌, ◌<f◌, ◌+f◌, ◌-f◌, 0f}
use poly_bob.Risk.Checker.{
  RiskLimits, Leg, leg_fields, notional, Scan, scan_fields, scan_leg, scan_legs, market_total,
  market_reasons, cash_reasons,
}
use poly_bob.Risk.Admissible.{
  amount_of, leg_amount, add_some, total_from, add_at, proposed_at, amount_ok,
}

module _ ⦃fl : Floats⦄ where
  empty-append {ℓ} :
      {A : Type ℓ} (xs ys : List A) → is_empty (xs ++ ys) ≡ (is_empty xs && is_empty ys)
  empty-append [] ys = refl
  empty-append (x ∷ xs) ys = refl

  -- What one leg does to the variables of the loop.
  scan_fields-total :
      (limits : RiskLimits) (m : String) (q : Float) (p : Option Float) (s : Scan)
      → (scan_fields limits m q p s).total ≡ add_some s.total (amount_of q p)
  scan_fields-total limits m q none s = refl
  scan_fields-total limits m q (some p) s = refl

  scan_fields-market :
      (limits : RiskLimits) (m k : String) (q : Float) (p : Option Float) (s : Scan)
      → lookup k (scan_fields limits m q p s).by_market
        ≡ add_at k m (amount_of q p) (lookup k s.by_market)
  scan_fields-market limits m k q none s = refl
  scan_fields-market limits m k q (some p) s = ground (
    arith,
    lookup-insert m k (get_or (lookup m s.by_market) 0f +f notional q p) s.by_market,
    string_eq.beq_iff m k,
  )

  scan_fields-IsUnique :
      (limits : RiskLimits) (m : String) (q : Float) (p : Option Float) (s : Scan)
      → IsUnique s.by_market
      → IsUnique (scan_fields limits m q p s).by_market
  scan_fields-IsUnique limits m q none s u = u
  scan_fields-IsUnique limits m q (some p) s u = insert-IsUnique m _ s.by_market u

  scan_fields-reasons :
      (limits : RiskLimits) (m : String) (q : Float) (p : Option Float) (s : Scan)
      → is_empty (scan_fields limits m q p s).reasons
        ≡ (is_empty s.reasons && amount_ok limits (amount_of q p))
  scan_fields-reasons limits m q none s = empty-append s.reasons _
  scan_fields-reasons limits m q (some p) s =
      elim (Bool-cases (limits.max_order_notional <f notional q p)) [
        | inl over ↦ rw (over, empty-append s.reasons) refl
        | inr within ↦ rw within (ground arith)
      ]

  pub scan_legs-total :
      (limits : RiskLimits) (legs : List Leg) (s : Scan)
      → (scan_legs limits legs s).total ≡ total_from s.total legs
  unfolding scan_legs scan_leg total_from
  scan_legs-total limits [] s = refl
  scan_legs-total limits (leg ∷ legs) s =
      let (m, q, p) = leg_fields leg in
      scan_legs-total limits legs (scan_leg limits leg s)
      ∙ ap (λ t. total_from t legs) (scan_fields-total limits m q p s)

  pub scan_legs-market :
      (limits : RiskLimits) (k : String) (legs : List Leg) (s : Scan)
      → lookup k (scan_legs limits legs s).by_market ≡ proposed_at k legs (lookup k s.by_market)
  unfolding scan_legs scan_leg proposed_at
  scan_legs-market limits k [] s = refl
  scan_legs-market limits k (leg ∷ legs) s =
      let (m, q, p) = leg_fields leg in
      scan_legs-market limits k legs (scan_leg limits leg s)
      ∙ ap (proposed_at k legs) (scan_fields-market limits m k q p s)

  pub scan_legs-IsUnique :
      (limits : RiskLimits) (legs : List Leg) (s : Scan)
      → IsUnique s.by_market
      → IsUnique (scan_legs limits legs s).by_market
  unfolding scan_legs scan_leg
  scan_legs-IsUnique limits [] s u = u
  scan_legs-IsUnique limits (leg ∷ legs) s u =
      let (m, q, p) = leg_fields leg in
      scan_legs-IsUnique limits legs (scan_leg limits leg s) (scan_fields-IsUnique limits m q p s u)

  pub scan_legs-reasons :
      (limits : RiskLimits) (legs : List Leg) (s : Scan)
      → is_empty (scan_legs limits legs s).reasons
        ≡ (is_empty s.reasons && all (λ leg. amount_ok limits (leg_amount leg)) legs)
  unfolding scan_legs scan_leg
  scan_legs-reasons limits [] s = ground arith
  scan_legs-reasons limits (leg ∷ legs) s =
      let (m, q, p) = leg_fields leg in
      scan_legs-reasons limits legs (scan_leg limits leg s)
      ∙ ground (arith, scan_fields-reasons limits m q p s)

  -- No market is over its limit.
  abbrev AllWithin : RiskLimits → Dict String Float → Dict String Float → Type 0
  AllWithin limits positions proposed =
      (m : String) (a : Float)
      → lookup m proposed ≡ some a
      → (market_total positions m a ≤f limits.max_market_notional) ≡ true

  pub market_reasons-within :
      (limits : RiskLimits) (positions proposed : Dict String Float) (m : String) (a : Float)
      → is_empty (market_reasons limits positions proposed) ≡ true
      → lookup m proposed ≡ some a
      → (market_total positions m a ≤f limits.max_market_notional) ≡ true
  unfolding market_reasons lookup
  market_reasons-within limits positions [] m a h e = cc
  market_reasons-within limits positions ((k, b) ∷ rest) m a h e =
      elim (Bool-cases (limits.max_market_notional <f market_total positions k b)) [
        | inl over ↦ absurd (ground arith)
        | inr within ↦
            let more : is_empty (market_reasons limits positions rest) ≡ true = ground arith in
            elim (Bool-cases (m == k)) [
              | inl same ↦
                  let em : m ≡ k = (string_eq.beq_iff m k).0 same in
                  let ea : b ≡ a = ground arith in rw (em, ← ea, within) refl
              | inr other ↦ market_reasons-within limits positions rest m a more (ground arith)
            ]
      ]

  pub within-market_reasons :
      (limits : RiskLimits) (positions proposed : Dict String Float)
      → IsUnique proposed
      → AllWithin limits positions proposed
      → is_empty (market_reasons limits positions proposed) ≡ true
  unfolding market_reasons lookup
  within-market_reasons limits positions [] u h = refl
  within-market_reasons limits positions ((k, b) ∷ rest) u h =
      let head = h k b (ground (arith, string_eq.beq_iff k k)) in
      let tail =
        within-market_reasons limits positions rest u.1
          (λ m a e. h m a (ground (arith, string_eq.beq_iff m k))) in
      ground arith

  abbrev CashOk : RiskLimits → Option Float → Float → Type 0
  CashOk limits cash total =
      (0f <f limits.min_cash_buffer) ≡ true
      → (c : Float) × (cash ≡ some c) × ((limits.min_cash_buffer ≤f c -f total) ≡ true)

  pub cash_reasons-ok :
      (limits : RiskLimits) (cash : Option Float) (total : Float)
      → is_empty (if 0f <f limits.min_cash_buffer then cash_reasons limits cash total else [])
        ≡ true
      → CashOk limits cash total
  cash_reasons-ok limits none total h b = absurd (ground arith)
  cash_reasons-ok limits (some c) total h b = (c, refl, ground arith)

  pub ok-cash_reasons :
      (limits : RiskLimits) (cash : Option Float) (total : Float)
      → CashOk limits cash total
      → is_empty (if 0f <f limits.min_cash_buffer then cash_reasons limits cash total else [])
        ≡ true
  ok-cash_reasons limits cash total h = elim (Bool-cases (0f <f limits.min_cash_buffer)) [
    | inr free ↦ rw free refl
    | inl bound ↦ let (c, e, w) = h bound in rw (bound, e) (ground arith)
  ]

  pub five :
      (a b c d e : Bool)
      → (a && (b && (c && (d && e)))) ≡ true
      → (a ≡ true) × (b ≡ true) × (c ≡ true) × (d ≡ true) × (e ≡ true)
  five a b c d e h = ground arith

  pub all_five :
      {a b c d e : Bool}
      → a ≡ true
      → b ≡ true
      → c ≡ true
      → d ≡ true
      → e ≡ true
      → (a && (b && (c && (d && e)))) ≡ true
  all_five p q r s t = ground arith

  pub empty_five {ℓ} :
      {A : Type ℓ} (a b c d e : List A)
      → is_empty (a ++ b ++ c ++ d ++ e)
        ≡ (is_empty a && (is_empty b && (is_empty c && (is_empty d && is_empty e))))
  empty_five a b c d e = ground (
    arith,
    empty-append a (b ++ c ++ d ++ e),
    empty-append b (c ++ d ++ e),
    empty-append c (d ++ e),
    empty-append d e,
  )
