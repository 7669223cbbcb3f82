-- ===== src/Portfolio/Account.antt =====
-- `Account` and its positions (libs/portfolio/account.py). `sum` is Python's sum of a list of floats.
use poly_bob.Base.{
  Option, some, none, if◌then◌else◌, String, List, [], ◌∷◌, ◌++◌, map, ◌==◌, nat_eq, string_eq,
  get_or, is_empty, keep,
}
use poly_bob.Base.Dict.{Dict, lookup, insert}
use poly_bob.Base.Float.{Floats, Float, ◌≤f◌, ◌<f◌, ◌+f◌, ◌-f◌, ◌*f◌, lit, 0f, abs}

module _ ⦃fl : Floats⦄ where
  -- MAX_POSITION_FRACTION, MAX_DOMAIN_FRACTION, MAX_TOTAL_RISK_FRACTION and
  -- ASSUMED_CROSS_DOMAIN_CORRELATION
  abbrev pub max_position_fraction : Float
  max_position_fraction = lit 10 2

  abbrev pub max_domain_fraction : Float
  max_domain_fraction = lit 25 2

  abbrev pub max_total_risk_fraction : Float
  max_total_risk_fraction = lit 6 2

  abbrev pub assumed_correlation : Float
  assumed_correlation = lit 5 1

  -- `max(a, b)` and `min(a, b)`: the first of two equal ones.
  abbrev pub max_of : Float → Float → Float
  max_of a b = if a <f b then b else a

  abbrev pub min_of : Float → Float → Float
  min_of a b = if b <f a then b else a

  pub record Position : Type 0 where
    pub symbol : String
    pub domain : String
    pub edge_id : String
    pub direction : String
    pub quantity : Float
    pub entry_price : Float
    pub stop_price : Option Float
    pub opened_on : String

  unfoldable pub notional : Position → Float
  notional p = abs (p.quantity *f p.entry_price)

  -- None where no stop was recorded.
  unfoldable pub risk_amount : Position → Option Float
  risk_amount p = elim p.stop_price [
    | none ↦ none
    | some stop ↦
        if p.entry_price ≤f 0f then none else some (abs (p.entry_price -f stop) *f abs p.quantity)
  ]

  -- `p.notional if risk is None else risk`
  abbrev pub risk_or_notional : Position → Float
  risk_or_notional p = get_or (risk_amount p) (notional p)

  pub record Account : Type 0 where
    pub equity : Option Float
    pub cash : Option Float
    pub positions : List Position

  -- `configured` and `require_equity`: the equity, where it is known and positive.
  unfoldable pub require_equity : Account → Option Float
  require_equity a = elim a.equity [ none ↦ none | some e ↦ if 0f <f e then some e else none ]

  -- The loop of `total_risk`.
  unfoldable pub add_risks : Float → List Position → Float
  add_risks total [] = total
  add_risks total (p ∷ ps) = add_risks (total +f risk_or_notional p) ps

  unfoldable pub total_risk : Account → Float
  total_risk a = add_risks 0f a.positions

  -- `by_domain` of `correlated_risk`.
  unfoldable pub risk_by_domain : List Position → Dict String Float → Dict String Float
  risk_by_domain [] risks = risks
  risk_by_domain (p ∷ ps) risks =
      risk_by_domain ps
        (insert p.domain (get_or (lookup p.domain risks) 0f +f risk_or_notional p) risks)

  -- `legs[i] * legs[j]` for each i < j.
  abbrev pub products : List Float → List Float
  products [] = []
  products (x ∷ xs) = map (λ y. x *f y) xs ++ products xs

  module _ (sum : List Float → Float) where
    unfoldable pub domain_notional : String → Account → Float
    domain_notional domain a = sum (map notional (keep (λ p. p.domain == domain) a.positions))

    unfoldable pub correlated_risk : Float → Account → Float
    correlated_risk correlation a =
        let legs = map (λ e. e.1) (risk_by_domain a.positions []) in
        if is_empty legs
        then 0f
        else fl.sqrt (
            max_of 0f
              (sum (map (λ x. x *f x) legs) +f lit 2 0 *f correlation *f sum (products legs)))
