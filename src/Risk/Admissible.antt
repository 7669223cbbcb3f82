-- ===== src/Risk/Admissible.antt =====
-- What an allowed decision means, stated of the legs and the positions and not of the loop.
use poly_bob.Base.{
  ◌≤◌, ◌≡◌, Bool, true, false, Option, some, none, if◌then◌else◌, String, List, [], ◌∷◌, ◌==◌,
  nat_eq, string_eq, get_or, length, all,
}
use poly_bob.Base.Dict.{Dict, lookup}
use poly_bob.Base.Float.{Floats, Float, ◌≤f◌, ◌<f◌, ◌+f◌, ◌-f◌, 0f, abs}
use poly_bob.Risk.Checker.{RiskLimits, Leg, leg_fields, notional, gross_from}

module _ ⦃fl : Floats⦄ where
  -- The notional of a leg, if it has a price.
  abbrev pub amount_of : Float → Option Float → Option Float
  amount_of quantity none = none
  amount_of quantity (some price) = some (notional quantity price)

  abbrev pub leg_amount : Leg → Option Float
  leg_amount leg = let (_, quantity, price) = leg_fields leg in amount_of quantity price

  abbrev pub leg_market : Leg → String
  leg_market leg = (leg_fields leg).0

  abbrev pub add_some : Float → Option Float → Float
  add_some acc none = acc
  add_some acc (some a) = acc +f a

  -- The total of the legs' notionals, in their order.
  unfoldable pub total_from : Float → List Leg → Float
  total_from acc [] = acc
  total_from acc (leg ∷ legs) = total_from (add_some acc (leg_amount leg)) legs

  abbrev pub add_at : String → String → Option Float → Option Float → Option Float
  add_at m market none acc = acc
  add_at m market (some a) acc = if market == m then some (get_or acc 0f +f a) else acc

  -- The total of the notionals in one market; none if no priced leg is in it.
  unfoldable pub proposed_at : String → List Leg → Option Float → Option Float
  proposed_at m [] acc = acc
  proposed_at m (leg ∷ legs) acc =
      proposed_at m legs (add_at m (leg_market leg) (leg_amount leg) acc)

  -- A leg has a price, and its notional is within the limit of an order.
  abbrev pub amount_ok : RiskLimits → Option Float → Bool
  amount_ok limits none = false
  amount_ok limits (some a) = a ≤f limits.max_order_notional

  pub record IsAdmissible (limits : RiskLimits) (legs : List Leg) (positions : Dict String Float)
      (cash : Option Float) : Type 0 where
    pub few_legs : length legs ≤ limits.max_basket_legs
    pub orders : all (λ leg. amount_ok limits (leg_amount leg)) legs ≡ true
    pub gross : (gross_from 0f positions +f total_from 0f legs ≤f limits.max_gross_notional) ≡ true
    pub markets :
        (m : String) (a : Float)
        → proposed_at m legs none ≡ some a
        → (abs (get_or (lookup m positions) 0f) +f a ≤f limits.max_market_notional) ≡ true
    pub buffer :
        (0f <f limits.min_cash_buffer) ≡ true
        → (c : Float) × (cash ≡ some c)
          × ((limits.min_cash_buffer ≤f c -f total_from 0f legs) ≡ true)
