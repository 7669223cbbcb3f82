-- ===== src/Simulation/Fills.antt =====
-- The price of a paper fill and the average-price bookkeeping (modules/simulation/service.py), with
-- `SlippageModel.sqrt_impact` (libs/backtest/execution.py).
use poly_bob.Base.{
  ℕ, ◌≡◌, inl, inr, Bool, true, false, ◌||◌, Option, some, none, if◌then◌else◌, arith, String,
  nat_eq, string_eq, get_or, is_some, Bool-cases, Option-cases,
}
use poly_bob.Base.Float.{Floats, Float, ◌≤f◌, ◌<f◌, ◌+f◌, ◌-f◌, ◌*f◌, ◌/f◌, lit, 0f, 1f, abs}

module _ ⦃fl : Floats⦄ where
  -- The keys of `DEFAULT_RUN_CONFIG` that a trade reads; times in microseconds.
  pub record RunConfig : Type 0 where
    pub position_fraction : Float
    pub fee_bps : Float
    pub mid_penalty_bps : Float
    pub impact_coefficient : Float
    pub max_staleness : ℕ
    pub cooldown : ℕ
    pub min_trade_notional : Float

  pub data Side : Type 0 where
    buy sell : Side

  pub record SimSignal : Type 0 where
    pub instrument_id : String
    pub side : Side
    pub confidence : Float
    pub bid : Option Float
    pub ask : Option Float
    pub mid : Option Float
    pub bid_depth : Option Float
    pub ask_depth : Option Float
    pub timestamp : Option ℕ

  abbrev pub by_side {ℓ} : {A : Type ℓ} → Side → A → A → A
  by_side buy a b = a
  by_side sell a b = b

  unfoldable pub sqrt_impact : Float → Float → Float → Float
  sqrt_impact order_size available_depth impact_coef =
      if available_depth ≤f 0f then 0f else impact_coef *f fl.sqrt (order_size /f available_depth)

  -- `ask >= bid`, where both are there.
  abbrev pub book_ok : Option Float → Option Float → Bool
  book_ok (some bid) (some ask) = bid ≤f ask
  book_ok _ _ = false

  abbrev pub penalised : RunConfig → Side → Float → Float
  penalised c side mid =
      let penalty = c.mid_penalty_bps /f lit 10000 0 in
      by_side side (mid *f (1f +f penalty)) (mid *f (1f -f penalty))

  -- The price to start from and the depth behind it.
  unfoldable pub base_price : RunConfig → SimSignal → Option (Float × Option Float)
  base_price c s =
      if book_ok s.bid s.ask
      then some (get_or (by_side s.side s.ask s.bid) 0f, by_side s.side s.ask_depth s.bid_depth)
      else elim s.mid [ none ↦ none | some mid ↦ some (penalised c s.side mid, none) ]

  abbrev pub impact_of : RunConfig → Float → Float → Option Float → Float
  impact_of c base size none = 0f
  impact_of c base size (some depth) =
      if 0f <f depth then base *f sqrt_impact (abs size) depth c.impact_coefficient else 0f

  -- The execution price and the slippage against the reference; none is no fill.
  unfoldable pub fill_price : RunConfig → SimSignal → Float → Option (Float × Float)
  fill_price c s size = elim (base_price c s) [
    | none ↦ none
    | some (base, depth) ↦
        let impact = impact_of c base size depth in
        let price = by_side s.side (base +f impact) (base -f impact) in
        if price ≤f 0f then none else some (price, abs (price -f get_or s.mid base))
  ]

  -- `min(a, b)`
  abbrev pub lower : Float → Float → Float
  lower a b = if b <f a then b else a

  -- The new size, the new average price, and the realised profit where the fill closes something.
  -- `size` and `qty` are not both zero.
  unfoldable pub apply_avg_price_fill :
      (size avg_price qty price : Float) → Float × Float × Option Float
  apply_avg_price_fill size avg_price qty price =
      let new_size = size +f qty in
      let closed = lower (abs qty) (abs size) in
      let direction = if 0f <f size then 1f else fl.neg 1f in
      let realized = (price -f avg_price) *f closed *f direction in
      if abs size <f lit 1 9 || 0f <f size *f qty
      then (new_size, (avg_price *f abs size +f price *f abs qty) /f abs new_size, none)
      else if abs new_size <f lit 1 9
      then (0f, 0f, some realized)
      else if abs size <f abs qty
      then (new_size, price, some realized)
      else (new_size, avg_price, some realized)

  has_base :
      (c : RunConfig) (s : SimSignal) (base : Float) (depth : Option Float)
      → base_price c s ≡ some (base, depth)
      → book_ok s.bid s.ask || is_some s.mid ≡ true
  unfolding base_price
  has_base c s base depth h = elim (Bool-cases (book_ok s.bid s.ask)) [
    | inl fine ↦ ground (arith)
    | inr crossed ↦ ground (arith)
  ]

  price_positive :
      (c : RunConfig) (s : SimSignal) (size price slippage base : Float) (depth : Option Float)
      → base_price c s ≡ some (base, depth)
      → fill_price c s size ≡ some (price, slippage)
      → (0f <f price) ≡ true
  unfolding fill_price
  price_positive c s size price slippage base depth h k = ground (arith)

  -- A fill has a positive price, and there is none without an uncrossed quote on both sides or a mid.
  pub fill_price-positive :
      (c : RunConfig) (s : SimSignal) (size price slippage : Float)
      → fill_price c s size ≡ some (price, slippage)
      → ((0f <f price) ≡ true) × ((book_ok s.bid s.ask || is_some s.mid) ≡ true)
  unfolding fill_price base_price
  fill_price-positive c s size price slippage h = elim (Option-cases (base_price c s)) [
    | inl closed ↦ ground (arith)
    | inr ((base, depth), open_book) ↦ (
      price_positive c s size price slippage base depth open_book h,
      has_base c s base depth open_book,
    )
  ]
