-- ===== src/Portfolio/Sizing.antt =====
-- The size that an edge may take (libs/portfolio/sizing.py). The texts of the reasons are left out.
use poly_bob.Base.{
  ℕ, ◌*◌, Bool, true, false, ◌&&◌, Option, some, none, if◌then◌else◌, String, List, ◌==◌, nat_eq,
  string_eq,
}
use poly_bob.Base.Float.{Floats, Float, ◌≤f◌, ◌<f◌, ◌+f◌, ◌-f◌, ◌*f◌, ◌/f◌, lit, 0f, 1f, abs}
use poly_bob.Portfolio.Account.{
  max_position_fraction, max_domain_fraction, max_total_risk_fraction, assumed_correlation, max_of,
  min_of, Account, require_equity, domain_notional, correlated_risk,
}

module _ ⦃fl : Floats⦄ where
  pub record EdgeStatistics : Type 0 where
    pub win_rate : Float
    pub mean_excess : Float
    -- A count: a negative one is as 0.
    pub n_clusters : ℕ
    pub win_loss_ratio : Option Float

  unfoldable pub payoff_ratio : EdgeStatistics → Float
  payoff_ratio s = elim s.win_loss_ratio [ none ↦ 1f | some r ↦ if 0f <f r then r else 1f ]

  -- `max(0.0, min(1.0, rate))`
  abbrev pub clamp_rate : Float → Float
  clamp_rate rate = max_of 0f (min_of 1f rate)

  unfoldable pub kelly_fraction : EdgeStatistics → Float
  kelly_fraction s =
      let p = clamp_rate s.win_rate in
      let b = payoff_ratio s in if b ≤f 0f then 0f else max_of 0f ((p *f b -f (1f -f p)) /f b)

  -- `WIN_RATE_CONFIDENCE_SIGMA`
  abbrev pub confidence_sigma : Float
  confidence_sigma = 1f

  unfoldable pub win_rate_lower_bound :
      (win_rate : Float) → (n_clusters : ℕ) → (sigma : Float) → Float
  win_rate_lower_bound win_rate n_clusters z =
      let n = lit n_clusters 0 in
      let p = clamp_rate win_rate in
      let denominator = 1f +f z *f z /f n in
      let centre = (p +f z *f z /f lit (2 * n_clusters) 0) /f denominator in
      let margin =
        z /f denominator *f fl.sqrt (p *f (1f -f p) /f n +f z *f z /f (lit 4 0 *f n *f n)) in
      if n_clusters == 0 then 0f else max_of 0f (centre -f margin)

  pub data Constraint : Type 0 where
    kelly_on_lower_bound negative_edge no_edge_at_lower_bound max_position_cap domain_budget
          total_risk_budget :
        Constraint

  pub record SizeDecision : Type 0 where
    pub fraction : Float
    pub amount : Option Float
    pub shares : Option Float
    pub kelly_point : Float
    pub kelly_prudent : Float
    pub win_rate_used : Float
    pub binding_constraint : Constraint
    pub allowed : Bool

  -- A fraction with the constraint that binds it.
  pub record Sized : Type 0 where
    pub fraction : Float
    pub binding : Constraint

  unfoldable pub cap_position : Float → Sized
  cap_position prudent =
      if max_position_fraction <f prudent
      then record { fraction = max_position_fraction; binding = max_position_cap }
      else record { fraction = prudent; binding = kelly_on_lower_bound }

  -- The domain's budget.
  unfoldable pub cap_domain : (equity used : Float) → Sized → Sized
  cap_domain equity used s =
      let room = max_of 0f (max_domain_fraction *f equity -f used) in
      if room <f s.fraction *f equity
      then record { fraction = room /f equity; binding = domain_budget }
      else s

  -- `entry_price and entry_price > 0`
  abbrev pub good_price : Option Float → Option Float
  good_price none = none
  good_price (some price) = if 0f <f price then some price else none

  abbrev pub cap_distance : (equity risk_room risk_per_unit : Float) → Sized → Sized
  cap_distance equity risk_room risk_per_unit s =
      let max_by_risk = risk_room /f risk_per_unit in
      if 0f <f risk_per_unit && max_by_risk <f s.fraction *f equity
      then record { fraction = max_of 0f (max_by_risk /f equity); binding = total_risk_budget }
      else s

  -- The budget of the account's risk, which needs a stop price.
  unfoldable pub cap_risk :
      (equity current_risk : Float) → (entry_price stop_price : Option Float) → Sized → Sized
  cap_risk equity current_risk entry_price stop_price s =
      let risk_room = max_of 0f (max_total_risk_fraction *f equity -f current_risk) in
      elim stop_price [
        | none ↦ s
        | some stop ↦ elim (good_price entry_price) [
          | none ↦ s
          | some entry ↦ cap_distance equity risk_room (abs (entry -f stop) /f entry) s
        ]
      ]

  abbrev pub prudent_win_rate : EdgeStatistics → Float
  prudent_win_rate stats = win_rate_lower_bound stats.win_rate stats.n_clusters confidence_sigma

  abbrev pub prudent_kelly : EdgeStatistics → Float
  prudent_kelly stats = kelly_fraction (record stats { win_rate = prudent_win_rate stats })

  module _ (sum : List Float → Float) (stats : EdgeStatistics) (account : Account) (domain : String)
      (entry_price stop_price : Option Float) where
    -- `_decision`, and the other answers of `size_position`.
    abbrev pub decision : Sized → (amount shares : Option Float) → Bool → SizeDecision
    decision s amount shares allowed = record {
      fraction = s.fraction;
      amount = amount;
      shares = shares;
      kelly_point = kelly_fraction stats;
      kelly_prudent = prudent_kelly stats;
      win_rate_used = prudent_win_rate stats;
      binding_constraint = s.binding;
      allowed = allowed;
    }

    abbrev pub refusal : Constraint → SizeDecision
    refusal why =
        decision (record { fraction = 0f; binding = why })
          (elim (require_equity account) [ none ↦ none | some equity ↦ some (0f *f equity) ]) none
          false

    -- The part with money behind it.
    abbrev pub with_money : Float → Sized → SizeDecision
    with_money equity s =
        let sized =
          cap_risk equity (correlated_risk sum assumed_correlation account) entry_price stop_price
            (cap_domain equity (domain_notional sum domain account) s) in
        let amount = sized.fraction *f equity in
        decision sized (some amount)
          (elim (good_price entry_price) [ none ↦ none | some price ↦ some (amount /f price) ])
          (0f <f sized.fraction)

    abbrev pub sized_or_refused : SizeDecision
    sized_or_refused = elim (require_equity account) [
      | none ↦ decision (cap_position (prudent_kelly stats)) none none true
      | some equity ↦ with_money equity (cap_position (prudent_kelly stats))
    ]

    unfoldable pub size_position : SizeDecision
    size_position =
        if kelly_fraction stats ≤f 0f
        then refusal negative_edge
        else if prudent_kelly stats ≤f 0f
        then refusal no_edge_at_lower_bound
        else sized_or_refused
