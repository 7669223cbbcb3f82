-- ===== src/Edges/Detect.antt =====
-- The detectors of libs/quant/edge_instance.py. The evidence's texts are left out; what a source of data
-- answers is an argument, none where it raises that the data are not available. `clean` is
-- `str.strip().upper()`, and a date is a number of days.
use poly_bob.Base.{
  ℕ, zero, suc, ◌+◌, ◌-◌, ◌*◌, Bool, true, false, not, ◌&&◌, ◌||◌, Option, some, none,
  if◌then◌else◌, String, List, [], ◌∷◌, ◌++◌, map, ◌==◌, nat_eq, string_eq, is_empty, length, keep,
  ltb, leb,
}
use poly_bob.Base.Dict.{Dict, lookup}
use poly_bob.Base.Float.{Floats, Float, ◌≤f◌, ◌<f◌, 0f}
use poly_bob.Promotion.Registry.{PromotionRecord}
use poly_bob.Edges.Clusters.{ClusterKey, InsiderTrade, cluster_buys}

pub data EdgeStatus : Type 0 where
  active inactive unknown : EdgeStatus

pub data Direction : Type 0 where
  long short avoid : Direction

-- `_IMPLEMENTATION_DIRECTION`
abbrev pub implementation_direction : Dict String Direction
implementation_direction =
    ("long_after_cluster_filing", long)
    ∷ ("short_perp_when_retail_crowded_long", short)
    ∷ ("avoidance_filter_only_no_shorting", avoid)
    ∷ ("take_side_when_model_beats_market_price", long)
    ∷ []

-- A quarter of a year, 1 to 4.
pub record Quarter : Type 0 where
  pub year : ℕ
  pub quarter : ℕ

-- `(year, quarter) <= (year, quarter)`
abbrev pub not_after : Quarter → Quarter → Bool
not_after a b = ltb a.year b.year || a.year == b.year && leb a.quarter b.quarter

abbrev pub next_quarter : Quarter → Quarter
next_quarter q =
    if q.quarter == 4
    then record { year = q.year + 1; quarter = 1 }
    else record { year = q.year; quarter = q.quarter + 1 }

-- The `while` loop, in as many rounds as are given it.
unfoldable pub quarters_between : ℕ → Quarter → Quarter → List Quarter
quarters_between zero from until = []
quarters_between (suc n) from until =
    let rest = quarters_between n (next_quarter from) until in
    if not_after from until then from ∷ rest else []

-- The number of a quarter: more rounds than there are quarters left are not needed.
abbrev pub quarter_number : Quarter → ℕ
quarter_number q = 4 * q.year + q.quarter

module _ ⦃fl : Floats⦄ where
  unfoldable pub direction_for : String → List PromotionRecord → Option Direction
  direction_for strategy [] = none
  direction_for strategy (r ∷ rs) =
      let rest = direction_for strategy rs in
      if r.strategy == strategy then lookup r.implementation implementation_direction else rest

  pub record EdgeInstance : Type 0 where
    pub strategy : String
    pub instrument : String
    pub status : EdgeStatus
    pub direction : Option Direction
    -- The date of the event that makes it active.
    pub event_date : Option ℕ

  abbrev pub is_active : EdgeInstance → Bool
  is_active e = elim e.status [ active ↦ true | inactive ↦ false | unknown ↦ false ]

  -- Active, and a position that could be opened.
  unfoldable pub is_tradable : EdgeInstance → Bool
  is_tradable e = is_active e && (elim e.direction [
    | none ↦ false
    | some long ↦ true
    | some short ↦ true
    | some avoid ↦ false
  ])

  module _ (registry : List PromotionRecord) where
    abbrev pub instance_of : String → String → EdgeStatus → Option ℕ → EdgeInstance
    instance_of strategy symbol status event_date = record {
      strategy = strategy;
      instrument = symbol;
      status = status;
      direction = direction_for strategy registry;
      event_date = event_date;
    }

    -- The trades of the quarters that could be read, and how many could not.
    unfoldable pub read_quarters :
        (Quarter → Option (List InsiderTrade)) → List Quarter → List InsiderTrade × ℕ
    read_quarters fetch [] = ([], 0)
    read_quarters fetch (q ∷ qs) =
        let (trades, failures) = read_quarters fetch qs in
        elim (fetch q) [ none ↦ (trades, failures + 1) | some ts ↦ (ts ++ trades, failures) ]

    -- `sym == wanted and filed and start <= filed <= as_of`
    abbrev pub is_hit : String → (start as_of : ℕ) → ClusterKey → Bool
    is_hit wanted start as_of (symbol, none) = false
    is_hit wanted start as_of (symbol, some filed) =
        symbol == wanted && leb start filed && leb filed as_of

    -- The latest date among the hits.
    abbrev pub latest_of : List (ClusterKey × Float) → Option ℕ
    latest_of [] = none
    latest_of ((k, v) ∷ hits) = elim (latest_of hits) [
      | none ↦ k.1
      | some other ↦ elim k.1 [
        | none ↦ some other
        | some filed ↦ some (if leb other filed then filed else other)
      ]
    ]

    abbrev pub insider_strategy : String
    insider_strategy = "us_insider_cluster_buy"

    abbrev pub judge_hits : String → List (ClusterKey × Float) → EdgeInstance
    judge_hits symbol hits =
        if is_empty hits
        then instance_of insider_strategy symbol inactive none
        else instance_of insider_strategy symbol active (latest_of hits)

    abbrev pub judge_quarters :
        (sum : List Float → Float)
        → (clean : String → String) → (symbol : String) → (as_of window_days min_insiders : ℕ)
        → (min_value_usd : Float) → (quarters : ℕ) → List InsiderTrade × ℕ
        → EdgeInstance
    judge_quarters sum clean symbol as_of window_days min_insiders min_value_usd quarters
          (trades, failures) =
        let hits =
          keep (λ e. is_hit (clean symbol) (as_of - window_days) as_of e.0)
            (cluster_buys sum min_insiders min_value_usd trades) in
        if failures == quarters
        then instance_of insider_strategy symbol unknown none
        else judge_hits symbol hits

    -- `detect_insider_cluster` with a source of trades; `quarter_of` is the calendar's, and the day
    -- `window_days` before `as_of` is not before the calendar's start.
    unfoldable pub detect_insider_cluster :
        (sum : List Float → Float)
        → (clean : String → String) → (quarter_of : ℕ → Quarter) → (symbol : String)
        → (as_of window_days min_insiders : ℕ) → (min_value_usd : Float)
        → (Quarter → Option (List InsiderTrade))
        → EdgeInstance
    detect_insider_cluster sum clean quarter_of symbol as_of window_days min_insiders min_value_usd
          fetch =
        let from = quarter_of (as_of - window_days) in
        let until = quarter_of as_of in
        let quarters =
          quarters_between (quarter_number until + 1 - quarter_number from) from until in
        judge_quarters sum clean symbol as_of window_days min_insiders min_value_usd
          (length quarters) (read_quarters fetch quarters)

    -- `_detect_insider_cluster_live`: the dates of the clusters that the scan found for the symbol, and
    -- the days that it could not read.
    unfoldable pub detect_insider_cluster_live :
        (symbol : String) → (hits : List ℕ) → (days_missing : List String) → EdgeInstance
    detect_insider_cluster_live symbol hits days_missing =
        if not (is_empty hits)
        then instance_of insider_strategy symbol active
            (latest_of (map (λ d. ((symbol, some d), 0f)) hits))
        else if is_empty days_missing
        then instance_of insider_strategy symbol inactive none
        else instance_of insider_strategy symbol unknown none

    -- `sorted(ratios)`
    abbrev pub place_ratio : Float → List Float → List Float
    place_ratio x [] = x ∷ []
    place_ratio x (y ∷ ys) = if x ≤f y then x ∷ y ∷ ys else y ∷ place_ratio x ys

    abbrev pub sorted_ratios : List Float → List Float
    sorted_ratios [] = []
    sorted_ratios (x ∷ xs) = place_ratio x (sorted_ratios xs)

    abbrev pub nth : ℕ → List Float → Option Float
    nth n [] = none
    nth zero (x ∷ xs) = some x
    nth (suc n) (x ∷ xs) = nth n xs

    abbrev pub drop_first : ℕ → List Float → List Float
    drop_first zero xs = xs
    drop_first (suc n) [] = []
    drop_first (suc n) (x ∷ xs) = drop_first n xs

    abbrev pub crowding_strategy : String
    crowding_strategy = "altcoin_retail_crowding"

    -- The ratios behind the last, which is `latest`; `rank n` is `int(n * percentile / 100.0)`.
    unfoldable pub judge_ratios :
        (symbol : String)
        → (lookback : ℕ) → (rank : ℕ → ℕ) → (earlier : List Float) → (latest : Float)
        → Option EdgeInstance
    judge_ratios symbol lookback rank earlier latest =
        let window = sorted_ratios (drop_first (length earlier - lookback) earlier) in
        let index =
          if ltb (length window - 1) (rank (length window))
          then length window - 1
          else rank (length window) in
        elim (nth index window) [
          | none ↦ none
          | some threshold ↦ some (
              instance_of crowding_strategy symbol
                (if threshold <f latest then active else inactive) none)
        ]

    -- `detect_retail_crowding` on what the source answers: the earlier ratios and the last, or none where
    -- there is no point. None where the window is empty and its index raises.
    unfoldable pub detect_retail_crowding :
        (symbol : String)
        → (lookback : ℕ) → (rank : ℕ → ℕ) → (points : Option (List Float × Option Float))
        → Option EdgeInstance
    detect_retail_crowding symbol lookback rank none =
        some (instance_of crowding_strategy symbol unknown none)
    detect_retail_crowding symbol lookback rank (some (earlier, none)) =
        some (instance_of crowding_strategy symbol unknown none)
    detect_retail_crowding symbol lookback rank (some (earlier, some latest)) =
        if ltb (length earlier) lookback
        then some (instance_of crowding_strategy symbol unknown none)
        else judge_ratios symbol lookback rank earlier latest

    abbrev pub billboard_strategy : String
    billboard_strategy = "a_share_billboard_reversal"

    abbrev pub latest_day : ℕ → List ℕ → ℕ
    latest_day d [] = d
    latest_day d (x ∷ xs) = latest_day (if ltb d x then x else d) xs

    abbrev pub judge_days : String → List ℕ → EdgeInstance
    judge_days symbol [] = instance_of billboard_strategy symbol inactive none
    judge_days symbol (d ∷ ds) =
        instance_of billboard_strategy symbol active (some (latest_day d ds))

    -- `detect_billboard_listing` on the events of the source, each a code and a date; `code` is what is
    -- left of the symbol.
    unfoldable pub detect_billboard_listing :
        (symbol code : String)
        → (as_of window_days : ℕ) → (events : Option (List (String × ℕ))) → EdgeInstance
    detect_billboard_listing symbol code as_of window_days none =
        instance_of billboard_strategy symbol unknown none
    detect_billboard_listing symbol code as_of window_days (some events) = judge_days symbol (
        map (λ e. e.1)
          (keep (λ e. e.0 == code && leb (as_of - window_days) e.1 && leb e.1 as_of) events))

    -- `detect`, with the detectors of `DETECTORS` as they are called for the symbol.
    unfoldable pub detect :
        (strategy symbol : String)
        → (insiders crowding billboard : Option EdgeInstance) → Option EdgeInstance
    detect strategy symbol insiders crowding billboard =
        if strategy == insider_strategy
        then insiders
        else if strategy == crowding_strategy
        then crowding
        else if strategy == billboard_strategy
        then billboard
        else some (instance_of strategy symbol unknown none)
