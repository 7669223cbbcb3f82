-- ===== src/Promotion/Sharpe.antt =====
-- The Sharpe ratios of libs/quant/promotion.py. What numpy, scipy and `math` compute is `Statistics`; an
-- infinite track record is none.
use poly_bob.Base.{
  ℕ, ◌-◌, ◌||◌, Option, some, none, if◌then◌else◌, List, nat_eq, string_eq, get_or, length, ltb,
}
use poly_bob.Base.Float.{Floats, Float, ◌≤f◌, ◌+f◌, ◌-f◌, ◌*f◌, ◌/f◌, ◌==f◌, lit, 0f, 1f}

module _ ⦃fl : Floats⦄ where
  pub record Statistics : Type 0 where
    pub mean : List Float → Float
    -- `std(ddof=1)`
    pub std : List Float → Float
    -- `skew(bias=False)` and `kurtosis(fisher=False, bias=False)`
    pub skew : List Float → Float
    pub kurtosis : List Float → Float
    pub cdf : Float → Float
    pub ppf : Float → Float
    -- `math.e`, and `x ** 2`
    pub e : Float
    pub square : Float → Float

  abbrev pub euler_mascheroni : Float
  euler_mascheroni = lit 5772156649015329 16

  module _ (st : Statistics) where
    unfoldable pub sharpe_per_period : List Float → Float
    sharpe_per_period r = if st.std r ==f 0f then 0f else st.mean r /f st.std r

    unfoldable pub annualized_sharpe : (returns : List Float) → (periods_per_year : ℕ) → Float
    annualized_sharpe r periods =
        if ltb (length r) 2 then 0f else sharpe_per_period r *f fl.sqrt (lit periods 0)

    -- `denom` and `var_term`: 1 - sk * sr + (ku - 1) / 4 * sr * sr
    abbrev pub variance_term : List Float → Float → Float
    variance_term r sr = 1f -f st.skew r *f sr +f (st.kurtosis r -f 1f) /f lit 4 0 *f sr *f sr

    unfoldable pub probabilistic_sharpe_ratio : (returns : List Float) → (benchmark : Float) → Float
    probabilistic_sharpe_ratio r benchmark =
        let sr = sharpe_per_period r in
        let denom = variance_term r sr in
        if ltb (length r) 3 || st.std r ==f 0f
        then 0f
        else if denom ≤f 0f
        then 0f
        else st.cdf ((sr -f benchmark) *f fl.sqrt (lit (length r - 1) 0) /f fl.sqrt denom)

    unfoldable pub expected_max_sharpe : (n_trials : ℕ) → (trial_sr_std : Float) → Float
    expected_max_sharpe n_trials trial_sr_std =
        let inv1 = st.ppf (1f -f 1f /f lit n_trials 0) in
        let inv2 = st.ppf (1f -f 1f /f (lit n_trials 0 *f st.e)) in
        if ltb n_trials 2 || trial_sr_std ≤f 0f
        then 0f
        else trial_sr_std *f ((1f -f euler_mascheroni) *f inv1 +f euler_mascheroni *f inv2)

    unfoldable pub deflated_sharpe_ratio :
        (returns : List Float) → (n_trials : ℕ) → (trial_sr_std : Option Float) → Float
    deflated_sharpe_ratio r n_trials trial_sr_std =
        let spread = get_or trial_sr_std (1f /f fl.sqrt (lit (length r - 1) 0)) in
        if ltb (length r) 3
        then 0f
        else probabilistic_sharpe_ratio r (expected_max_sharpe n_trials spread)

    unfoldable pub min_track_record_length :
        (returns : List Float) → (benchmark confidence : Float) → Option Float
    min_track_record_length r benchmark confidence =
        let sr = sharpe_per_period r in
        if ltb (length r) 3 || st.std r ==f 0f
        then none
        else if sr ≤f benchmark
        then none
        else some (1f +f variance_term r sr *f st.square (st.ppf confidence /f (sr -f benchmark)))
