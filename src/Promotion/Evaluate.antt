-- ===== src/Promotion/Evaluate.antt =====
-- `cost_stress_test` and `PromotionGate.evaluate` (libs/quant/promotion.py). The texts of the details are
-- left out, and with them the rounded values that only they show.
use poly_bob.Base.{
  ℕ, Bool, not, ◌&&◌, Option, some, none, if◌then◌else◌, List, [], ◌∷◌, ◌++◌, map, nat_eq,
  string_eq, length, all, keep, leb,
}
use poly_bob.Base.Float.{Floats, Float, ◌≤f◌, ◌<f◌, ◌+f◌, lit}
use poly_bob.Promotion.Sharpe.{Statistics, annualized_sharpe, deflated_sharpe_ratio}

module _ ⦃fl : Floats⦄ where
  -- `sorted(set(…))`
  unfoldable pub insert_unique : Float → List Float → List Float
  insert_unique x [] = x ∷ []
  insert_unique x (y ∷ ys) =
      if x <f y then x ∷ y ∷ ys else if y <f x then y ∷ insert_unique x ys else y ∷ ys

  unfoldable pub sorted_set : List Float → List Float
  sorted_set [] = []
  sorted_set (x ∷ xs) = insert_unique x (sorted_set xs)

  -- `xs[-1]` of `x ∷ xs`
  abbrev pub last_of : Float → List Float → Float
  last_of x [] = x
  last_of x (y ∷ ys) = last_of y ys

  pub record CostStressResult : Type 0 where
    pub passed : Bool
    pub base_sharpe : Float
    pub stressed : List (Float × Float)
    pub degrades_with_cost : Bool
    pub worst_sharpe : Float

  module _ (st : Statistics) where
    -- The result for the sorted multiples `low ∷ rest`.
    abbrev pub stress_result :
        (returns_at_cost : Float → List Float)
        → (min_sharpe : Float) → (periods_per_year : ℕ) → Float
        → List Float
        → CostStressResult
    stress_result returns_at_cost min_sharpe periods low rest =
        let sharpe_at = λ (m : Float). annualized_sharpe st (returns_at_cost m) periods in
        let base = sharpe_at low in
        let worst = sharpe_at (last_of low rest) in
        let degrades = worst ≤f base +f lit 1 9 in
        record {
          passed = degrades && min_sharpe ≤f worst;
          base_sharpe = base;
          stressed = map (λ m. (m, sharpe_at m)) (low ∷ rest);
          degrades_with_cost = degrades;
          worst_sharpe = worst;
        }

    -- None where there is no multiple and `curve[0]` raises.
    unfoldable pub cost_stress_test :
        (returns_at_cost : Float → List Float)
        → (cost_multiples : List Float) → (min_sharpe : Float) → (periods_per_year : ℕ)
        → Option CostStressResult
    cost_stress_test returns_at_cost cost_multiples min_sharpe periods =
        elim (sorted_set cost_multiples) [
          | [] ↦ none
          | low ∷ rest ↦ some (stress_result returns_at_cost min_sharpe periods low rest)
        ]

  pub data CheckName : Type 0 where
    min_observations_check deflated_sharpe_check cost_stress_check oos_stability_check : CheckName

  pub record PromotionCheck : Type 0 where
    pub name : CheckName
    pub passed : Bool
    pub value : Float
    pub threshold : Float

  pub record PromotionDecision : Type 0 where
    pub approved : Bool
    pub checks : List PromotionCheck

  pub record PromotionGate : Type 0 where
    pub n_trials : ℕ
    pub min_dsr : Float
    pub min_observations : ℕ
    pub min_oos_stability_rate : Float
    pub cost_min_sharpe : Float
    pub periods_per_year : ℕ

  -- `failed_checks`
  unfoldable pub failed_checks : PromotionDecision → List PromotionCheck
  failed_checks d = keep (λ c. not c.passed) d.checks

  module _ (st : Statistics) (g : PromotionGate) where
    abbrev pub observation_check : List Float → PromotionCheck
    observation_check r = record {
      name = min_observations_check;
      passed = leb g.min_observations (length r);
      value = lit (length r) 0;
      threshold = lit g.min_observations 0;
    }

    abbrev pub sharpe_check : List Float → Option Float → PromotionCheck
    sharpe_check r trial_sr_std =
        let dsr = deflated_sharpe_ratio st r g.n_trials trial_sr_std in
        record {
          name = deflated_sharpe_check;
          passed = g.min_dsr ≤f dsr;
          value = fl.round_4 dsr;
          threshold = g.min_dsr;
        }

    -- The third check, if there is a function of the cost; none where it raises.
    abbrev pub cost_checks : Option (Float → List Float) → List Float → Option (List PromotionCheck)
    cost_checks none multiples = some []
    cost_checks (some returns_at_cost) multiples =
        elim (cost_stress_test st returns_at_cost multiples g.cost_min_sharpe g.periods_per_year) [
          | none ↦ none
          | some stress ↦ some (
              record {
                name = cost_stress_check;
                passed = stress.passed;
                value = fl.round_4 stress.worst_sharpe;
                threshold = g.cost_min_sharpe;
              }
              ∷ [])
        ]

    abbrev pub stability_checks : Option Float → List PromotionCheck
    stability_checks none = []
    stability_checks (some rate) =
        record {
          name = oos_stability_check;
          passed = g.min_oos_stability_rate ≤f rate;
          value = fl.round_4 rate;
          threshold = g.min_oos_stability_rate;
        }
        ∷ []

    abbrev pub decide : List PromotionCheck → PromotionDecision
    decide checks = record { approved = all (λ c. c.passed) checks; checks = checks }

    unfoldable pub evaluate :
        (returns : List Float)
        → (cost_returns_fn : Option (Float → List Float)) → (cost_multiples : List Float)
        → (oos_stability_rate trial_sr_std : Option Float) → Option PromotionDecision
    evaluate r cost_returns_fn cost_multiples oos_stability_rate trial_sr_std =
        elim (cost_checks cost_returns_fn cost_multiples) [
          | none ↦ none
          | some costs ↦ some (
              decide (
                observation_check r ∷ sharpe_check r trial_sr_std ∷ costs
                ++ stability_checks oos_stability_rate))
        ]
