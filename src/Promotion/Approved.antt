-- ===== src/Promotion/Approved.antt =====
-- What `PromotionGate.evaluate` approves (libs/quant/promotion.py).
use poly_bob.Base.{
  ℕ, ◌≤◌, ◌≡◌, refl, ◌↔◌, true, ◌&&◌, Option, some, arith, List, ◌∷◌, nat_eq, string_eq, All,
  length,
}
use poly_bob.Base.Float.{Floats, Float, ◌≤f◌, ◌+f◌, lit}
use poly_bob.Promotion.Sharpe.{Statistics, annualized_sharpe, deflated_sharpe_ratio}
use poly_bob.Promotion.Evaluate.{
  CostStressResult, stress_result, cost_stress_test, PromotionCheck, PromotionDecision,
  PromotionGate, cost_stress_check, decide, observation_check, sharpe_check, stability_checks,
  evaluate,
}
use poly_bob.Promotion.Multiples.{is_in, sorted_set-ends}

module _ ⦃fl : Floats⦄ (st : Statistics) where
  -- The test at the ends of the costs.
  cost_stress_test_lem :
      (returns_at_cost : Float → List Float) (multiples : List Float) (min_sharpe : Float)
      (periods : ℕ) (low high : Float)
      → is_in low multiples ≡ true
      → is_in high multiples ≡ true
      → All (λ m. low ≤f m ≡ true) multiples
      → All (λ m. m ≤f high ≡ true) multiples
      → (result : CostStressResult) × (cost_stress_test st returns_at_cost multiples min_sharpe
            periods
          ≡ some result)
        × (result.passed ≡ (
            (annualized_sharpe st (returns_at_cost high) periods
              ≤f annualized_sharpe st (returns_at_cost low) periods +f lit 1 9)
            && min_sharpe ≤f annualized_sharpe st (returns_at_cost high) periods))
  unfolding cost_stress_test
  cost_stress_test_lem returns_at_cost multiples min_sharpe periods low high l g above below =
      let (rest, sorted, ends) = sorted_set-ends low high multiples l g above below in
      (
        stress_result st returns_at_cost min_sharpe periods low rest,
        rw (sorted, cost_stress_test) refl,
        ground (arith, ends),
      )

  -- A gate approves, given returns at each cost and a rate of stable windows, exactly if there are enough
  -- observations, the deflated Sharpe ratio reaches its threshold, the Sharpe ratio at the highest of the
  -- cost multiples is at most that at the lowest plus 1e-9 and reaches its threshold, and the rate of
  -- stable windows reaches its own.
  pub evaluate_lem :
      (g : PromotionGate) (r : List Float) (returns_at_cost : Float → List Float)
      (multiples : List Float) (rate : Float) (trial_sr_std : Option Float) (low high : Float)
      → is_in low multiples ≡ true
      → is_in high multiples ≡ true
      → All (λ m. low ≤f m ≡ true) multiples
      → All (λ m. m ≤f high ≡ true) multiples
      → (d : PromotionDecision) × (evaluate st g r
            (some returns_at_cost)
            multiples
            (some rate)
            trial_sr_std
          ≡ some d)
        × ((d.approved ≡ true) ↔ (
            (g.min_observations ≤ length r)
            × (g.min_dsr ≤f deflated_sharpe_ratio st r g.n_trials trial_sr_std ≡ true)
            × (annualized_sharpe st (returns_at_cost high) g.periods_per_year
                  ≤f annualized_sharpe st (returns_at_cost low) g.periods_per_year +f lit 1 9
                ≡ true)
            × (g.cost_min_sharpe ≤f annualized_sharpe st (returns_at_cost high) g.periods_per_year
                ≡ true)
            × (g.min_oos_stability_rate ≤f rate ≡ true)))
  unfolding evaluate
  evaluate_lem g r returns_at_cost multiples rate trial_sr_std low high l g' above below =
      let (stress, got, passes) =
        cost_stress_test_lem returns_at_cost multiples g.cost_min_sharpe g.periods_per_year low high
          l g' above below in
      let cost : PromotionCheck = record {
        name = cost_stress_check;
        passed = stress.passed;
        value = fl.round_4 stress.worst_sharpe;
        threshold = g.cost_min_sharpe;
      } in
      (
        decide st g (
            observation_check st g r
            ∷ sharpe_check st g r trial_sr_std
            ∷ cost
            ∷ stability_checks st g (some rate)),
        rw (got, evaluate) refl,
        (λ h. ground (arith, passes, h), λ h. ground (arith, passes, h)),
      )
