-- ===== src/Tests/Tracks.antt =====
-- A track of returns at the gate, with statistics that are simple functions of it.
use poly_bob.Base.{
  ◌≤◌, ◌≡◌, refl, ◌↔◌, Bool, true, false, some, none, List, [], ◌∷◌, nat_eq, string_eq, length,
}
use poly_bob.Base.Float.{Float, ◌≤f◌, ◌+f◌, ◌-f◌, ◌*f◌, lit, 0f, 1f}
use poly_bob.Tests.Samples.{fixed_floats}
use poly_bob.Promotion.Sharpe.{Statistics, annualized_sharpe, deflated_sharpe_ratio}
use poly_bob.Promotion.Evaluate.{PromotionGate, PromotionDecision, sorted_set, evaluate}
use poly_bob.Promotion.Approved.{evaluate_lem}

-- The mean is the first return, and the deviation 1.
abbrev first_of : List Float → Float
first_of [] = 0f
first_of (x ∷ xs) = x

abbrev statistics : Statistics
statistics = record {
  mean = first_of;
  std = λ r. 1f;
  skew = λ r. 0f;
  kurtosis = λ r. 1f;
  cdf = λ x. x;
  ppf = λ x. x;
  e = lit 27 1;
  square = λ x. x *f x;
}

abbrev track : List Float
track = lit 9 1 ∷ lit 9 1 ∷ lit 9 1 ∷ []

abbrev gate : PromotionGate
gate = record {
  n_trials = 1;
  min_dsr = lit 5 1;
  min_observations = 3;
  min_oos_stability_rate = lit 5 1;
  cost_min_sharpe = lit 5 1;
  periods_per_year = 4;
}

abbrev at_cost : Float → List Float
at_cost m = (lit 9 1 -f m *f lit 1 1) ∷ lit 9 1 ∷ []

abbrev multiples : List Float
multiples = lit 3 0 ∷ lit 1 0 ∷ lit 2 0 ∷ lit 1 0 ∷ []

sorted_once : sorted_set multiples ≡ lit 1 0 ∷ lit 2 0 ∷ lit 3 0 ∷ []
unfolding sorted_set poly_bob.Promotion.Evaluate.insert_unique
sorted_once = refl

evaluate_lem_example :
    (d : PromotionDecision) × (evaluate statistics gate track
        (some at_cost)
        multiples
        (some (lit 6 1))
        none
      ≡ some d)
    × ((d.approved ≡ true) ↔ (
        (3 ≤ length track)
        × (lit 5 1 ≤f deflated_sharpe_ratio statistics track 1 none ≡ true)
        × (annualized_sharpe statistics (at_cost (lit 3 0)) 4
              ≤f annualized_sharpe statistics (at_cost (lit 1 0)) 4 +f lit 1 9
            ≡ true)
        × (lit 5 1 ≤f annualized_sharpe statistics (at_cost (lit 3 0)) 4 ≡ true)
        × (lit 5 1 ≤f lit 6 1 ≡ true)))
evaluate_lem_example =
    evaluate_lem statistics gate track at_cost multiples (lit 6 1) none (lit 1 0) (lit 3 0) refl
      refl (refl, (refl, (refl, (refl, tt)))) (refl, (refl, (refl, (refl, tt))))

abbrev is_approved : Bool
is_approved = elim (evaluate statistics gate track (some at_cost) multiples (some (lit 6 1)) none) [
  | none ↦ false
  | some d ↦ d.approved
]

approved_here : is_approved ≡ true
unfolding evaluate poly_bob.Promotion.Evaluate.cost_stress_test sorted_set
    poly_bob.Promotion.Evaluate.insert_unique deflated_sharpe_ratio
    poly_bob.Promotion.Sharpe.probabilistic_sharpe_ratio poly_bob.Promotion.Sharpe.sharpe_per_period
    poly_bob.Promotion.Sharpe.expected_max_sharpe annualized_sharpe
approved_here = refl
