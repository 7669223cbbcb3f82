-- ===== src/Tests/Gates.antt =====
-- The two gates before a trade, on a small board and a small order.
use poly_bob.Base.{
  ℕ, ◌≡◌, refl, ◌≢◌, ◌↔◌, true, false, Option, some, none, arith, String, [], ◌∷◌, nat_eq,
  string_eq,
}
use poly_bob.Base.Dict.{Dict}
use poly_bob.Base.Float.{Float, lit}
use mathlib.Core.List.{Memᴰ}
use poly_bob.Tests.Samples.{fixed_floats}
use poly_bob.Promotion.Registry.{
  PromotionRecord, Row, record_of, reload, is_promoted, Blocked, promoted, reason_blocked,
}
use poly_bob.Promotion.Gate.{Permits, is_promoted_iff, reload_fails_closed, reason_blocked_iff}
use poly_bob.Risk.Checker.{default_limits, Leg, number, absent, mapping, evaluate_intent}
use poly_bob.Risk.Admissible.{IsAdmissible}
use poly_bob.Risk.Decision.{evaluate_intent_iff}

abbrev order : Leg
order = mapping (some "rain") none (lit 10 0) (number (lit 5 1)) absent

evaluate_intent_iff_example :
    ((evaluate_intent default_limits (order ∷ []) (some []) none).allowed ≡ true) ↔ (
      (p : Dict String Float) × (some [] ≡ some p)
      × IsAdmissible default_limits (order ∷ []) p none)
evaluate_intent_iff_example = evaluate_intent_iff default_limits (order ∷ []) (some []) none

-- Day 10 is the last day of the evidence.
abbrev day_of : String → Option ℕ
day_of s = some 10

abbrev row : Row
row = record {
  strategy = some "reversion";
  instrument = some "rain";
  approved = some true;
  role = some "avoid";
  sharpe = none;
  dsr = none;
  failed = none;
  domain = none;
  win_rate = none;
  mean_excess_pct = none;
  t_stat = none;
  t_stat_iid = none;
  t_hurdle = none;
  n = none;
  n_clusters = none;
  cluster_by = none;
  wild_p = none;
  p_floor = none;
  resolvable = none;
  evidence_end = some "2026-01-10";
  max_evidence_age_days = some 5;
  implementation = none;
  evidence = none;
  source = none;
}

abbrev trading : PromotionRecord
trading = record_of (record row { role = some "trade" })

-- Promoted up to the fifth day, and blocked after it.
in_time : is_promoted day_of 15 "reversion" none (trading ∷ []) ≡ true
unfolding is_promoted record_of poly_bob.Promotion.Registry.tradable
    poly_bob.Promotion.Registry.role_of poly_bob.Promotion.Registry.evidence_expired
in_time = refl

too_late : is_promoted day_of 16 "reversion" none (trading ∷ []) ≡ false
unfolding is_promoted record_of poly_bob.Promotion.Registry.tradable
    poly_bob.Promotion.Registry.role_of poly_bob.Promotion.Registry.evidence_expired
too_late = refl

is_promoted_iff_example :
    (is_promoted day_of 15 "reversion" (some "rain") (trading ∷ []) ≡ true) ↔ (
      (r : PromotionRecord) × Memᴰ r (trading ∷ []) × Permits day_of 15 "reversion" (some "rain") r)
is_promoted_iff_example = is_promoted_iff day_of 15 "reversion" (some "rain") (trading ∷ [])

not_trade : ◌≢◌ {A = String} "avoid" "trade"
not_trade h = ground (arith, string_eq.beq_iff "avoid" "trade")

reload_fails_closed_example :
    (is_promoted day_of 15 "reversion" none (reload none) ≡ false)
    × (is_promoted day_of 15 "reversion" none (reload (some (row ∷ []))) ≡ false)
reload_fails_closed_example =
    reload_fails_closed day_of 15 "reversion" none (row ∷ []) (not_trade, tt)

reason_blocked_iff_example :
    (reason_blocked day_of 16 "reversion" none (trading ∷ []) ≡ promoted)
    ↔ (is_promoted day_of 16 "reversion" none (trading ∷ []) ≡ true)
reason_blocked_iff_example = reason_blocked_iff day_of 16 "reversion" none (trading ∷ [])
