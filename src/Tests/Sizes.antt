-- ===== src/Tests/Sizes.antt =====
-- The size of a position in an account of 1000, on fixed-point floats.
use poly_bob.Base.{
  ℕ, zero, suc, ◌+◌, ◌-◌, ◌*◌, ◌/◌, ◌%◌, ◌≤◌, ◌<◌, ◌≡◌, refl, sym, ap, ◌∙◌, ◌≢◌, ◌↔◌, ◌⊎◌, inl, inr,
  Bool, true, false, not, ◌&&◌, ◌||◌, Option, some, none, if◌then◌else◌, arith, String, List, [],
  ◌∷◌, ◌++◌, map, append-nil, append_assoc, ◌==◌, Eq, nat_eq, string_eq, get_or, or_else, All,
  All-imp, All-append, is_some, is_empty, length, any, all, keep, count, Bool-cases, Option-cases,
  ltb, leb, length-append, found, some_pair, or_str, is_text,
}
use native.Mathlib.Nat.{div-lt_iff_lt-mul, le-div_iff_mul-le}
use poly_bob.Base.Float.{Floats, Float, ◌<f◌, ◌≤f◌, lit, 0f}
use poly_bob.Tests.Samples.{fixed_floats, plus, minus}
use poly_bob.Portfolio.Account.{
  Account, Position, max_position_fraction, require_equity, correlated_risk, domain_notional,
  total_risk,
}
use poly_bob.Portfolio.Sizing.{
  EdgeStatistics, SizeDecision, kelly_fraction, win_rate_lower_bound, size_position,
}
use poly_bob.Portfolio.Bounds.{DividesBack, IsBounded, size_position-IsBounded}

room_over : (x f e : ℕ) → 0 < e → x * 10000 < f * e → x * 10000 / e ≤ f
room_over x f e pos h =
    omega (arith, (div-lt_iff_lt-mul {k = e} {x = x * 10000} {y = suc f} pos).1 (omega (arith, h)))

room_under : (x f e : ℕ) → 0 < e → f * e ≤ x * 10000 → f ≤ x * 10000 / e
room_under x f e pos h = (le-div_iff_mul-le {k = e} {x = f} {y = x * 10000} pos).1 h

divides_back : DividesBack
divides_back (plus f) (plus e) (plus r) pos h = ground (arith, room_over r f e)
divides_back (plus f) (plus e) (minus r) pos h = ground (arith)
divides_back (minus f) (plus e) (plus r) pos h = ground (arith)
divides_back (minus f) (plus e) (minus r) pos h = ground (arith, room_under (r + 1) (f + 1) e)
divides_back f (minus e) r pos h = ground (arith)

abbrev stats : EdgeStatistics
stats = record {
  win_rate = lit 70 2;
  mean_excess = lit 5 2;
  n_clusters = 9;
  win_loss_ratio = some (lit 15 1);
}

abbrev held : Position
held = record {
  symbol = "ACME";
  domain = "us_equity";
  edge_id = "us_insider_cluster_buy";
  direction = "long";
  quantity = lit 20 0;
  entry_price = lit 10 0;
  stop_price = some (lit 98 1);
  opened_on = "2026-01-05";
}

abbrev account : Account
account = record { equity = some (lit 1000 0); cash = none; positions = held ∷ [] }

abbrev total : List Float → Float
total [] = 0f
total (x ∷ xs) = fixed_floats.add x (total xs)

abbrev size : SizeDecision
size = size_position total stats account "us_equity" (some (lit 10 0)) (some (lit 9 0))

-- 200 of the 250 for the domain are taken.
room_left : size.fraction ≡ lit 5 2
unfolding size_position kelly_fraction poly_bob.Portfolio.Sizing.payoff_ratio win_rate_lower_bound
    require_equity poly_bob.Portfolio.Sizing.cap_risk poly_bob.Base.Float.abs correlated_risk
    poly_bob.Portfolio.Account.risk_by_domain poly_bob.Base.Dict.insert poly_bob.Base.Dict.lookup
    poly_bob.Portfolio.Account.risk_amount poly_bob.Portfolio.Sizing.cap_domain domain_notional
    poly_bob.Portfolio.Account.notional poly_bob.Portfolio.Sizing.cap_position
room_left = refl

may_open : size.allowed ≡ true
unfolding size_position kelly_fraction poly_bob.Portfolio.Sizing.payoff_ratio win_rate_lower_bound
    require_equity poly_bob.Portfolio.Sizing.cap_risk poly_bob.Base.Float.abs correlated_risk
    poly_bob.Portfolio.Account.risk_by_domain poly_bob.Base.Dict.insert poly_bob.Base.Dict.lookup
    poly_bob.Portfolio.Account.risk_amount poly_bob.Portfolio.Sizing.cap_domain domain_notional
    poly_bob.Portfolio.Account.notional poly_bob.Portfolio.Sizing.cap_position
may_open = refl

size_position-IsBounded_example :
    IsBounded divides_back total stats account "us_equity" (some (lit 10 0)) (some (lit 9 0)) size
size_position-IsBounded_example =
    size_position-IsBounded divides_back total stats account "us_equity" (some (lit 10 0))
      (some (lit 9 0)) refl
