-- ===== src/Tests/Firings.antt =====
-- Two purchases by insiders, filed on one day.
use poly_bob.Base.{
  ℕ, ◌+◌, ◌-◌, ◌≡◌, refl, ◌≢◌, ◌↔◌, Option, some, none, if◌then◌else◌, String, List, [], ◌∷◌, ◌==◌,
  nat_eq, string_eq, length, leb,
}
use poly_bob.Base.Dict.{lookup, insert}
use poly_bob.Base.Float.{Float, lit, 0f}
use poly_bob.Tests.Samples.{fixed_floats}
use poly_bob.Edges.Clusters.{InsiderTrade, ClusterKey, cluster_buys}
use poly_bob.Edges.Detect.{
  active, inactive, unknown, Quarter, quarters_between, quarter_number, EdgeInstance, read_quarters,
  detect_insider_cluster,
}
use poly_bob.Edges.Fires.{IsFiring, unread, detect_insider_cluster_lem}

abbrev total : List Float → Float
total [] = 0f
total (x ∷ xs) = fixed_floats.add x (total xs)

abbrev purchase : InsiderTrade
purchase = record {
  symbol = "ACME";
  issuer = "Acme";
  filing_date = some 85;
  trans_date = some 84;
  trans_code = "P";
  shares = lit 10 0;
  price = lit 10 0;
}

abbrev clean : String → String
clean s = s

-- The first quarter ends with day 90.
abbrev quarter_of : ℕ → Quarter
quarter_of d = record { year = 2026; quarter = if leb d 90 then 1 else 2 }

-- The second quarter cannot be read.
abbrev fetch : Quarter → Option (List InsiderTrade)
fetch q = if q.quarter == 1 then some (purchase ∷ purchase ∷ []) else none

abbrev seen : EdgeInstance
seen = detect_insider_cluster [] total clean quarter_of "ACME" 100 20 2 (lit 50 0) fetch

seen_active : seen.status ≡ active
unfolding detect_insider_cluster read_quarters quarters_between cluster_buys
    poly_bob.Edges.Clusters.group_trades insert lookup
seen_active = refl

abbrev other : EdgeInstance
other = detect_insider_cluster [] total clean quarter_of "OTHER" 100 20 2 (lit 50 0) fetch

-- Nothing in the quarter that was read is taken for nothing in both.
other_inactive : other.status ≡ inactive
unfolding detect_insider_cluster read_quarters quarters_between cluster_buys
    poly_bob.Edges.Clusters.group_trades insert lookup
other_inactive = refl

abbrev quarters : List Quarter
quarters =
    quarters_between (quarter_number (quarter_of 100) + 1 - quarter_number (quarter_of 80))
      (quarter_of 80) (quarter_of 100)

two_quarters : length quarters ≡ 2
unfolding quarters_between
two_quarters = refl

detect_insider_cluster_lem_example :
    ((seen.status ≡ unknown) ↔ (unread [] fetch quarters ≡ length quarters))
    × ((seen.status ≡ active) ↔ (
        (unread [] fetch quarters ≢ length quarters)
        × IsFiring [] "ACME" 80 100 2 (lit 50 0) (read_quarters [] fetch quarters).0))
detect_insider_cluster_lem_example =
    detect_insider_cluster_lem [] total clean quarter_of "ACME" 100 20 2 (lit 50 0) fetch
