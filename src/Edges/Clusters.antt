-- ===== src/Edges/Clusters.antt =====
-- `InsiderTrade` and `cluster_buys` (libs/data/sec_insider.py). A filing date is a number of days, none
-- where the text is empty; `sum` is Python's sum of a list of floats.
use poly_bob.Base.{
  ℕ, ◌≡◌, ◌↔◌, Bool, true, false, ◌&&◌, Option, some, none, if◌then◌else◌, arith, String, List, [],
  ◌∷◌, ◌++◌, map, ◌==◌, Eq, nat_eq, string_eq, get_or, length, keep, leb,
}
use poly_bob.Base.Dict.{Dict, lookup, insert}
use poly_bob.Base.Float.{Floats, Float, ◌≤f◌, ◌<f◌, ◌*f◌, 0f}

abbrev pub same_date : Option ℕ → Option ℕ → Bool
same_date none none = true
same_date (some a) (some b) = a == b
same_date _ _ = false

-- The key of a group.
abbrev pub ClusterKey : Type 0
ClusterKey = String × Option ℕ

abbrev pub same_key : ClusterKey → ClusterKey → Bool
same_key (s, a) (t, b) = s == t && same_date a b

same_date_iff : (a b : Option ℕ) → (same_date a b ≡ true) ↔ (a ≡ b)
same_date_iff a b = ground (arith)

pub same_key_iff : (k j : ClusterKey) → (same_key k j ≡ true) ↔ (k ≡ j)
same_key_iff (s, a) (t, b) = ground (arith, same_date_iff a b, string_eq.beq_iff s t)

instance abbrev pub key_eq : Eq ClusterKey
key_eq = record { beq = same_key; beq_iff = same_key_iff }

module _ ⦃fl : Floats⦄ where
  pub record InsiderTrade : Type 0 where
    pub symbol : String
    pub issuer : String
    pub filing_date : Option ℕ
    pub trans_date : Option ℕ
    -- `trans_code.upper()`
    pub trans_code : String
    pub shares : Float
    pub price : Float

  abbrev pub is_open_market_buy : InsiderTrade → Bool
  is_open_market_buy t = t.trans_code == "P" && 0f <f t.shares

  -- `value_usd`
  abbrev pub value_usd : InsiderTrade → Float
  value_usd t = t.shares *f t.price

  abbrev pub key_of : InsiderTrade → ClusterKey
  key_of t = (t.symbol, t.filing_date)

  abbrev pub counts : (min_value_usd : Float) → InsiderTrade → Bool
  counts min_value_usd t = is_open_market_buy t && min_value_usd ≤f value_usd t

  -- The loop over the trades.
  unfoldable pub group_trades :
      (min_value_usd : Float)
      → List InsiderTrade
      → Dict ClusterKey (List InsiderTrade)
      → Dict ClusterKey (List InsiderTrade)
  group_trades min_value_usd [] groups = groups
  group_trades min_value_usd (t ∷ ts) groups = group_trades min_value_usd ts (
      if counts min_value_usd t
      then insert (key_of t) (get_or (lookup (key_of t) groups) [] ++ t ∷ []) groups
      else groups)

  unfoldable pub cluster_buys :
      (sum : List Float → Float)
      → (min_insiders : ℕ) → (min_value_usd : Float) → List InsiderTrade
      → List (ClusterKey × Float)
  cluster_buys sum min_insiders min_value_usd trades =
      map (λ e. (e.0, sum (map value_usd e.1)))
        (keep (λ e. leb min_insiders (length e.1)) (group_trades min_value_usd trades []))
