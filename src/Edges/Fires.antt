-- ===== src/Edges/Fires.antt =====
-- What `detect_insider_cluster` says on historical data.
use poly_bob.Base.{
  ℕ, ◌+◌, ◌-◌, ◌≤◌, ◌<◌, ◌≡◌, refl, ap, ◌∙◌, subst, ◌≢◌, ◌↔◌, inl, inr, Bool, true, not, ◌&&◌,
  Option, some, none, if◌then◌else◌, arith, String, List, [], ◌∷◌, map, Eq, nat_eq, string_eq,
  is_some, is_empty, length, any, keep, count, Bool-cases, leb,
}
use poly_bob.Base.Dict.{Dict, lookup, IsUnique}
use poly_bob.Base.Float.{Floats, Float}
use poly_bob.Promotion.Registry.{PromotionRecord}
use poly_bob.Edges.Clusters.{
  ClusterKey, key_eq, InsiderTrade, value_usd, group_trades, cluster_buys,
}
use poly_bob.Edges.Groups.{counted_at, lookup-group_trades, group_trades-IsUnique}
use poly_bob.Edges.Detect.{
  active, unknown, Quarter, quarters_between, quarter_number, is_hit, read_quarters, judge_quarters,
  detect_insider_cluster,
}

-- A member of a dictionary, and a test that some member passes.
any-lookup :
    {K V : Type 0} ⦃e : Eq K⦄ (p : K × V → Bool) (d : Dict K V) (k : K) (v : V)
    → lookup k d ≡ some v
    → p (k, v) ≡ true
    → any p d ≡ true
unfolding lookup
any-lookup p [] k v h t = ground (arith)
any-lookup ⦃e⦄ p ((j, w) ∷ d) k v h t = ground (arith, any-lookup p d k v, e.beq_iff k j, h, t)

lookup-any :
    {K V : Type 0} ⦃e : Eq K⦄ (p : K × V → Bool) (d : Dict K V)
    → IsUnique d
    → any p d ≡ true
    → (k : K) × (v : V) × (lookup k d ≡ some v) × (p (k, v) ≡ true)
unfolding lookup
lookup-any p [] u h = absurd (ground (arith))
lookup-any ⦃e⦄ p ((j, w) ∷ d) u h = elim (Bool-cases (p (j, w))) [
  | inl passes ↦ (j, w, ground (arith, e.beq_iff j j), passes)
  | inr fails ↦
      let (k, v, there, passes) = lookup-any p d u.1 (ground (arith)) in
      (k, v, ground (arith, e.beq_iff k j, u.0, there), passes)
]

is_empty-keep : {A : Type 0} (p : A → Bool) (xs : List A) → is_empty (keep p xs) ≡ not (any p xs)
is_empty-keep p [] = refl
is_empty-keep p (x ∷ xs) = ground (arith, is_empty-keep p xs)

any-clusters :
    {K V W : Type 0} (p : K → Bool) (q : K × V → Bool) (f : V → W) (d : List (K × V))
    → any (λ (e : K × W). p e.0) (map (λ (e : K × V). (e.0, f e.1)) (keep q d))
      ≡ any (λ (e : K × V). p e.0 && q e) d
any-clusters p q f [] = refl
any-clusters p q f (e ∷ d) = ground (arith, any-clusters p q f d)

module _ ⦃fl : Floats⦄ (registry : List PromotionRecord) where
  -- A day in the window on which enough trades of the symbol that count were filed.
  abbrev pub IsFiring :
      (wanted : String)
      → (start as_of min_insiders : ℕ) → (min_value_usd : Float) → List InsiderTrade
      → Type 0
  IsFiring wanted start as_of min_insiders min_value_usd trades =
      (filed : ℕ) × (start ≤ filed)
      × (filed ≤ as_of)
      × (0 < length (counted_at min_value_usd (wanted, some filed) trades))
      × (min_insiders ≤ length (counted_at min_value_usd (wanted, some filed) trades))

  -- The test of a group.
  abbrev fires : String → ℕ → ℕ → ℕ → ClusterKey × List InsiderTrade → Bool
  fires wanted start as_of n e = is_hit registry wanted start as_of e.0 && leb n (length e.1)

  lookup-groups :
      (v : Float) (k : ClusterKey) (trades : List InsiderTrade)
      → lookup k (group_trades v trades [])
        ≡ (if is_empty (counted_at v k trades) then none else some (counted_at v k trades))
  unfolding lookup
  lookup-groups v k trades = ground (arith, lookup-group_trades v k trades [])

  IsFiring-any :
      (wanted : String) (start as_of n : ℕ) (v : Float) (trades : List InsiderTrade)
      → IsFiring wanted start as_of n v trades
      → any (fires wanted start as_of n) (group_trades v trades []) ≡ true
  IsFiring-any wanted start as_of n v trades (filed, after, before, some_trade, enough) =
      any-lookup (fires wanted start as_of n) (group_trades v trades []) (wanted, some filed)
        (counted_at v (wanted, some filed) trades)
        (ground (arith, lookup-groups v (wanted, some filed) trades, some_trade))
        (ground (arith, after, before, enough, string_eq.beq_iff wanted wanted))

  any-IsFiring :
      (wanted : String) (start as_of n : ℕ) (v : Float) (trades : List InsiderTrade)
      → any (fires wanted start as_of n) (group_trades v trades []) ≡ true
      → IsFiring wanted start as_of n v trades
  any-IsFiring wanted start as_of n v trades h =
      let (k, g, there, passes) =
        lookup-any (fires wanted start as_of n) (group_trades v trades [])
          (group_trades-IsUnique v trades [] tt) h in
      firing_key k g there passes
    where
      firing_key :
          (k : ClusterKey) (g : List InsiderTrade)
          → lookup k (group_trades v trades []) ≡ some g
          → fires wanted start as_of n (k, g) ≡ true
          → IsFiring wanted start as_of n v trades
      firing_key (s, none) g there passes = absurd (ground (arith))
      firing_key (s, some filed) g there passes =
          let same : s ≡ wanted = ground (arith, string_eq.beq_iff s wanted) in
          let here : lookup (wanted, some filed) (group_trades v trades []) ≡ some g =
            subst (λ x. lookup (x, some filed) (group_trades v trades []) ≡ some g) same there in
          let found_group = lookup-groups v (wanted, some filed) trades in
          (
            filed,
            ground (arith, passes),
            ground (arith, passes),
            ground (arith, found_group, here),
            ground (arith, found_group, here, passes),
          )

  -- The quarters that could not be read.
  abbrev pub unread : (Quarter → Option (List InsiderTrade)) → List Quarter → ℕ
  unread fetch qs = count (λ q. not (is_some (fetch q))) qs

  read_quarters-unread :
      (fetch : Quarter → Option (List InsiderTrade)) (qs : List Quarter)
      → (read_quarters registry fetch qs).1 ≡ unread fetch qs
  unfolding read_quarters
  read_quarters-unread fetch [] = refl
  read_quarters-unread fetch (q ∷ qs) = ground (arith, read_quarters-unread fetch qs)

  is_empty-hits :
      (sum : List Float → Float) (wanted : String) (start as_of n : ℕ) (v : Float)
      (trades : List InsiderTrade)
      → is_empty (
          keep
            (λ (e : ClusterKey × Float). is_hit registry wanted start as_of e.0)
            (cluster_buys sum n v trades))
        ≡ not (any (fires wanted start as_of n) (group_trades v trades []))
  unfolding cluster_buys
  is_empty-hits sum wanted start as_of n v trades =
      is_empty-keep (λ (e : ClusterKey × Float). is_hit registry wanted start as_of e.0)
        (cluster_buys sum n v trades)
      ∙ ap not (
          any-clusters (is_hit registry wanted start as_of)
            (λ (e : ClusterKey × List InsiderTrade). leb n (length e.1))
            (λ g. sum (map value_usd g)) (group_trades v trades []))

  judge_quarters_lem :
      (sum : List Float → Float) (clean : String → String) (symbol : String) (as_of window n : ℕ)
      (v : Float) (quarters : ℕ) (trades : List InsiderTrade) (failures : ℕ)
      → let e =
          judge_quarters registry sum clean symbol as_of window n v quarters (trades, failures) in
        ((e.status ≡ unknown) ↔ (failures ≡ quarters))
        × ((e.status ≡ active)
            ↔ ((failures ≢ quarters) × IsFiring (clean symbol) (as_of - window) as_of n v trades))
  judge_quarters_lem sum clean symbol as_of window n v quarters trades failures =
      let empties = is_empty-hits sum (clean symbol) (as_of - window) as_of n v trades in
      elim (Bool-cases
        (any (fires (clean symbol) (as_of - window) as_of n) (group_trades v trades []))) [
          | inl hit ↦
              let f = any-IsFiring (clean symbol) (as_of - window) as_of n v trades hit in
              (
                (λ h. ground (arith, empties, hit), λ h. ground (arith, h)),
                (λ h. ((λ e. ground (arith, e)), f), λ h. ground (arith, empties, hit, h.0)),
              )
          | inr miss ↦ (
            (λ h. ground (arith, empties, miss), λ h. ground (arith, h)),
            (
              λ h. absurd (ground (arith, empties, miss)),
              λ h. absurd (
                  ground (
                    arith,
                    miss,
                    IsFiring-any (clean symbol) (as_of - window) as_of n v trades h.1,
                  )),
            ),
          )
        ]

  -- On historical data the insider edge is unknown exactly if no quarter of the window could be read, also
  -- if there is none; it is active exactly if some quarter could be read and, on a day of the window, at
  -- least one and at least `min_insiders` of the trades read for the symbol are purchases in the open
  -- market worth the least value; otherwise it is inactive, also where quarters are missing.
  pub detect_insider_cluster_lem :
      (sum : List Float → Float) (clean : String → String) (quarter_of : ℕ → Quarter)
      (symbol : String) (as_of window min_insiders : ℕ) (min_value_usd : Float)
      (fetch : Quarter → Option (List InsiderTrade))
      → let from = quarter_of (as_of - window) in
        let until = quarter_of as_of in
        let qs = quarters_between (quarter_number until + 1 - quarter_number from) from until in
        let e =
          detect_insider_cluster registry sum clean quarter_of symbol as_of window min_insiders
            min_value_usd fetch in
        ((e.status ≡ unknown) ↔ (unread fetch qs ≡ length qs))
        × ((e.status ≡ active) ↔ (
            (unread fetch qs ≢ length qs)
            × IsFiring
                (clean symbol)
                (as_of - window)
                as_of
                min_insiders
                min_value_usd
                (read_quarters registry fetch qs).0))
  unfolding detect_insider_cluster
  detect_insider_cluster_lem sum clean quarter_of symbol as_of window min_insiders min_value_usd
        fetch =
      let from = quarter_of (as_of - window) in
      let until = quarter_of as_of in
      let qs = quarters_between (quarter_number until + 1 - quarter_number from) from until in
      rw (← read_quarters-unread fetch qs) (
        judge_quarters_lem sum clean symbol as_of window min_insiders min_value_usd (length qs)
          (read_quarters registry fetch qs).0 (read_quarters registry fetch qs).1)
