-- ===== src/Edges/Groups.antt =====
-- What `cluster_buys` groups under a key: the trades that count and have it, in their order.
use poly_bob.Base.{
  extended, extended_twice, ◌≡◌, refl, inl, inr, ◌&&◌, arith, List, [], ◌∷◌, ◌++◌, ◌==◌, nat_eq,
  string_eq, get_or, keep, Bool-cases,
}
use poly_bob.Base.Dict.{Dict, lookup, insert, IsUnique, insert-IsUnique, lookup-insert}
use poly_bob.Base.Float.{Floats, Float}
use poly_bob.Edges.Clusters.{ClusterKey, key_eq, InsiderTrade, key_of, counts, group_trades}

module _ ⦃fl : Floats⦄ where
  -- The trades that count for a key.
  abbrev pub counted_at :
      (min_value_usd : Float) → ClusterKey → List InsiderTrade → List InsiderTrade
  counted_at min_value_usd k ts = keep (λ t. counts min_value_usd t && (key_of t == k)) ts

  pub lookup-group_trades :
      (v : Float) (k : ClusterKey) (ts : List InsiderTrade)
      (groups : Dict ClusterKey (List InsiderTrade))
      → lookup k (group_trades v ts groups) ≡ extended (lookup k groups) (counted_at v k ts)
  unfolding group_trades
  lookup-group_trades v k [] groups = refl
  lookup-group_trades v k (t ∷ ts) groups =
      let group = get_or (lookup (key_of t) groups) [] ++ t ∷ [] in
      elim (Bool-cases (counts v t)) [
        | inr small ↦ rw (small) (lookup-group_trades v k ts groups)
        | inl good ↦
            let rest = lookup-group_trades v k ts (insert (key_of t) group groups) in
            elim (Bool-cases (key_of t == k)) [
              | inl own ↦ ground (
                arith,
                rest,
                own,
                good,
                lookup-insert (key_of t) k group groups,
                key_eq.beq_iff (key_of t) k,
                extended_twice (lookup k groups) t (counted_at v k ts),
              )
              | inr other ↦
                  ground (arith, rest, other, good, lookup-insert (key_of t) k group groups)
            ]
      ]

  pub group_trades-IsUnique :
      (v : Float) (ts : List InsiderTrade) (groups : Dict ClusterKey (List InsiderTrade))
      → IsUnique groups
      → IsUnique (group_trades v ts groups)
  unfolding group_trades
  group_trades-IsUnique v [] groups u = u
  group_trades-IsUnique v (t ∷ ts) groups u = elim (Bool-cases (counts v t)) [
    | inl good ↦ rw good (
        group_trades-IsUnique v ts
          (insert (key_of t) (get_or (lookup (key_of t) groups) [] ++ t ∷ []) groups)
          (insert-IsUnique (key_of t) (get_or (lookup (key_of t) groups) [] ++ t ∷ []) groups u))
    | inr small ↦ rw small (group_trades-IsUnique v ts groups u)
  ]
