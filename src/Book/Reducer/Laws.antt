-- ===== src/Book/Reducer/Laws.antt =====
-- What a published state says: its order, its quality, and what it takes from the messages.
use poly_bob.Base.{
  ◌≡◌, ◌↔◌, inl, inr, Bool, true, false, Option, none, arith, String, [], ◌∷◌, nat_eq, string_eq,
  get_or, All, All-imp, is_some, Option-cases,
}
use poly_bob.Base.Dict.{Dict, lookup}
use poly_bob.Base.Float.{Floats, Float, ◌<f◌}
use poly_bob.Book.Values.{Time, Raw}
use poly_bob.Book.Levels.{Levels, size_of, descending, ascending}
use poly_bob.Book.Levels.Merge.{IsBook}
use poly_bob.Book.Levels.Sorted.{
  IsOrdered, sorted-ascending-IsOrdered, sorted-descending-IsOrdered, lookup-sorted,
}
use poly_bob.Book.State.{
  BookState, ok, stale, degraded, no_timestamp, quality_of, is_crossed, is_crossed_levels,
}
use poly_bob.Book.Reducer.{Reducer, finalize}
use poly_bob.Book.Reducer.Valid.{IsValid, AllBooks}

module _ ⦃fl : Floats⦄ where
  IsBook-of :
      (asset : String) (d : Dict String Levels) → AllBooks d → IsBook (get_or (lookup asset d) [])
  IsBook-of asset d h = elim (Option-cases (lookup asset d)) [
    | inl e ↦ rw e (tt, tt)
    | inr (b, e) ↦ rw e (h asset b e)
  ]

  -- In a valid reducer the published bids fall strictly in price and the asks rise strictly, and at
  -- each price they hold the size that the reducer's own dictionary has there.
  pub finalize_orders :
      (asset : String) (s : Option Time) (t : Time) (h : Raw) (r : Reducer)
      → IsValid r
      → let state = (finalize asset s t h r).1 in
        IsOrdered descending state.bids
        × IsOrdered ascending state.asks
        × ((p : Float) → size_of p state.bids ≡ size_of p (get_or (lookup asset r.bids) []))
        × ((p : Float) → size_of p state.asks ≡ size_of p (get_or (lookup asset r.asks) []))
  unfolding finalize
  finalize_orders asset s t h r v =
      let (ub, _) = IsBook-of asset r.bids v.bids_ok in
      let (ua, _) = IsBook-of asset r.asks v.asks_ok in
      (
        sorted-descending-IsOrdered _ ub,
        sorted-ascending-IsOrdered _ ua,
        λ p. lookup-sorted descending _ p ub,
        λ p. lookup-sorted ascending _ p ua,
      )

  abbrev pub IsGraded : BookState → Type 0
  IsGraded s =
      ((s.quality ≡ stale) ↔ (s.has_snapshot ≡ false))
      × ((s.quality ≡ degraded) ↔ ((s.has_snapshot ≡ true) × (is_crossed s ≡ true)))
      × ((s.quality ≡ no_timestamp)
          ↔ ((s.has_snapshot ≡ true) × (is_crossed s ≡ false) × (s.source_ts ≡ none)))
      × ((s.quality ≡ ok)
          ↔ ((s.has_snapshot ≡ true) × (is_crossed s ≡ false) × (is_some s.source_ts ≡ true)))

  graded :
      (held : Bool) (bids asks : Levels) (s : Option Time)
      → ((quality_of held bids asks s ≡ stale) ↔ (held ≡ false))
        × ((quality_of held bids asks s ≡ degraded)
            ↔ ((held ≡ true) × (is_crossed_levels bids asks ≡ true)))
        × ((quality_of held bids asks s ≡ no_timestamp)
            ↔ ((held ≡ true) × (is_crossed_levels bids asks ≡ false) × (s ≡ none)))
        × ((quality_of held bids asks s ≡ ok)
            ↔ ((held ≡ true) × (is_crossed_levels bids asks ≡ false) × (is_some s ≡ true)))
  unfolding quality_of
  graded held bids asks s = ground arith

  -- The quality of a published state is stale exactly without a snapshot, degraded exactly with a
  -- snapshot and a crossed book, no_timestamp exactly with an uncrossed snapshot and no provider
  -- time, and ok exactly with an uncrossed snapshot and a provider time.
  pub finalize-IsGraded :
      (asset : String) (s : Option Time) (t : Time) (h : Raw) (r : Reducer)
      → IsGraded (finalize asset s t h r).1
  unfolding finalize is_crossed
  finalize-IsGraded asset s t h r = graded _ _ _ _

  above-All :
      (p : Float) (bids : Levels) (a : Float)
      → (p <f a) ≡ true
      → All (λ (b : Float × Float). descending p b.0 ≡ true) bids
      → All (λ (b : Float × Float). (b.0 <f a) ≡ true) bids
  above-All p bids a h k = All-imp bids (λ b lower. fl.lt_trans b.0 p a lower h) k

  -- Every bid lies below every ask.
  abbrev pub IsApart : Levels → Levels → Type 0
  IsApart bids asks =
      All (λ (a : Float × Float). All (λ (b : Float × Float). (b.0 <f a.0) ≡ true) bids) asks

  all_trivial : (asks : Levels) → IsApart [] asks
  all_trivial [] = tt
  all_trivial (a ∷ asks) = (tt, all_trivial asks)

  apart :
      (bids asks : Levels)
      → IsOrdered descending bids
      → IsOrdered ascending asks
      → is_crossed_levels bids asks ≡ false
      → IsApart bids asks
  unfolding is_crossed_levels
  apart [] asks hb ha e = all_trivial asks
  apart (b ∷ bids) [] hb ha e = tt
  apart (b ∷ bids) (a ∷ asks) hb ha e =
      let below : (b.0 <f a.0) ≡ true = ground arith in
      (
        (below, above-All b.0 bids a.0 below hb.0),
        All-imp asks
            (λ y up. let h = fl.lt_trans b.0 a.0 y.0 below up in (h, above-All b.0 bids y.0 h hb.0))
            ha.0,
      )

  not_crossed : (s : BookState) → IsGraded s → s.quality ≡ ok → is_crossed s ≡ false
  not_crossed s g e = (g.3.0 e).1

  -- In a state that is published as ok by a valid reducer, every bid lies strictly below every ask.
  pub finalize-IsApart :
      (asset : String) (s : Option Time) (t : Time) (h : Raw) (r : Reducer)
      → IsValid r
      → (finalize asset s t h r).1.quality ≡ ok
      → IsApart (finalize asset s t h r).1.bids (finalize asset s t h r).1.asks
  unfolding is_crossed
  finalize-IsApart asset s t h r v e =
      let (hb, ha, _, _) = finalize_orders asset s t h r v in
      apart _ _ hb ha (not_crossed (finalize asset s t h r).1 (finalize-IsGraded asset s t h r) e)
