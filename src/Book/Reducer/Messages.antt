-- ===== src/Book/Reducer/Messages.antt =====
-- What one message does to the published state of its asset.
use poly_bob.Base.{
  ◌+◌, ◌≡◌, refl, ap, ◌∙◌, true, false, Option, some, none, if◌then◌else◌, arith, String, List, [],
  ◌∷◌, nat_eq, string_eq, get_or, found, is_text,
}
use poly_bob.Base.Dict.{Dict, lookup, lookup-insert, lookup-insert_self}
use poly_bob.Base.Float.{Floats, Float, ◌≤f◌, ◌==f◌, 0f}
use poly_bob.Book.Values.{Time, Raw, Runtime, to_float}
use poly_bob.Book.Levels.{
  Levels, size_of, normalize_levels, set_level, sorted, descending, ascending,
}
use poly_bob.Book.Levels.Merge.{set_level-IsBook, lookup-set_level}
use poly_bob.Book.Levels.Sorted.{lookup-sorted}
use poly_bob.Book.State.{BookState, stale, quality_of}
use poly_bob.Book.Reducer.{
  Reducer, Snapshot, Change, change, PriceChange, finalize, count_message, get_state, load_snapshot,
  apply_snapshot, write_level, apply_level, apply_levels, touch, set_default, change_asset_book,
  is_bid_side,
}
use poly_bob.Book.Reducer.Valid.{IsValid}

module _ ⦃fl : Floats⦄ ⦃rt : Runtime⦄ where
  apply_snapshot_named :
      (m : Snapshot) (now : Time) (t : Option Time) (asset : String) (id : Option String)
      (r : Reducer)
      → is_text (some asset) ≡ true
      → apply_snapshot m now t (some asset) id r ≡ (
        (load_snapshot asset m (get_or t now) id r).0,
        some (load_snapshot asset m (get_or t now) id r).1,
      )
  unfolding apply_snapshot
  apply_snapshot_named m now t asset id r h = ground arith

  load_snapshot_lem :
      (m : Snapshot) (t : Time) (asset : String) (id : Option String) (r : Reducer)
      → (state : BookState) × (some (load_snapshot asset m t id r).1 ≡ some state)
        × (state.bids ≡ sorted descending (normalize_levels m.bids))
        × (state.asks ≡ sorted ascending (normalize_levels m.asks))
        × (state.has_snapshot ≡ true)
        × (state.message_count ≡ get_or (lookup asset r.message_counts) 0 + 1)
        × (get_state (load_snapshot asset m t id r).0 asset ≡ some state)
  unfolding load_snapshot finalize count_message get_state
  load_snapshot_lem m t asset id r = (
    (load_snapshot asset m t id r).1,
    refl,
    simp lookup-insert_self,
    simp lookup-insert_self,
    simp lookup-insert_self,
    simp lookup-insert_self,
    simp lookup-insert_self,
  )

  -- A snapshot for a named asset is published whatever the reducer held before: the two sides are
  -- the message's own levels, the asset has a snapshot, its count is one higher, and the state is
  -- the one that `get_state` gives right after the call.
  pub apply_snapshot_replaces :
      (m : Snapshot) (now : Time) (t : Option Time) (asset : String) (id : Option String)
      (r : Reducer)
      → is_text (some asset) ≡ true
      → (state : BookState) × ((apply_snapshot m now t (some asset) id r).1 ≡ some state)
        × (state.bids ≡ sorted descending (normalize_levels m.bids))
        × (state.asks ≡ sorted ascending (normalize_levels m.asks))
        × (state.has_snapshot ≡ true)
        × (state.message_count ≡ get_or (lookup asset r.message_counts) 0 + 1)
        × (get_state (apply_snapshot m now t (some asset) id r).0 asset ≡ some state)
  apply_snapshot_replaces m now t asset id r h =
      rw (apply_snapshot_named m now t asset id r h) (load_snapshot_lem m (get_or t now) asset id r)

  touch-has_snapshot :
      (asset : String) (m : Option String) (r : Reducer)
      → (touch asset m r).has_snapshot ≡ r.has_snapshot
  unfolding touch count_message
  touch-has_snapshot asset m r = ground arith

  touch-bids : (asset : String) (m : Option String) (r : Reducer) → (touch asset m r).bids ≡ r.bids
  unfolding touch count_message
  touch-bids asset m r = ground arith

  touch-asks : (asset : String) (m : Option String) (r : Reducer) → (touch asset m r).asks ≡ r.asks
  unfolding touch count_message
  touch-asks asset m r = ground arith

  touch-count :
      (asset : String) (m : Option String) (r : Reducer)
      → lookup asset (touch asset m r).message_counts
        ≡ some (get_or (lookup asset r.message_counts) 0 + 1)
  unfolding touch count_message
  touch-count asset m r = ground (
    arith,
    lookup-insert_self asset (get_or (lookup asset r.message_counts) 0 + 1) r.message_counts,
  )

  default_levels :
      (asset a : String) (d : Dict String Levels)
      → get_or (lookup a (set_default asset d)) [] ≡ get_or (lookup a d) []
  default_levels asset a d =
      let none_yet : Levels = [] in
      ground (arith, lookup-insert asset a none_yet d, string_eq.beq_iff asset a)

  -- Until its next snapshot, an asset without one (or whose snapshot was invalidated) gets no level
  -- from a price change: the state is stale, the books of all assets are as they were, and the count
  -- of the asset goes up by one.
  pub change_asset_book_stale :
      (m : PriceChange) (t : Time) (asset : String) (cs : List Change) (r : Reducer)
      → get_or (lookup asset r.has_snapshot) false ≡ false
      → (r' : Reducer) × (state : BookState) × (change_asset_book m t asset cs r ≡ some (r', state))
        × (state.quality ≡ stale)
        × ((a : String) → get_or (lookup a r'.bids) [] ≡ get_or (lookup a r.bids) [])
        × ((a : String) → get_or (lookup a r'.asks) [] ≡ get_or (lookup a r.asks) [])
        × (state.message_count ≡ get_or (lookup asset r.message_counts) 0 + 1)
  unfolding change_asset_book finalize quality_of
  change_asset_book_stale m t asset cs r h =
      rw (touch-has_snapshot asset m.market r, h)
        (
          _,
          _,
          refl,
          refl,
          (λ a.
              default_levels asset a _
              ∙ ap (λ d. get_or (lookup a d) []) (touch-bids asset m.market r)),
          (λ a.
              default_levels asset a _
              ∙ ap (λ d. get_or (lookup a d) []) (touch-asks asset m.market r)),
          ap (λ o. get_or o 0) (touch-count asset m.market r),
        )

  -- One bid change, read as price `p` and size `s`, on an asset with a snapshot: the published bids
  -- have `s` at `p`, or nothing there if `s` is not positive; every other bid price is as it was, and
  -- so are the asks.
  pub change_asset_book_writes :
      (m : PriceChange) (t : Time) (asset : String) (a : Option String) (side : String)
      (price size : Raw) (p s : Float) (r : Reducer)
      → IsValid r
      → lookup asset r.has_snapshot ≡ some true
      → to_float price ≡ some p
      → to_float size ≡ some s
      → is_bid_side (rt.lower (rt.strip side)) ≡ true
      → (r' : Reducer) × (state : BookState) × (change_asset_book m t asset
            (change a side price size ∷ [])
            r
          ≡ some (r', state))
        × ((k : Float)
            → size_of k state.bids ≡ (
                if p ==f k
                then (if s ≤f 0f then none else some s)
                else size_of k (get_or (lookup asset r.bids) [])))
        × (state.asks ≡ sorted ascending (get_or (lookup asset r.asks) []))
  unfolding change_asset_book apply_levels apply_level write_level finalize
  change_asset_book_writes m t asset a side price size p s r v held ep es bid =
      let (b, eb) = found (lookup asset r.bids) (v.based asset held).0 in
      let (ub, kb) = v.bids_ok asset b eb in
      rw (touch-has_snapshot asset m.market r, held, ep, es, bid, touch-bids asset m.market r, eb)
        (
          _,
          _,
          refl,
          (λ k. rw (lookup-insert_self asset (set_level p s b) r.bids) (
              lookup-sorted descending (set_level p s b) k (set_level-IsBook p s b (ub, kb)).0
              ∙ lookup-set_level p s k b ub)),
          ap (λ d. sorted ascending (get_or (lookup asset d) [])) (touch-asks asset m.market r),
        )
