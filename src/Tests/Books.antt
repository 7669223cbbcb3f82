-- ===== src/Tests/Books.antt =====
-- Books of one asset, built from small messages.
use poly_bob.Base.{
  ℕ, zero, suc, ◌+◌, ◌-◌, ◌*◌, ◌/◌, ◌%◌, ◌≤◌, ◌<◌, ◌≡◌, refl, sym, ap, ◌∙◌, ◌≢◌, ◌↔◌, ◌⊎◌, inl, inr,
  Bool, true, false, not, ◌&&◌, ◌||◌, Option, some, none, if◌then◌else◌, arith, String, List, [],
  ◌∷◌, ◌++◌, append-nil, append_assoc, ◌==◌, Eq, nat_eq, string_eq, get_or, or_else, All, All-imp,
  All-append, is_some, is_empty, length, any, all, keep, count, Bool-cases, Option-cases, ltb, leb,
  length-append, found, some_pair, or_str, is_text,
}
use poly_bob.Base.Float.{Float, ◌≤f◌, ◌==f◌, lit, 0f}
use poly_bob.Base.Dict.{lookup}
use poly_bob.Tests.Samples.{fixed_floats, plain_runtime}
use poly_bob.Book.Values.{num, text, null, to_float}
use poly_bob.Book.Levels.{
  RawLevel, mapping, sequence, normalize_levels, descending, ascending, sorted, size_of,
}
use poly_bob.Book.Levels.Merge.{IsBook, size_at, normalize_levels_sums}
use poly_bob.Book.Levels.Sorted.{IsOrdered}
use poly_bob.Book.State.{BookState, ok, stale}
use poly_bob.Book.Reducer.{
  Reducer, empty, Snapshot, Change, change, PriceChange, finalize, invalidate, apply_snapshot,
  change_asset_book, get_state, raw_changes,
}
use poly_bob.Book.Reducer.Valid.{IsValid, empty-IsValid, apply_snapshot-IsValid}
use poly_bob.Book.Reducer.Laws.{
  finalize_orders, IsGraded, finalize-IsGraded, IsApart, finalize-IsApart,
}
use poly_bob.Book.Reducer.Messages.{
  apply_snapshot_replaces, change_asset_book_stale, change_asset_book_writes,
}
use poly_bob.Book.Replay.{
  RawEvent, book, price_change, replay_from, replay_book_states, replay_book_states-append,
}

abbrev bid_levels : List RawLevel
bid_levels =
    mapping (num (lit 40 2)) (num (lit 10 0))
    ∷ sequence (num (lit 45 2)) (num (lit 5 0))
    ∷ mapping (num (lit 40 2)) (num (lit 2 0))
    ∷ mapping null (num (lit 2 0))
    ∷ []

abbrev snapshot : Snapshot
snapshot = record {
  asset_id = some "yes";
  market = some "rain";
  bids = bid_levels;
  asks = mapping (num (lit 55 2)) (num (lit 1 0)) ∷ mapping (num (lit 50 2)) (num (lit 3 0)) ∷ [];
  timestamp = num (lit 2000 0);
  provider_hash = text "h1";
}

abbrev bid_change : PriceChange
bid_change = record {
  asset_id = some "yes";
  market = some "rain";
  timestamp = num (lit 3000 0);
  provider_hash = text "h2";
  changes = some (change none "buy" (num (lit 45 2)) (num (lit 0 0)) ∷ []);
  price_changes = none;
  side = "";
  price = null;
  size = null;
}

abbrev loaded : Reducer
loaded = (apply_snapshot snapshot 1 (some 5) none none empty).0

loaded-IsValid : IsValid loaded
loaded-IsValid = apply_snapshot-IsValid snapshot 1 (some 5) none none empty-IsValid

-- The two bids at 0.40 are summed, the level without a price is skipped.
best_size : size_of (lit 40 2) (normalize_levels bid_levels) ≡ some (lit 12 0)
unfolding normalize_levels lookup poly_bob.Book.Levels.merge_levels poly_bob.Book.Levels.add_level
    to_float poly_bob.Base.Dict.insert
best_size = refl

normalize_levels_sums_example :
    IsBook (normalize_levels bid_levels)
    × ((p : Float) → size_of p (normalize_levels bid_levels) ≡ size_at p bid_levels none)
normalize_levels_sums_example = normalize_levels_sums bid_levels

abbrev published : BookState
published = (finalize "yes" (some 2) 5 (text "h1") loaded).1

published_ok : published.quality ≡ ok
unfolding apply_snapshot finalize poly_bob.Book.State.quality_of lookup
    poly_bob.Book.Reducer.load_snapshot poly_bob.Book.Reducer.count_message
    poly_bob.Base.Dict.insert poly_bob.Book.State.is_crossed_levels sorted normalize_levels
    poly_bob.Book.Levels.merge_levels poly_bob.Book.Levels.add_level to_float
    poly_bob.Book.Levels.insert_sorted
published_ok = refl

finalize_orders_example :
    IsOrdered descending published.bids
    × IsOrdered ascending published.asks
    × ((p : Float) → size_of p published.bids ≡ size_of p (get_or (lookup "yes" loaded.bids) []))
    × ((p : Float) → size_of p published.asks ≡ size_of p (get_or (lookup "yes" loaded.asks) []))
finalize_orders_example = finalize_orders "yes" (some 2) 5 (text "h1") loaded loaded-IsValid

finalize-IsGraded_example : IsGraded published
finalize-IsGraded_example = finalize-IsGraded "yes" (some 2) 5 (text "h1") loaded

finalize-IsApart_example : IsApart published.bids published.asks
finalize-IsApart_example =
    finalize-IsApart "yes" (some 2) 5 (text "h1") loaded loaded-IsValid published_ok

apply_snapshot_replaces_example :
    (state : BookState) × ((apply_snapshot snapshot 1 (some 5) (some "yes") none loaded).1
      ≡ some state)
    × (state.bids ≡ sorted descending (normalize_levels snapshot.bids))
    × (state.asks ≡ sorted ascending (normalize_levels snapshot.asks))
    × (state.has_snapshot ≡ true)
    × (state.message_count ≡ get_or (lookup "yes" loaded.message_counts) 0 + 1)
    × (get_state (apply_snapshot snapshot 1 (some 5) (some "yes") none loaded).0 "yes" ≡ some state)
apply_snapshot_replaces_example = apply_snapshot_replaces snapshot 1 (some 5) "yes" none loaded refl

abbrev dropped_book : Reducer
dropped_book = invalidate "yes" loaded

no_snapshot : get_or (lookup "yes" dropped_book.has_snapshot) false ≡ false
unfolding invalidate lookup poly_bob.Base.Dict.insert apply_snapshot
    poly_bob.Book.Reducer.load_snapshot finalize poly_bob.Book.Reducer.count_message
no_snapshot = refl

change_asset_book_stale_example :
    (r' : Reducer) × (state : BookState) × (change_asset_book bid_change 6 "yes"
        (raw_changes bid_change)
        dropped_book
      ≡ some (r', state))
    × (state.quality ≡ stale)
    × ((a : String) → get_or (lookup a r'.bids) [] ≡ get_or (lookup a dropped_book.bids) [])
    × ((a : String) → get_or (lookup a r'.asks) [] ≡ get_or (lookup a dropped_book.asks) [])
    × (state.message_count ≡ get_or (lookup "yes" dropped_book.message_counts) 0 + 1)
change_asset_book_stale_example =
    change_asset_book_stale bid_change 6 "yes" (raw_changes bid_change) dropped_book no_snapshot

has_book : lookup "yes" loaded.has_snapshot ≡ some true
unfolding apply_snapshot lookup poly_bob.Book.Reducer.load_snapshot finalize
    poly_bob.Book.Reducer.count_message poly_bob.Base.Dict.insert
has_book = refl

price_read : to_float (num (lit 45 2)) ≡ some (lit 45 2)
unfolding to_float
price_read = refl

size_read : to_float (num (lit 0 0)) ≡ some (lit 0 0)
unfolding to_float
size_read = refl

change_asset_book_writes_example :
    (r' : Reducer) × (state : BookState) × (change_asset_book bid_change 6 "yes"
        (change none "buy" (num (lit 45 2)) (num (lit 0 0)) ∷ [])
        loaded
      ≡ some (r', state))
    × ((k : Float)
        → size_of k state.bids ≡ (
            if lit 45 2 ==f k
            then (if lit 0 0 ≤f 0f then none else some (lit 0 0))
            else size_of k (get_or (lookup "yes" loaded.bids) [])))
    × (state.asks ≡ sorted ascending (get_or (lookup "yes" loaded.asks) []))
change_asset_book_writes_example =
    change_asset_book_writes bid_change 6 "yes" none "buy" (num (lit 45 2)) (num (lit 0 0))
      (lit 45 2) (lit 0 0) loaded loaded-IsValid has_book price_read size_read refl

abbrev first_event : RawEvent
first_event = record { asset_id = none; payload = book snapshot; receive_ts = 5 }

abbrev second_event : RawEvent
second_event = record { asset_id = none; payload = price_change bid_change; receive_ts = 6 }

replay_book_states-append_example :
    (r r' : Reducer) × (s s' : List BookState) × IsValid r
    × (replay_from (first_event ∷ []) empty ≡ some (r, s))
    × (replay_from (second_event ∷ []) r ≡ some (r', s'))
    × (replay_book_states ((first_event ∷ []) ++ second_event ∷ []) ≡ some (s ++ s'))
replay_book_states-append_example = replay_book_states-append (first_event ∷ []) (second_event ∷ [])
