-- ===== src/Book/Reducer.antt =====
-- `PolymarketBookReducer` (libs/polymarket/book_state.py): its dictionaries, and its operations on
-- snapshots and on price changes. An operation that reads `self._bids[asset]` gives `none` where the
-- key is missing, which is Python's KeyError.
pub mod Valid
pub mod Laws
pub mod Messages
use poly_bob.Base.{
  ℕ, zero, suc, ◌+◌, ◌-◌, ◌*◌, ◌/◌, ◌%◌, ◌≤◌, ◌<◌, ◌≡◌, refl, sym, ap, ◌∙◌, ◌≢◌, ◌↔◌, ◌⊎◌, inl, inr,
  Bool, true, false, not, ◌&&◌, ◌||◌, Option, some, none, if◌then◌else◌, arith, String, List, [],
  ◌∷◌, ◌++◌, map, append-nil, append_assoc, ◌==◌, Eq, nat_eq, string_eq, get_or, or_else, All,
  All-imp, All-append, is_some, is_empty, length, any, all, keep, count, Bool-cases, Option-cases,
  ltb, leb, length-append, or_str, is_text,
}
use poly_bob.Base.Dict.{
  Dict, lookup, insert, erase, IsUnique, insert-IsUnique, lookup-insert, lookup-insert_self,
  lookup-insert_ne, lookup-erase, erase-IsUnique,
}
use poly_bob.Base.Float.{
  Floats, Float, ◌≤f◌, ◌<f◌, ◌+f◌, ◌-f◌, ◌*f◌, ◌/f◌, ◌==f◌, lit, 0f, 1f, abs, lt_asymm, ==f_iff,
}
use poly_bob.Book.Values.{Time, Raw, null, text, Runtime, to_float, parse_provider_timestamp}
use poly_bob.Book.Levels.{
  Levels, RawLevel, normalize_levels, set_level, sorted, ascending, descending,
}
use poly_bob.Book.State.{BookState, no_sequence_available, quality_of}

abbrev pub ◌>>=◌ {ℓ κ} : {A : Type ℓ} {B : Type κ} → Option A → (A → Option B) → Option B
none >>= f = none
some a >>= f = f a

infixl 5 ◌>>=◌
module _ ⦃fl : Floats⦄ where
  pub record Reducer : Type 0 where
    pub bids : Dict String Levels
    pub asks : Dict String Levels
    pub has_snapshot : Dict String Bool
    pub market_ids : Dict String (Option String)
    pub message_counts : Dict String ℕ
    pub states : Dict String BookState

  -- `__init__`
  abbrev pub empty : Reducer
  empty = record {
    bids = [];
    asks = [];
    has_snapshot = [];
    market_ids = [];
    message_counts = [];
    states = [];
  }

  unfoldable pub get_state : Reducer → String → Option BookState
  get_state r asset = lookup asset r.states

  -- A `book` message: `data.get` of each field that is read.
  pub record Snapshot : Type 0 where
    pub asset_id : Option String
    pub market : Option String
    pub bids : List RawLevel
    pub asks : List RawLevel
    pub timestamp : Raw
    pub provider_hash : Raw

  -- An entry of `changes`: a mapping, or anything else, which is skipped.
  pub data Change : Type 0 where
    change : (asset_id : Option String) (side : String) (price size : Raw) → Change
    not_mapping : Change

  -- A `price_change` message, in any of its shapes.
  pub record PriceChange : Type 0 where
    pub asset_id : Option String
    pub market : Option String
    pub timestamp : Raw
    pub provider_hash : Raw
    pub changes : Option (List Change)
    pub price_changes : Option (List Change)
    pub side : String
    pub price : Raw
    pub size : Raw

  abbrev text_of : Raw → Option String
  text_of (text s) = some s
  text_of _ = none

  unfoldable pub finalize : String → Option Time → Time → Raw → Reducer → Reducer × BookState
  finalize asset source_ts receive_ts provider_hash r =
      let bids = sorted descending (get_or (lookup asset r.bids) []) in
      let asks = sorted ascending (get_or (lookup asset r.asks) []) in
      let has_snapshot = get_or (lookup asset r.has_snapshot) false in
      let state : BookState = record {
        asset_id = asset;
        market_id = get_or (lookup asset r.market_ids) none;
        bids = bids;
        asks = asks;
        source_ts = source_ts;
        receive_ts = receive_ts;
        quality = quality_of has_snapshot bids asks source_ts;
        has_snapshot = has_snapshot;
        message_count = get_or (lookup asset r.message_counts) 0;
        last_hash = text_of provider_hash;
        sequence_status = no_sequence_available;
      } in
      (record r { states = insert asset state r.states }, state)

  unfoldable pub count_message : String → Reducer → Reducer
  count_message asset r = record r {
    message_counts = insert asset (get_or (lookup asset r.message_counts) 0 + 1) r.message_counts;
  }

  unfoldable pub invalidate : String → Reducer → Reducer
  invalidate asset r = record r { has_snapshot = insert asset false r.has_snapshot }

  abbrev pub is_bid_side : String → Bool
  is_bid_side s = s == "buy" || s == "bid" || s == "bids"

  abbrev pub is_ask_side : String → Bool
  is_ask_side s = s == "sell" || s == "ask" || s == "asks"

  -- The part of `_apply_level` behind the two conversions.
  unfoldable pub write_level : String → String → Float → Float → Reducer → Option Reducer
  write_level asset side price size r =
      if is_bid_side side
      then (lookup asset r.bids >>= λ book.
          some (record r { bids = insert asset (set_level price size book) r.bids }))
      else if is_ask_side side
      then (lookup asset r.asks >>= λ book.
          some (record r { asks = insert asset (set_level price size book) r.asks }))
      else some r

  abbrev write_parsed : String → String → Option Float → Option Float → Reducer → Option Reducer
  write_parsed asset side (some price) (some size) r = write_level asset side price size r
  write_parsed asset side _ _ r = some r

  -- `data.get("changes") or data.get("price_changes")`, and a flat message as its own change.
  unfoldable pub raw_changes : PriceChange → List Change
  raw_changes message =
      let listed =
        if is_empty (get_or message.changes []) then message.price_changes else message.changes in
      elim listed [
        | some cs ↦ cs
        | none ↦ elim message.price [
          | null ↦ []
          | _ ↦ change message.asset_id message.side message.price message.size ∷ []
        ]
      ]

  abbrev add_change : Option String → Change → Dict String (List Change) → Dict String (List Change)
  add_change none c groups = groups
  add_change (some asset) c groups =
      if is_text (some asset)
      then insert asset (get_or (lookup asset groups) [] ++ c ∷ []) groups
      else groups

  abbrev change_asset : Option String → Change → Option String
  change_asset default_asset (change asset _ _ _) = or_str asset default_asset
  change_asset default_asset not_mapping = none

  -- The loop that fills `changes_by_asset`.
  unfoldable pub group_changes :
      Option String → List Change → Dict String (List Change) → Dict String (List Change)
  group_changes default_asset [] groups = groups
  group_changes default_asset (c ∷ cs) groups =
      group_changes default_asset cs (add_change (change_asset default_asset c) c groups)

  -- The count and the market of a touched asset.
  unfoldable pub touch : String → Option String → Reducer → Reducer
  touch asset market r =
      let r' = count_message asset r in
      if is_text market && not (is_some (lookup asset r.market_ids))
      then record r' { market_ids = insert asset market r'.market_ids }
      else r'

  abbrev set_default : String → Dict String Levels → Dict String Levels
  set_default asset d = if is_some (lookup asset d) then d else insert asset [] d

  module _ ⦃rt : Runtime⦄ where
    -- The body of `apply_snapshot` once the asset is known.
    unfoldable pub load_snapshot :
        String → Snapshot → Time → Option String → Reducer → Reducer × BookState
    load_snapshot asset message receive_ts market_id r =
        finalize asset (parse_provider_timestamp message.timestamp) receive_ts message.provider_hash
          (count_message asset (record r {
            bids = insert asset (normalize_levels message.bids) r.bids;
            asks = insert asset (normalize_levels message.asks) r.asks;
            has_snapshot = insert asset true r.has_snapshot;
            market_ids =
                insert asset
                  (or_str market_id
                    (or_str message.market (get_or (lookup asset r.market_ids) none)))
                  r.market_ids;
          }))

    abbrev load_named :
        Option String → Snapshot → Time → Option String → Reducer → Reducer × Option BookState
    load_named none message receive_ts market_id r = (r, none)
    load_named (some asset) message receive_ts market_id r =
        if is_text (some asset)
        then (let (r', state) = load_snapshot asset message receive_ts market_id r in
            (r', some state))
        else (r, none)

    -- `now` is what `datetime.utcnow()` would answer.
    unfoldable pub apply_snapshot :
        Snapshot
        → (now : Time) (receive_ts : Option Time) (asset_id market_id : Option String) → Reducer
        → Reducer × Option BookState
    apply_snapshot message now receive_ts asset_id market_id r =
        load_named (or_str asset_id message.asset_id) message (get_or receive_ts now) market_id r

    unfoldable pub apply_level : String → Change → Reducer → Option Reducer
    apply_level asset (change _ side price size) r =
        write_parsed asset (rt.lower (rt.strip side)) (to_float price) (to_float size) r
    apply_level asset not_mapping r = some r

    unfoldable pub apply_levels : String → List Change → Reducer → Option Reducer
    apply_levels asset [] r = some r
    apply_levels asset (c ∷ cs) r = apply_level asset c r >>= apply_levels asset cs

    -- One round of the loop over `changes_by_asset`.
    unfoldable pub change_asset_book :
        PriceChange → Time → String → List Change → Reducer → Option (Reducer × BookState)
    change_asset_book message receive_ts asset changes r =
        let r' = touch asset message.market r in
        let source_ts = parse_provider_timestamp message.timestamp in
        if get_or (lookup asset r'.has_snapshot) false
        then (apply_levels asset changes r' >>= λ r''.
            some (finalize asset source_ts receive_ts message.provider_hash r''))
        else some (
            finalize asset source_ts receive_ts message.provider_hash
              (record r' { bids = set_default asset r'.bids; asks = set_default asset r'.asks }))

    unfoldable pub change_books :
        PriceChange → Time → Dict String (List Change) → Reducer → Option (Reducer × List BookState)
    change_books message receive_ts [] r = some (r, [])
    change_books message receive_ts ((asset, changes) ∷ groups) r =
        change_asset_book message receive_ts asset changes r >>= λ (r', state).
        change_books message receive_ts groups r' >>= λ (r'', states). some (r'', state ∷ states)

    unfoldable pub apply_price_change :
        PriceChange
        → (now : Time) (receive_ts : Option Time) → Reducer
        → Option (Reducer × List BookState)
    apply_price_change message now receive_ts r =
        change_books message (get_or receive_ts now)
          (group_changes message.asset_id (raw_changes message) []) r
