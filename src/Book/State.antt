-- ===== src/Book/State.antt =====
-- The published state of one asset's book (libs/polymarket/book_state.py): `BookState`, its
-- properties, and the quality that `_finalize` gives it. `book_hash` (SHA-256 of JSON) is left out.
use poly_bob.Base.{
  ℕ, Bool, false, not, Option, some, none, if◌then◌else◌, String, [], ◌∷◌, nat_eq, string_eq,
  is_some,
}
use poly_bob.Base.Float.{Floats, Float, ◌≤f◌}
use poly_bob.Book.Values.{Time}
use poly_bob.Book.Levels.{Levels}

pub data Quality : Type 0 where
  ok stale degraded no_timestamp : Quality

-- `SEQUENCE_UNAVAILABLE` is the only status there is.
pub data SequenceStatus : Type 0 where
  no_sequence_available : SequenceStatus

module _ ⦃fl : Floats⦄ where
  pub record BookState : Type 0 where
    pub asset_id : String
    pub market_id : Option String
    pub bids : Levels
    pub asks : Levels
    pub source_ts : Option Time
    pub receive_ts : Time
    pub quality : Quality
    pub has_snapshot : Bool
    pub message_count : ℕ
    pub last_hash : Option String
    pub sequence_status : SequenceStatus

  abbrev pub first : Levels → Option (Float × Float)
  first [] = none
  first (l ∷ ls) = some l

  unfoldable pub best_bid : BookState → Option (Float × Float)
  best_bid s = first s.bids

  unfoldable pub best_ask : BookState → Option (Float × Float)
  best_ask s = first s.asks

  unfoldable pub is_crossed_levels : Levels → Levels → Bool
  is_crossed_levels [] asks = false
  is_crossed_levels (b ∷ bids) [] = false
  is_crossed_levels (b ∷ bids) (a ∷ asks) = a.0 ≤f b.0

  unfoldable pub is_crossed : BookState → Bool
  is_crossed s = is_crossed_levels s.bids s.asks

  -- The ladder of `_finalize`.
  unfoldable pub quality_of : Bool → Levels → Levels → Option Time → Quality
  quality_of has_snapshot bids asks source_ts =
      if not has_snapshot
      then stale
      else if is_crossed_levels bids asks
      then degraded
      else if is_some source_ts
      then ok
      else no_timestamp
