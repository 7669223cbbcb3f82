-- ===== src/Book/Reducer/Valid.antt =====
-- The invariant of the reducer: every book holds each price once with a positive size, and an asset
-- with a snapshot has both books. Each operation keeps it, and none raises KeyError.
use poly_bob.Base.{
  ◌≡◌, refl, ◌∙◌, inl, inr, Bool, true, false, not, ◌&&◌, Option, some, none, arith, String, List,
  [], ◌∷◌, map, ◌==◌, nat_eq, string_eq, get_or, is_some, Bool-cases, found, or_str, is_text,
}
use poly_bob.Base.Dict.{Dict, lookup, insert, lookup-insert}
use poly_bob.Base.Float.{Floats, Float}
use poly_bob.Book.Values.{Time, Raw, Runtime, to_float}
use poly_bob.Book.Levels.{Levels, normalize_levels}
use poly_bob.Book.Levels.Merge.{IsBook, normalize_levels-IsBook, set_level-IsBook}
use poly_bob.Book.Reducer.{
  Reducer, empty, Snapshot, Change, change, not_mapping, PriceChange, finalize, count_message,
  invalidate, load_snapshot, load_named, apply_snapshot, write_level, write_parsed, apply_level,
  apply_levels, touch, set_default, change_asset_book, change_books, apply_price_change,
  group_changes, raw_changes, is_bid_side, is_ask_side,
}

module _ ⦃fl : Floats⦄ where
  abbrev pub AllBooks : Dict String Levels → Type 0
  AllBooks d = (asset : String) (book : Levels) → lookup asset d ≡ some book → IsBook book

  AllBooks-insert :
      (asset : String) (book : Levels) (d : Dict String Levels)
      → IsBook book
      → AllBooks d
      → AllBooks (insert asset book d)
  AllBooks-insert asset book d h k a b e = elim (Bool-cases (asset == a)) [
    | inl same ↦
        let e' : some book ≡ some b = ground (arith, lookup-insert asset a book d) in
        let e'' : book ≡ b = cc in rw (← e'') h
    | inr other ↦ k a b (ground (arith, lookup-insert asset a book d))
  ]

  AllBooks-set_default :
      (asset : String) (d : Dict String Levels) → AllBooks d → AllBooks (set_default asset d)
  AllBooks-set_default asset d k = elim (Bool-cases (is_some (lookup asset d))) [
    | inl there ↦ rw there k
    | inr absent ↦ rw absent (AllBooks-insert asset [] d (tt, tt) k)
  ]

  pub record IsValid (r : Reducer) : Type 0 where
    pub bids_ok : AllBooks r.bids
    pub asks_ok : AllBooks r.asks
    pub based :
        (asset : String)
        → lookup asset r.has_snapshot ≡ some true
        → (is_some (lookup asset r.bids) ≡ true) × (is_some (lookup asset r.asks) ≡ true)

  pub empty-IsValid : IsValid empty
  unfolding lookup
  empty-IsValid = record { bids_ok = λ a b e. cc; asks_ok = λ a b e. cc; based = λ a e. cc }

  stays :
      (k j : String) (b : Levels) (d : Dict String Levels)
      → is_some (lookup j d) ≡ true
      → is_some (lookup j (insert k b d)) ≡ true
  stays k j b d h = ground (arith, lookup-insert k j b d)

  pub finalize-IsValid :
      (asset : String) (s : Option Time) (t : Time) (h : Raw) {r : Reducer}
      → IsValid r
      → IsValid (finalize asset s t h r).0
  unfolding finalize
  finalize-IsValid asset s t h v = record {
    bids_ok = v.bids_ok;
    asks_ok = v.asks_ok;
    based = v.based;
  }

  finalize_asset :
      (asset : String) (s : Option Time) (t : Time) (h : Raw) (r : Reducer)
      → (finalize asset s t h r).1.asset_id ≡ asset
  unfolding finalize
  finalize_asset asset s t h r = refl

  -- Dropping the snapshot of an asset keeps the invariant.
  pub invalidate-IsValid : (asset : String) {r : Reducer} → IsValid r → IsValid (invalidate asset r)
  unfolding invalidate
  invalidate-IsValid asset {r} v = record {
    bids_ok = v.bids_ok;
    asks_ok = v.asks_ok;
    based = λ a e. v.based a (ground (arith, lookup-insert asset a false r.has_snapshot));
  }

  pub touch-IsValid :
      (asset : String) (m : Option String) {r : Reducer} → IsValid r → IsValid (touch asset m r)
  unfolding touch count_message
  touch-IsValid asset m {r} v =
      elim (Bool-cases (is_text m && not (is_some (lookup asset r.market_ids)))) [
        | inl e ↦ rw e (record { bids_ok = v.bids_ok; asks_ok = v.asks_ok; based = v.based })
        | inr e ↦ rw e (record { bids_ok = v.bids_ok; asks_ok = v.asks_ok; based = v.based })
      ]

  -- What `_apply_level` does to a reducer in which the asset has a snapshot.
  abbrev pub Keeps : Reducer → Option Reducer → Type 0
  Keeps r o =
      (r' : Reducer) × (o ≡ some r')
      × IsValid r'
      × (r'.has_snapshot ≡ r.has_snapshot)
      × (r'.message_counts ≡ r.message_counts)

  set_bids-IsValid :
      (asset : String) (b : Levels) {r : Reducer}
      → IsValid r
      → IsBook b
      → IsValid (record r { bids = insert asset b r.bids })
  set_bids-IsValid asset b {r} v h = record {
    bids_ok = AllBooks-insert asset b r.bids h v.bids_ok;
    asks_ok = v.asks_ok;
    based = λ a e. (stays asset a b r.bids (v.based a e).0, (v.based a e).1);
  }

  set_asks-IsValid :
      (asset : String) (b : Levels) {r : Reducer}
      → IsValid r
      → IsBook b
      → IsValid (record r { asks = insert asset b r.asks })
  set_asks-IsValid asset b {r} v h = record {
    bids_ok = v.bids_ok;
    asks_ok = AllBooks-insert asset b r.asks h v.asks_ok;
    based = λ a e. ((v.based a e).0, stays asset a b r.asks (v.based a e).1);
  }

  get_or-true : (o : Option Bool) → get_or o false ≡ true → o ≡ some true
  get_or-true none h = cc
  get_or-true (some b) h = cc

  write_level-Keeps :
      (asset side : String) (p s : Float) (r : Reducer)
      → IsValid r
      → lookup asset r.has_snapshot ≡ some true
      → Keeps r (write_level asset side p s r)
  unfolding write_level
  write_level-Keeps asset side p s r v h =
      let (b, eb) = found (lookup asset r.bids) (v.based asset h).0 in
      let (a, ea) = found (lookup asset r.asks) (v.based asset h).1 in
      elim (Bool-cases (is_bid_side side)) [
        | inl bid ↦
            rw (bid, eb)
              (
                _,
                refl,
                set_bids-IsValid asset _ v (set_level-IsBook p s b (v.bids_ok asset b eb)),
                refl,
                refl,
              )
        | inr not_bid ↦ elim (Bool-cases (is_ask_side side)) [
          | inl ask ↦
              rw (not_bid, ask, ea)
                (
                  _,
                  refl,
                  set_asks-IsValid asset _ v (set_level-IsBook p s a (v.asks_ok asset a ea)),
                  refl,
                  refl,
                )
          | inr not_ask ↦ rw (not_bid, not_ask) (r, refl, v, refl, refl)
        ]
      ]

  write_parsed-Keeps :
      (asset side : String) (p s : Option Float) (r : Reducer)
      → IsValid r
      → lookup asset r.has_snapshot ≡ some true
      → Keeps r (write_parsed asset side p s r)
  write_parsed-Keeps asset side (some p) (some s) r v h = write_level-Keeps asset side p s r v h
  write_parsed-Keeps asset side (some p) none r v h = (r, refl, v, refl, refl)
  write_parsed-Keeps asset side none s r v h = (r, refl, v, refl, refl)

  set_defaults-IsValid :
      (asset : String) {r : Reducer}
      → IsValid r
      → IsValid (record r { bids = set_default asset r.bids; asks = set_default asset r.asks })
  set_defaults-IsValid asset {r} v = record {
    bids_ok = AllBooks-set_default asset r.bids v.bids_ok;
    asks_ok = AllBooks-set_default asset r.asks v.asks_ok;
    based = λ a e. (keeps a r.bids (v.based a e).0, keeps a r.asks (v.based a e).1);
  }
    where
      keeps :
          (a : String) (d : Dict String Levels)
          → is_some (lookup a d) ≡ true
          → is_some (lookup a (set_default asset d)) ≡ true
      keeps a d h = ground (arith, stays asset a [] d h)

  module _ ⦃rt : Runtime⦄ where
    load_snapshot-IsValid :
        (asset : String) (m : Snapshot) (t : Time) (id : Option String) (r : Reducer)
        → IsValid r
        → IsValid (load_snapshot asset m t id r).0
    unfolding load_snapshot finalize count_message
    load_snapshot-IsValid asset m t id r v = record {
      bids_ok = AllBooks-insert asset _ r.bids (normalize_levels-IsBook m.bids) v.bids_ok;
      asks_ok = AllBooks-insert asset _ r.asks (normalize_levels-IsBook m.asks) v.asks_ok;
      based = λ a e. ground (
        arith,
        lookup-insert asset a true r.has_snapshot,
        lookup-insert asset a (normalize_levels m.bids) r.bids,
        lookup-insert asset a (normalize_levels m.asks) r.asks,
        v.based a,
      );
    }

    load_named-IsValid :
        (a : Option String) (m : Snapshot) (t : Time) (id : Option String) (r : Reducer)
        → IsValid r
        → IsValid (load_named a m t id r).0
    load_named-IsValid none m t id r v = v
    load_named-IsValid (some a) m t id r v = elim (Bool-cases (is_text (some a))) [
      | inl e ↦ rw e (load_snapshot-IsValid a m t id r v)
      | inr e ↦ rw e v
    ]

    -- A snapshot message, whatever it holds, leaves a valid reducer valid.
    pub apply_snapshot-IsValid :
        (m : Snapshot) (now : Time) (t : Option Time) (a id : Option String) {r : Reducer}
        → IsValid r
        → IsValid (apply_snapshot m now t a id r).0
    unfolding apply_snapshot
    apply_snapshot-IsValid m now t a id {r} v =
        load_named-IsValid (or_str a m.asset_id) m (get_or t now) id r v

    apply_level-Keeps :
        (asset : String) (c : Change) (r : Reducer)
        → IsValid r
        → lookup asset r.has_snapshot ≡ some true
        → Keeps r (apply_level asset c r)
    unfolding apply_level
    apply_level-Keeps asset (change _ side p s) r v h =
        write_parsed-Keeps asset (rt.lower (rt.strip side)) (to_float p) (to_float s) r v h
    apply_level-Keeps asset not_mapping r v h = (r, refl, v, refl, refl)

    pub apply_levels-Keeps :
        (asset : String) (cs : List Change) (r : Reducer)
        → IsValid r
        → lookup asset r.has_snapshot ≡ some true
        → Keeps r (apply_levels asset cs r)
    unfolding apply_levels
    apply_levels-Keeps asset [] r v h = (r, refl, v, refl, refl)
    apply_levels-Keeps asset (c ∷ cs) r v h =
        let (r1, e1, v1, s1, n1) = apply_level-Keeps asset c r v h in
        let (r2, e2, v2, s2, n2) = apply_levels-Keeps asset cs r1 v1 (rw s1 h) in
        (r2, rw e1 e2, v2, s2 ∙ s1, n2 ∙ n1)

    -- The call answers and leaves a valid reducer.
    abbrev pub Answers {ℓ} : {A : Type ℓ} → Option (Reducer × A) → (A → Type 0) → Type ℓ
    Answers {A} o Q = (r' : Reducer) × (a : A) × (o ≡ some (r', a)) × IsValid r' × Q a

    change_asset_book-Answers :
        (m : PriceChange) (t : Time) (asset : String) (cs : List Change) (r : Reducer)
        → IsValid r
        → Answers (change_asset_book m t asset cs r) (λ state. state.asset_id ≡ asset)
    unfolding change_asset_book
    change_asset_book-Answers m t asset cs r v =
        let r1 = touch asset m.market r in
        let v1 : IsValid r1 = touch-IsValid asset m.market v in
        elim (Bool-cases (get_or (lookup asset r1.has_snapshot) false)) [
          | inl held ↦
              let (r2, e2, v2, _, _) = apply_levels-Keeps asset cs r1 v1 (get_or-true _ held) in
              rw (held, e2)
                (
                  _,
                  _,
                  refl,
                  finalize-IsValid asset _ t m.provider_hash v2,
                  finalize_asset asset _ t m.provider_hash r2,
                )
          | inr unheld ↦ rw unheld (
            _,
            _,
            refl,
            finalize-IsValid asset _ t m.provider_hash (set_defaults-IsValid asset v1),
            finalize_asset asset _ t m.provider_hash _,
          )
        ]

    change_books-Answers :
        (m : PriceChange) (t : Time) (groups : Dict String (List Change)) (r : Reducer)
        → IsValid r
        → Answers
            (change_books m t groups r)
            (λ states. map (λ s. s.asset_id) states ≡ map (λ g. g.0) groups)
    unfolding change_books
    change_books-Answers m t [] r v = (r, [], refl, v, refl)
    change_books-Answers m t ((asset, cs) ∷ groups) r v =
        let (r1, s1, e1, v1, n1) = change_asset_book-Answers m t asset cs r v in
        let (r2, s2, e2, v2, n2) = change_books-Answers m t groups r1 v1 in
        rw (e1, e2) (r2, s1 ∷ s2, refl, v2, cc)

    pub apply_price_change-Answers :
        (m : PriceChange) (now : Time) (t : Option Time) (r : Reducer)
        → IsValid r
        → Answers (apply_price_change m now t r) (λ states.
          map (λ s. s.asset_id) states
          ≡ map (λ g. g.0) (group_changes m.asset_id (raw_changes m) []))
    unfolding apply_price_change
    apply_price_change-Answers m now t r v = change_books-Answers m (get_or t now) _ r v
