-- ===== src/Promotion/Gate.antt =====
-- The gate fails closed: who is promoted, and that the reason given agrees.
use poly_bob.Base.{
  ℕ, ◌≡◌, refl, ◌≢◌, ◌↔◌, inl, inr, true, false, ◌&&◌, Option, some, none, arith, String, List, [],
  ◌∷◌, map, ◌==◌, nat_eq, string_eq, get_or, All, any, keep, Bool-cases,
}
use poly_bob.Base.Float.{Floats}
use mathlib.Core.List.{Memᴰ}
use poly_bob.Promotion.Registry.{
  Role, trade, avoid, unlabelled, PromotionRecord, Row, record_of, role_of, reload,
  evidence_expired, tradable, is_trade, fits, is_promoted, promoted, matching, reason_of,
  reason_blocked, last_reasons,
}

module _ ⦃fl : Floats⦄ (day_of : String → Option ℕ) (today : ℕ) where
  -- A row that permits a trade: approved, labelled for trading, not stale, and on what is asked for.
  pub record Permits (strategy : String) (instrument : Option String) (r : PromotionRecord)
      : Type 0 where
    pub same_strategy : r.strategy ≡ strategy
    pub is_approved : r.approved ≡ true
    pub for_trade : r.role ≡ trade
    pub fresh : evidence_expired day_of today r ≡ false
    pub fitting : fits instrument r ≡ true

  role_trade : (r : Role) → is_trade r ≡ true → r ≡ trade
  role_trade trade h = refl
  role_trade avoid h = cc
  role_trade (unlabelled s) h = cc

  permits :
      (s : String) (i : Option String) (r : PromotionRecord)
      → (r.strategy == s) ≡ true
      → tradable day_of today r ≡ true
      → fits i r ≡ true
      → Permits s i r
  unfolding tradable
  permits s i r hs ht hf = record {
    same_strategy = (string_eq.beq_iff r.strategy s).0 hs;
    is_approved = ground arith;
    for_trade = role_trade r.role (ground arith);
    fresh = ground arith;
    fitting = hf;
  }

  Permits-tradable :
      (s : String) (i : Option String) (r : PromotionRecord)
      → Permits s i r
      → tradable day_of today r ≡ true
  unfolding tradable
  Permits-tradable s i r p = ground (arith, p.is_approved, p.for_trade, p.fresh)

  promoted-Permits :
      (s : String) (i : Option String) (records : List PromotionRecord)
      → is_promoted day_of today s i records ≡ true
      → (r : PromotionRecord) × Memᴰ r records × Permits s i r
  unfolding is_promoted
  promoted-Permits s i [] h = cc
  promoted-Permits s i (r ∷ records) h = elim (Bool-cases (is_promoted day_of today s i records)) [
    | inl later ↦ let (q, m, p) = promoted-Permits s i records later in (q, Memᴰ.tail m, p)
    | inr not_later ↦
        (r, Memᴰ.head refl, permits s i r (ground arith) (ground arith) (ground arith))
  ]

  Permits-promoted :
      (s : String) (i : Option String) (records : List PromotionRecord) (r : PromotionRecord)
      → Memᴰ r records
      → Permits s i r
      → is_promoted day_of today s i records ≡ true
  unfolding is_promoted
  Permits-promoted s i [] r m p = elim m [ ]
  Permits-promoted s i (x ∷ records) r (Memᴰ.head e) p =
      let t = Permits-tradable s i r p in
      let same = (string_eq.beq_iff r.strategy s).1 p.same_strategy in
      rw (← e) (ground (arith, p.fitting))
  Permits-promoted s i (x ∷ records) r (Memᴰ.tail m) p =
      ground (arith, Permits-promoted s i records r m p)

  -- A strategy is promoted exactly if some record permits it: one that is approved, labelled for
  -- trading, inside its shelf life, and on the instrument that was asked for.
  pub is_promoted_iff :
      (s : String) (i : Option String) (records : List PromotionRecord)
      → (is_promoted day_of today s i records ≡ true)
        ↔ ((r : PromotionRecord) × Memᴰ r records × Permits s i r)
  is_promoted_iff s i records =
      (promoted-Permits s i records, λ (r, m, p). Permits-promoted s i records r m p)

  -- A board whose rows all lack the label for trading promotes nothing.
  abbrev Unlabelled : List Row → Type 0
  Unlabelled rows = All (λ (row : Row). get_or row.role "" ≢ "trade") rows

  role_of_trade : (s : String) → s ≢ "trade" → is_trade (role_of s) ≡ false
  unfolding role_of
  role_of_trade s h = ground (arith, string_eq.beq_iff s "trade")

  Unlabelled-false :
      (s : String) (i : Option String) (rows : List Row)
      → Unlabelled rows
      → is_promoted day_of today s i (map record_of rows) ≡ false
  unfolding is_promoted tradable record_of
  Unlabelled-false s i [] h = refl
  Unlabelled-false s i (row ∷ rows) h =
      let no_trade = role_of_trade (get_or row.role "") h.0 in
      let rest = Unlabelled-false s i rows h.1 in ground arith

  -- A board that cannot be read, and a board on which no row is labelled for trading, promote no
  -- strategy on any instrument, whatever else the rows say.
  pub reload_fails_closed :
      (s : String) (i : Option String) (rows : List Row)
      → All (λ (row : Row). get_or row.role "" ≢ "trade") rows
      → (is_promoted day_of today s i (reload none) ≡ false)
        × (is_promoted day_of today s i (reload (some rows)) ≡ false)
  unfolding reload is_promoted
  reload_fails_closed s i rows h = (refl, Unlabelled-false s i rows h)

  any_promoted :
      (s : String) (i : Option String) (records : List PromotionRecord)
      → any (tradable day_of today) (matching s i records) ≡ is_promoted day_of today s i records
  unfolding is_promoted
  any_promoted s i [] = refl
  any_promoted s i (r ∷ records) = ground (arith, any_promoted s i records)

  last_not_promoted : (a b : List PromotionRecord) → last_reasons a b ≢ promoted
  last_not_promoted [] b = λ e. cc
  last_not_promoted (r ∷ a) b = λ e. cc

  reason_of_iff :
      (recs : List PromotionRecord)
      → (reason_of day_of today recs ≡ promoted) ↔ (any (tradable day_of today) recs ≡ true)
  unfolding reason_of
  reason_of_iff [] = ((λ h. cc), (λ h. cc))
  reason_of_iff (r ∷ recs) =
      let stays =
        last_not_promoted (keep (λ r. r.approved && evidence_expired day_of today r) (r ∷ recs))
          (r ∷ recs) in
      ((λ h. ground arith), (λ h. ground arith))

  -- The reason given for a block is "promoted" exactly when the strategy is promoted.
  pub reason_blocked_iff :
      (s : String) (i : Option String) (records : List PromotionRecord)
      → (reason_blocked day_of today s i records ≡ promoted)
        ↔ (is_promoted day_of today s i records ≡ true)
  unfolding reason_blocked
  reason_blocked_iff s i records =
      rw (← any_promoted s i records) (reason_of_iff (matching s i records))
