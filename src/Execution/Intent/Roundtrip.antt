-- ===== src/Execution/Intent/Roundtrip.antt =====
-- What `restore_state` brings back after any calls of the intent service.
use poly_bob.Base.{
  ℕ, ◌≡◌, refl, sym, ◌∙◌, inl, inr, Bool, true, Option, some, none, arith, String, List, [], ◌∷◌,
  nat_eq, string_eq, Bool-cases, Option-cases, found, is_text,
}
use poly_bob.Base.Dict.{lookup, IsUnique, insert-IsUnique}
use poly_bob.Base.Float.{Floats}
use poly_bob.Promotion.Registry.{PromotionRecord}
use poly_bob.Execution.Intent.{
  Formats, TradeIntent, IntentStatus, IntentError, IntentService, IntentRequest, create_intent,
  require_promoted,
}
use poly_bob.Store.Intents.{IntentRow, list_all}
use poly_bob.Store.IntentLaws.{lookup-list_all}
use poly_bob.Execution.Intent.Restore.{
  Table, restore_row, restore_rows, restore_state, Desk, create_stored, submit_stored,
}
use poly_bob.Execution.Intent.Mirror.{
  nothing, view_of, view_row, view_of-restore_rows, Mirrors, quiet,
}
use poly_bob.Execution.Intent.Durable.{submit_stored-Mirrors}
use poly_bob.Execution.Intent.Created.{create_allowed-Mirrors}

module _ ⦃fl : Floats⦄ {P : Type 0} (dump : TradeIntent → P)
    (validate : P → Option TradeIntent) where
  -- A service as it is made.
  pub record IsFresh (s : IntentService) : Type 0 where
    pub no_view : (id : String) → view_of id s ≡ nothing
    pub no_errors : s.intent_errors ≡ []
    pub no_effects : s.effects ≡ []

  restore_rows-effects :
      (rows : Table dump validate) (s : IntentService)
      → (restore_rows dump validate rows s).effects ≡ s.effects
  unfolding restore_rows
  restore_rows-effects [] s = refl
  restore_rows-effects ((id, row) ∷ rows) s =
      ground (arith, restore_rows-effects rows (restore_row dump validate id row s))

  restore_row-IsUnique :
      (id : String) (row : IntentRow P IntentStatus IntentError) (s : IntentService)
      → IsUnique s.intent_errors
      → IsUnique (restore_row dump validate id row s).intent_errors
  restore_row-IsUnique id row s u = elim (Option-cases (validate row.payload)) [
    | inl bad ↦ rw (bad, restore_row) u
    | inr (i, good) ↦ elim (Option-cases row.error) [
      | inl fine ↦ ground (arith, u)
      | inr (e, failed) ↦ ground (arith, u, insert-IsUnique id e s.intent_errors u)
    ]
  ]

  restore_rows-IsUnique :
      (rows : Table dump validate) (s : IntentService)
      → IsUnique s.intent_errors
      → IsUnique (restore_rows dump validate rows s).intent_errors
  unfolding restore_rows
  restore_rows-IsUnique [] s u = u
  restore_rows-IsUnique ((id, row) ∷ rows) s u =
      restore_rows-IsUnique rows (restore_row dump validate id row s)
        (restore_row-IsUnique id row s u)

  restore_state-view_of :
      (rows : Table dump validate) (s : IntentService) (id : String)
      → IsUnique rows
      → IsFresh s
      → view_of id (restore_state dump validate rows s) ≡ view_row dump validate (lookup id rows)
  unfolding restore_state
  restore_state-view_of rows s id u f =
      let (found, unique) = lookup-list_all id rows u in
      ground (
        arith,
        found,
        view_of-restore_rows dump validate (list_all rows) s id unique (λ k h. f.no_view k),
        f.no_view id,
      )

  module _ (inverse : (i : TradeIntent) → validate (dump i) ≡ some i)
      (require_strategy_promotion : Bool) (day_of : String → Option ℕ) (today : ℕ)
      (registry : List PromotionRecord) (fm : Formats) where
    -- A call that draws an id which no row has, or a basket's id that is not empty; every write takes
    -- place. A restart makes a new service and restores it.
    pub data DeskCall : Desk dump validate → Desk dump validate → Type 0 where
      call_create :
          (now : ℕ) (id : String) (q : IntentRequest) (d : Desk dump validate)
          → lookup id d.rows ≡ none
          → DeskCall d (
              create_stored dump validate require_strategy_promotion day_of today registry fm now id
                q d)
      call_submit :
          (now : ℕ) (id basket_id : String) (d : Desk dump validate)
          → is_text (some basket_id) ≡ true
          → DeskCall d (
              submit_stored dump validate require_strategy_promotion day_of today registry fm now id
                basket_id d)
      restart :
          (s : IntentService) (d : Desk dump validate)
          → IsFresh s
          → DeskCall d (record d { service = restore_state dump validate d.rows s })

    pub data DeskReached : Desk dump validate → Type 0 where
      opened : (s : IntentService) → IsFresh s → DeskReached (record { service = s; rows = [] })
      called : (d d' : Desk dump validate) → DeskReached d → DeskCall d d' → DeskReached d'

    DeskCall-Mirrors :
        (d d' : Desk dump validate)
        → DeskCall d d'
        → Mirrors dump validate d
        → Mirrors dump validate d'
    unfolding create_stored create_intent submit_stored restore_state
    DeskCall-Mirrors _ _ (call_create now id q d fresh) m =
        elim (Bool-cases
          (require_promoted require_strategy_promotion day_of today registry q.strategy_id)) [
            | inl may ↦ rw may (create_allowed-Mirrors dump validate inverse fm now id q d m fresh)
            | inr blocked ↦
                rw blocked (quiet dump validate now d d.service m m.written refl (λ j. refl))
          ]
    DeskCall-Mirrors _ _ (call_submit now id basket_id d text) m =
        submit_stored-Mirrors dump validate fm now id basket_id d m text
    DeskCall-Mirrors _ _ (restart s d f) m = record {
      each = λ id. restore_state-view_of d.rows s id m.unique f;
      valid = m.valid;
      unique = m.unique;
      unique_errors = restore_rows-IsUnique (list_all d.rows) s (rw f.no_errors tt);
      written = restore_rows-effects (list_all d.rows) s ∙ f.no_effects;
    }

    DeskReached-Mirrors : (d : Desk dump validate) → DeskReached d → Mirrors dump validate d
    unfolding lookup
    DeskReached-Mirrors _ (opened s f) = record {
      each = f.no_view;
      valid = λ id row h. ground (arith);
      unique = tt;
      unique_errors = rw f.no_errors tt;
      written = f.no_effects;
    }
    DeskReached-Mirrors _ (called d d' r c) = DeskCall-Mirrors d d' c (DeskReached-Mirrors d r)

    -- A service and its repository start empty, and any intents are created and submitted, with restarts
    -- in between; each drawn intent id is new to the table, each drawn basket id is not empty, no read or
    -- write of the repository fails, and validating a dumped intent gives it back. Then restoring a new
    -- service from the repository gives for every id the same intent, status, basket and error as the
    -- service had.
    pub restore_state_roundtrip :
        (d : Desk dump validate) (s : IntentService) (id : String)
        → DeskReached d
        → IsFresh s
        → view_of id (restore_state dump validate d.rows s) ≡ view_of id d.service
    restore_state_roundtrip d s id r f =
        let m = DeskReached-Mirrors d r in
        restore_state-view_of d.rows s id m.unique f ∙ sym (m.each id)
