-- ===== src/Execution/Basket/Mirror.antt =====
-- The baskets of an executor over its repository, across calls and restarts
-- (modules/execution_engine/basket_executor.py).
use poly_bob.Base.{
  ℕ, ◌≡◌, refl, sym, ap, ◌∙◌, inl, inr, true, Option, some, none, arith, String, List, [], ◌∷◌,
  ◌==◌, nat_eq, string_eq, or_else, Bool-cases, Option-cases,
}
use poly_bob.Base.Dict.{Dict, lookup, insert, IsUnique, insert-IsUnique, lookup-insert}
use poly_bob.Base.Float.{Floats}
use poly_bob.Execution.Orders.{ContractExecutor}
use poly_bob.Execution.Basket.{
  Venue, OrderLeg, OrderBasket, Effect, saved, leg_saved, status_saved, leg_updated,
  basket_submitted,
}
use poly_bob.Execution.Basket.Submit.{submit_legs}
use poly_bob.Execution.Basket.{venue_eq}
use poly_bob.Store.Baskets.{update_leg}
use poly_bob.Execution.Basket.Restore.{Row, restore_legs, persist_effect, persist_effects}
use poly_bob.Store.Order.{lookup-order_by_created}
use poly_bob.Store.Baskets.{save_basket, update_basket, list_baskets}
use poly_bob.Execution.Basket.{LegRequest, BasketExecutor}
use poly_bob.Execution.Basket.Submit.{make_legs, submit_made, submit_basket}
use poly_bob.Execution.Basket.Cancel.{cancel_basket}
use poly_bob.Execution.Basket.Restore.{
  restore_basket, restore_baskets, restore_state, BasketDesk, submit_stored, cancel_stored,
}
use poly_bob.Execution.Basket.Written.{ValidatesLegs}
use poly_bob.Execution.Basket.Kept.{ValidatesBaskets, restored, Mirrors, cancel-Mirrors}
use poly_bob.Execution.Basket.Opened.{submit-Mirrors}

module _ ⦃fl : Floats⦄ where
  -- An executor at its start, over a repository.
  abbrev pub new_executor : Dict Venue ContractExecutor → BasketExecutor
  new_executor executors = record {
    executors = executors;
    has_repository = true;
    baskets = [];
    log = [];
  }

  submit-has_repository :
      (id parent : String) (requests : List LegRequest) (x : BasketExecutor)
      → (submit_basket id parent requests x).0.has_repository ≡ x.has_repository
  unfolding submit_basket
  submit-has_repository id parent requests x = elim (Option-cases (make_legs requests)) [
    | inl fails ↦ rw (fails, submit_basket) refl
    | inr (legs, made) ↦
        elim (Bool-cases (submit_legs id 0 x.has_repository legs x.executors).finished) [
          | inl ends ↦ rw (made, submit_basket, submit_made, ends) refl
          | inr breaks ↦ rw (made, submit_basket, submit_made, breaks) refl
        ]
  ]

  cancel-has_repository :
      (id : String) (x : BasketExecutor) → (cancel_basket id x).0.has_repository ≡ x.has_repository
  unfolding cancel_basket
  cancel-has_repository id x = elim (Option-cases (lookup id x.baskets)) [
    | inl absent ↦ rw (absent, cancel_basket) refl
    | inr (b, here) ↦ rw (here, cancel_basket) refl
  ]

module _ ⦃fl : Floats⦄ {P L : Type 0} (dump_basket : OrderBasket → P) (dump_leg : OrderLeg → L)
    (validate_basket : P → Option OrderBasket) (validate_leg : L → Option OrderLeg) where
  -- What calls and restarts make of an executor that starts on empty tables. The ids are new, as those
  -- of `uuid4`; a restart starts with any executors.
  pub data Reached : BasketDesk dump_basket dump_leg validate_basket validate_leg → Type 0 where
    begun :
        (executors : Dict Venue ContractExecutor)
        → Reached (record { executor = new_executor executors; rows = [] })
    submitting_one :
        (d : BasketDesk dump_basket dump_leg validate_basket validate_leg) (now : ℕ)
        (id parent : String) (requests : List LegRequest)
        → Reached d
        → lookup id d.rows ≡ none
        → Reached (
            submit_stored dump_basket dump_leg validate_basket validate_leg now id parent requests
              d)
    cancelling_one :
        (d : BasketDesk dump_basket dump_leg validate_basket validate_leg) (now : ℕ) (id : String)
        → Reached d
        → Reached (cancel_stored dump_basket dump_leg validate_basket validate_leg now id d)
    restarted :
        (d : BasketDesk dump_basket dump_leg validate_basket validate_leg)
        (executors : Dict Venue ContractExecutor)
        → Reached d
        → Reached (record {
          executor =
              restore_state dump_basket dump_leg validate_basket validate_leg d.rows
                (new_executor executors);
          rows = d.rows;
        })

  record IsMirrored (d : BasketDesk dump_basket dump_leg validate_basket validate_leg)
      : Type 0 where
    mirrors : Mirrors dump_basket dump_leg validate_basket validate_leg d.executor.baskets d.rows
    unique : IsUnique d.rows
    repository : d.executor.has_repository ≡ true
    empty_log : d.executor.log ≡ []

  persist_effect-IsUnique :
      (now : ℕ) (e : Effect)
      (rows : Dict String (Row dump_basket dump_leg validate_basket validate_leg))
      → IsUnique rows
      → IsUnique (persist_effect dump_basket dump_leg validate_basket validate_leg now e rows)
  unfolding persist_effect save_basket update_basket update_leg
  persist_effect-IsUnique now (saved b) rows u = insert-IsUnique b.basket_id _ rows u
  persist_effect-IsUnique now (leg_saved id index leg fill) rows u =
      elim (Option-cases (lookup id rows)) [
        | inl absent ↦ rw (absent, update_leg) u
        | inr (row, here) ↦ rw (here, update_leg) (insert-IsUnique id _ rows u)
      ]
  persist_effect-IsUnique now (status_saved id status) rows u =
      elim (Option-cases (lookup id rows)) [
        | inl absent ↦ rw (absent, update_basket) u
        | inr (row, here) ↦ rw (here, update_basket) (insert-IsUnique id _ rows u)
      ]
  persist_effect-IsUnique now (leg_updated _ _ _) rows u = u
  persist_effect-IsUnique now (basket_submitted _ _ _ _) rows u = u

  persist_effects-IsUnique :
      (now : ℕ) (es : List Effect)
      (rows : Dict String (Row dump_basket dump_leg validate_basket validate_leg))
      → IsUnique rows
      → IsUnique (persist_effects dump_basket dump_leg validate_basket validate_leg now es rows)
  unfolding persist_effects
  persist_effects-IsUnique now [] rows u = u
  persist_effects-IsUnique now (e ∷ es) rows u =
      persist_effects-IsUnique now es
        (persist_effect dump_basket dump_leg validate_basket validate_leg now e rows)
        (persist_effect-IsUnique now e rows u)

  lookup-restore_baskets :
      (j : String) (rows : Dict String (Row dump_basket dump_leg validate_basket validate_leg))
      (baskets : Dict String OrderBasket)
      → IsUnique rows
      → lookup j (restore_baskets dump_basket dump_leg validate_basket validate_leg rows baskets)
        ≡ or_else
            (restored dump_basket dump_leg validate_basket validate_leg (lookup j rows))
            (lookup j baskets)
  unfolding restore_baskets lookup
  lookup-restore_baskets j [] baskets u = refl
  lookup-restore_baskets j ((id, row) ∷ rows) baskets u =
      elim (Option-cases (validate_basket row.payload)) [
        | inl fails ↦ elim (Bool-cases (j == id)) [
          | inl here ↦
              let gone : lookup j rows ≡ none = ground (arith, u.0, string_eq.beq_iff j id) in
              rw
                (
                  fails,
                  here,
                  lookup-restore_baskets j rows baskets u.1,
                  gone,
                  restore_basket,
                  fails,
                )
                refl
          | inr apart ↦ rw (fails, apart) (lookup-restore_baskets j rows baskets u.1)
        ]
        | inr (b, reads) ↦
            let b' : OrderBasket = record b {
              status = row.status;
              legs = restore_legs dump_basket dump_leg validate_basket validate_leg b.legs row.legs;
            } in
            elim (Bool-cases (j == id)) [
              | inl here ↦
                  let gone : lookup j rows ≡ none = ground (arith, u.0, string_eq.beq_iff j id) in
                  rw
                    (
                      reads,
                      here,
                      lookup-restore_baskets j rows (insert id b' baskets) u.1,
                      gone,
                      restore_basket,
                      reads,
                    )
                    (ground (
                      arith,
                      lookup-insert id j b' baskets,
                      string_eq.beq_iff j id,
                      string_eq.beq_iff id j,
                    ))
              | inr apart ↦
                  let same : lookup j (insert id b' baskets) ≡ lookup j baskets = ground (
                    arith,
                    lookup-insert id j b' baskets,
                    string_eq.beq_iff j id,
                    string_eq.beq_iff id j,
                  ) in
                  rw (reads, apart)
                    (rw (← same) (lookup-restore_baskets j rows (insert id b' baskets) u.1))
            ]
      ]

  or_else-none : (o : Option OrderBasket) → or_else o none ≡ o
  or_else-none none = refl
  or_else-none (some b) = refl

  -- A restart finds the baskets of the tables.
  lookup-restore_state :
      (j : String) (rows : Dict String (Row dump_basket dump_leg validate_basket validate_leg))
      (executors : Dict Venue ContractExecutor)
      → IsUnique rows
      → lookup j
          (restore_state dump_basket dump_leg validate_basket validate_leg rows
            (new_executor executors)).baskets
        ≡ restored dump_basket dump_leg validate_basket validate_leg (lookup j rows)
  unfolding restore_state list_baskets lookup
  lookup-restore_state j rows executors u =
      let (same, u') = lookup-order_by_created (λ row. row.created_at) j rows u in
      lookup-restore_baskets j (list_baskets rows) [] u'
      ∙ or_else-none (
          restored dump_basket dump_leg validate_basket validate_leg (lookup j (list_baskets rows)))
      ∙ ap (λ o. restored dump_basket dump_leg validate_basket validate_leg o) same

  Reached-IsMirrored :
      ValidatesLegs dump_basket dump_leg validate_basket validate_leg
      → ValidatesBaskets dump_basket dump_leg validate_basket validate_leg
      → (d : BasketDesk dump_basket dump_leg validate_basket validate_leg) → Reached d
      → IsMirrored d
  unfolding lookup submit_stored cancel_stored restore_state
  Reached-IsMirrored valid whole _ (begun executors) = record {
    mirrors = λ j. (refl, refl);
    unique = tt;
    repository = refl;
    empty_log = refl;
  }
  Reached-IsMirrored valid whole _ (submitting_one d now id parent requests r fresh) =
      let m = Reached-IsMirrored valid whole d r in
      record {
        mirrors =
            submit-Mirrors dump_basket dump_leg validate_basket validate_leg valid whole id parent
              now requests d.executor d.rows m.repository m.empty_log fresh m.mirrors;
        unique =
            persist_effects-IsUnique now (submit_basket id parent requests d.executor).0.log d.rows
              m.unique;
        repository = submit-has_repository id parent requests d.executor ∙ m.repository;
        empty_log = refl;
      }
  Reached-IsMirrored valid whole _ (cancelling_one d now id r) =
      let m = Reached-IsMirrored valid whole d r in
      record {
        mirrors =
            cancel-Mirrors dump_basket dump_leg validate_basket validate_leg valid id now d.executor
              d.rows m.repository m.empty_log m.mirrors;
        unique = persist_effects-IsUnique now (cancel_basket id d.executor).0.log d.rows m.unique;
        repository = cancel-has_repository id d.executor ∙ m.repository;
        empty_log = refl;
      }
  Reached-IsMirrored valid whole _ (restarted d executors r) =
      let m = Reached-IsMirrored valid whole d r in
      record {
        mirrors = λ j. (lookup-restore_state j d.rows executors m.unique, (m.mirrors j).1);
        unique = m.unique;
        repository = refl;
        empty_log = refl;
      }

  -- Whatever calls and restarts came before, an executor that restarts on the tables has under each id
  -- the basket that the one before it had: its status and its legs, with their orders. No read or write
  -- of the tables fails. It is assumed that the JSON of a leg reads back just where its status is one of `OrderStatus`, that the JSON of a
  -- basket with new legs reads back, and that a new basket's id has no row.
  pub restore_basket_roundtrip :
      ValidatesLegs dump_basket dump_leg validate_basket validate_leg
      → ValidatesBaskets dump_basket dump_leg validate_basket validate_leg
      → (d : BasketDesk dump_basket dump_leg validate_basket validate_leg) → Reached d
      → (executors : Dict Venue ContractExecutor) → (j : String)
      → lookup j
          (restore_state dump_basket dump_leg validate_basket validate_leg d.rows
            (new_executor executors)).baskets
        ≡ lookup j d.executor.baskets
  restore_basket_roundtrip valid whole d r executors j =
      let m = Reached-IsMirrored valid whole d r in
      lookup-restore_state j d.rows executors m.unique ∙ sym (m.mirrors j).0
