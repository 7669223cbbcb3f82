-- ===== src/Execution/Basket/Kept.antt =====
-- `cancel_basket` over the repository, and what each row keeps of its basket
-- (modules/execution_engine/basket_executor.py).
use poly_bob.Base.{
  ℕ, ◌≡◌, refl, sym, ap, subst, ◌∙◌, inl, inr, Bool, true, Option, some, none, if◌then◌else◌, arith,
  String, List, [], ◌∷◌, ◌++◌, ◌==◌, nat_eq, string_eq, All, length, Bool-cases, Option-cases,
}
use poly_bob.Base.Dict.{Dict, lookup, insert, lookup-insert}
use poly_bob.Base.Float.{Floats}
use poly_bob.Execution.Basket.{LegStatus, OrderLeg, BasketStatus, OrderBasket, status_saved}
use poly_bob.Execution.Basket.Cancel.{cancel_legs}
use poly_bob.Execution.Basket.{venue_eq}
use poly_bob.Store.Baskets.{LegRow}
use poly_bob.Execution.Basket.Restore.{Row, restore_legs, persist_effect, persist_effects}
use poly_bob.Execution.Basket.Written.{
  IsPending, ValidatesLegs, LegsWritten, written_here, persist_effects-append,
}
use poly_bob.Execution.Basket.Withdrawn.{cancel_legs_written}
use poly_bob.Execution.Basket.Restore.{restore_basket}
use poly_bob.Execution.Basket.{all_cancelled, BasketExecutor}
use poly_bob.Execution.Basket.Cancel.{cancel_basket}
use poly_bob.Store.Baskets.{update_basket}

module _ ⦃fl : Floats⦄ {P L : Type 0} (dump_basket : OrderBasket → P) (dump_leg : OrderLeg → L)
    (validate_basket : P → Option OrderBasket) (validate_leg : L → Option OrderLeg) where
  abbrev pub with_legs : BasketStatus → OrderBasket → List OrderLeg → OrderBasket
  with_legs s b legs = record b { status = s; legs = legs }

  -- A basket whose legs are as they are made reads back.
  abbrev pub ValidatesBaskets : Type 0
  ValidatesBaskets =
      (b : OrderBasket) → All IsPending b.legs → validate_basket (dump_basket b) ≡ some b

  -- A row with as many legs as its payload.
  abbrev pub IsWhole : Option (Row dump_basket dump_leg validate_basket validate_leg) → Type 0
  IsWhole none = ◌≡◌ {A = Bool} true true
  IsWhole (some row) =
      (base : OrderBasket) × (validate_basket row.payload ≡ some base)
      × (length row.legs ≡ length base.legs)

  abbrev pub restored :
      Option (Row dump_basket dump_leg validate_basket validate_leg) → Option OrderBasket
  restored none = none
  restored (some row) = restore_basket dump_basket dump_leg validate_basket validate_leg row

  -- Each basket in memory is the one that its row restores.
  abbrev pub Mirrors :
      Dict String OrderBasket
      → Dict String (Row dump_basket dump_leg validate_basket validate_leg)
      → Type 0
  Mirrors baskets rows =
      (j : String) → (lookup j baskets ≡ restored (lookup j rows)) × IsWhole (lookup j rows)

  restore_basket_lem :
      (row : Row dump_basket dump_leg validate_basket validate_leg) (base : OrderBasket)
      → validate_basket row.payload ≡ some base
      → restore_basket dump_basket dump_leg validate_basket validate_leg row
        ≡ some (record base {
          status = row.status;
          legs = restore_legs dump_basket dump_leg validate_basket validate_leg base.legs row.legs;
        })
  restore_basket_lem row base h = rw (restore_basket, h) refl

  -- One row and one basket are replaced.
  pub Mirrors-insert :
      (id : String) (row : Row dump_basket dump_leg validate_basket validate_leg)
      (base b : OrderBasket) (baskets : Dict String OrderBasket)
      (rows rows' : Dict String (Row dump_basket dump_leg validate_basket validate_leg))
      → Mirrors baskets rows
      → ((j : String) → lookup j rows' ≡ (if id == j then some row else lookup j rows))
      → validate_basket row.payload ≡ some base
      → length row.legs ≡ length base.legs
      → record base {
        status = row.status;
        legs = restore_legs dump_basket dump_leg validate_basket validate_leg base.legs row.legs;
      }
        ≡ b
      → Mirrors (insert id b baskets) rows'
  Mirrors-insert id row base b baskets rows rows' m after reads long same j =
      elim (Bool-cases (id == j)) [
        | inl here ↦
            let there : lookup j rows' ≡ some row = ground (arith, after j) in
            rw
              (
                there,
                lookup-insert id j b baskets,
                here,
                restored,
                restore_basket_lem row base reads,
                same,
              )
              (refl, (base, reads, long))
        | inr apart ↦
            let there : lookup j rows' ≡ lookup j rows = ground (arith, after j) in
            rw (there, lookup-insert id j b baskets, apart) (m j)
      ]

  cancel_basket_acts :
      (id : String) (x : BasketExecutor) (b : OrderBasket)
      → lookup id x.baskets ≡ some b
      → x.has_repository ≡ true
      → x.log ≡ []
      → ((cancel_basket id x).0.baskets
          ≡ insert id
              (record b {
                legs = (cancel_legs id 0 true b.legs x.executors).legs;
                status = all_cancelled;
              })
              x.baskets)
        × ((cancel_basket id x).0.log
            ≡ (cancel_legs id 0 true b.legs x.executors).effects
              ++ status_saved id all_cancelled ∷ [])
  unfolding cancel_basket
  cancel_basket_acts id x b here repo empty = rw (here, cancel_basket, repo, empty) (refl, refl)

  cancel_basket_stays :
      (id : String) (x : BasketExecutor) → lookup id x.baskets ≡ none → (cancel_basket id x).0 ≡ x
  unfolding cancel_basket
  cancel_basket_stays id x absent = rw (absent, cancel_basket) refl

  -- `update_status` behind the writes of the legs.
  pub status_written :
      (id : String) (now : ℕ) (s : BasketStatus)
      (row : Row dump_basket dump_leg validate_basket validate_leg)
      (legs : List (LegRow L LegStatus))
      (rows rows' : Dict String (Row dump_basket dump_leg validate_basket validate_leg))
      → LegsWritten dump_basket dump_leg validate_basket validate_leg id row legs rows rows'
      → (j : String)
      → lookup j (update_basket id s now rows') ≡ (
          if id == j
          then some (record row { legs = legs; status = s; updated_at = now })
          else lookup j rows)
  unfolding update_basket
  status_written id now s row legs rows rows' w j = ground (
    arith,
    written_here dump_basket dump_leg validate_basket validate_leg id row legs rows rows' w,
    w j,
    lookup-insert id j (record row { legs = legs; status = s; updated_at = now }) rows',
  )

  -- The row of a basket in memory.
  row_of :
      (id : String) (b : OrderBasket) (baskets : Dict String OrderBasket)
      (rows : Dict String (Row dump_basket dump_leg validate_basket validate_leg))
      → Mirrors baskets rows
      → lookup id baskets ≡ some b
      → (row : Row dump_basket dump_leg validate_basket validate_leg) × (base : OrderBasket)
        × (lookup id rows ≡ some row)
        × (validate_basket row.payload ≡ some base)
        × (length row.legs ≡ length base.legs)
        × (b ≡ record base {
          status = row.status;
          legs = restore_legs dump_basket dump_leg validate_basket validate_leg base.legs row.legs;
        })
  row_of id b baskets rows m here = elim (Option-cases (lookup id rows)) [
    | inl absent ↦ ground (arith, (m id).0)
    | inr (row, there) ↦
        let (base, reads, long) : IsWhole (some row) = subst (λ o. IsWhole o) there (m id).1 in
        let same : some b ≡ restored (some row) = sym here ∙ (m id).0 ∙ ap restored there in
        (row, base, there, reads, long, ground (arith, same, restore_basket_lem row base reads))
  ]

  -- `cancel_basket` of a basket that is there.
  cancel-Mirrors_present :
      ValidatesLegs dump_basket dump_leg validate_basket validate_leg
      → (id : String) (now : ℕ) (base : OrderBasket)
        (row : Row dump_basket dump_leg validate_basket validate_leg) (x : BasketExecutor)
        (rows : Dict String (Row dump_basket dump_leg validate_basket validate_leg))
      → lookup id x.baskets
        ≡ some (record base {
          status = row.status;
          legs = restore_legs dump_basket dump_leg validate_basket validate_leg base.legs row.legs;
        })
      → lookup id rows ≡ some row
      → validate_basket row.payload ≡ some base
      → length row.legs ≡ length base.legs
      → x.has_repository ≡ true
      → x.log ≡ []
      → Mirrors x.baskets rows
      → Mirrors (cancel_basket id x).0.baskets (
          persist_effects dump_basket dump_leg validate_basket validate_leg now
            (cancel_basket id x).0.log
            rows)
  unfolding persist_effects persist_effect
  cancel-Mirrors_present valid id now base row x rows here there reads long repo empty m =
      let b : OrderBasket = record base {
        status = row.status;
        legs = restore_legs dump_basket dump_leg validate_basket validate_leg base.legs row.legs;
      } in
      let (news, w, legs, long') =
        cancel_legs_written dump_basket dump_leg validate_basket validate_leg valid id 0 now
          base.legs row.legs x.executors [] row rows refl there refl long in
      let (out_baskets, out_log) = cancel_basket_acts id x b here repo empty in
      let rows' : Dict String (Row dump_basket dump_leg validate_basket validate_leg) =
        persist_effects dump_basket dump_leg validate_basket validate_leg now
          (cancel_legs id 0 true b.legs x.executors).effects rows in
      rw
        (
          out_baskets,
          out_log,
          persist_effects-append dump_basket dump_leg validate_basket validate_leg now
              (cancel_legs id 0 true b.legs x.executors).effects
              (status_saved id all_cancelled ∷ []) rows,
        )
        (Mirrors-insert id (record row { legs = news; status = all_cancelled; updated_at = now })
          base
          (record b {
            legs = (cancel_legs id 0 true b.legs x.executors).legs;
            status = all_cancelled;
          })
          x.baskets rows (update_basket id all_cancelled now rows') m
          (status_written id now all_cancelled row news rows rows' w) reads long'
          (ap (λ l. with_legs all_cancelled base l) legs))

  pub cancel-Mirrors :
      ValidatesLegs dump_basket dump_leg validate_basket validate_leg
      → (id : String) (now : ℕ) (x : BasketExecutor)
        (rows : Dict String (Row dump_basket dump_leg validate_basket validate_leg))
      → x.has_repository ≡ true
      → x.log ≡ []
      → Mirrors x.baskets rows
      → Mirrors (cancel_basket id x).0.baskets (
          persist_effects dump_basket dump_leg validate_basket validate_leg now
            (cancel_basket id x).0.log
            rows)
  unfolding persist_effects
  cancel-Mirrors valid id now x rows repo empty m = elim (Option-cases (lookup id x.baskets)) [
    | inl absent ↦ rw (cancel_basket_stays id x absent, empty) m
    | inr (b, here) ↦
        let (row, base, there, reads, long, same) = row_of id b x.baskets rows m here in
        cancel-Mirrors_present valid id now base row x rows (here ∙ ap some same) there reads long
          repo empty m
  ]
