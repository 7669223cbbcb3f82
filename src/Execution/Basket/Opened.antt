-- ===== src/Execution/Basket/Opened.antt =====
-- `submit_basket` over the repository (modules/execution_engine/basket_executor.py).
use poly_bob.Base.{
  ℕ, ◌≡◌, refl, ap, inl, inr, true, false, Option, some, none, if◌then◌else◌, arith, String, List,
  [], ◌∷◌, ◌++◌, map, append_assoc, ◌==◌, nat_eq, string_eq, All, length, Bool-cases, Option-cases,
}
use poly_bob.Base.Dict.{Dict, lookup, insert, lookup-insert, lookup-insert_self}
use poly_bob.Base.Float.{Floats}
use poly_bob.Execution.Basket.{
  OrderLeg, BasketStatus, OrderBasket, saved, status_saved, basket_submitted,
}
use poly_bob.Execution.Basket.Submit.{Rounds, submit_legs}
use poly_bob.Execution.Basket.{venue_eq}
use poly_bob.Execution.Basket.Restore.{Row, persist_effect, persist_effects}
use poly_bob.Execution.Basket.Written.{IsPending, ValidatesLegs, leg_row, persist_effects-append}
use poly_bob.Execution.Basket.Placed.{new_rows, submit_legs_written}
use poly_bob.Execution.Basket.{LegRequest, submitting, derive_status, BasketExecutor}
use poly_bob.Execution.Basket.Submit.{submit_made, make_legs, submit_basket}
use poly_bob.Store.Baskets.{saved_legs, save_basket, update_basket}
use poly_bob.Execution.Basket.Kept.{
  with_legs, ValidatesBaskets, Mirrors, Mirrors-insert, status_written,
}

module _ ⦃fl : Floats⦄ where
  pub make_legs-IsPending :
      (requests : List LegRequest) (legs : List OrderLeg)
      → make_legs requests ≡ some legs
      → All IsPending legs
  unfolding make_legs
  make_legs-IsPending [] legs h = ground (arith)
  make_legs-IsPending (q ∷ qs) legs h = elim (Option-cases q.venue) [
    | inl none_here ↦ ground (arith)
    | inr (v, here) ↦ elim (Option-cases (make_legs qs)) [
      | inl fails ↦ ground (arith)
      | inr (ls, made) ↦ let rest = make_legs-IsPending qs ls made in ground (arith)
    ]
  ]

module _ ⦃fl : Floats⦄ {P L : Type 0} (dump_basket : OrderBasket → P) (dump_leg : OrderLeg → L)
    (validate_basket : P → Option OrderBasket) (validate_leg : L → Option OrderLeg) where
  abbrev new_basket : (id parent : String) → List OrderLeg → OrderBasket
  new_basket id parent legs = record {
    basket_id = id;
    parent_intent_id = parent;
    status = submitting;
    legs = legs;
  }

  abbrev new_row :
      (id parent : String) (now : ℕ)
      → List OrderLeg
      → Row dump_basket dump_leg validate_basket validate_leg
  new_row id parent now legs = record {
    intent_id = parent;
    status = submitting;
    payload = dump_basket (new_basket id parent legs);
    created_at = now;
    updated_at = now;
    legs = new_rows dump_basket dump_leg validate_basket validate_leg legs;
  }

  saved_legs-new :
      (legs : List OrderLeg)
      → saved_legs (map (λ l. (dump_leg l, l.status)) legs) []
        ≡ new_rows dump_basket dump_leg validate_basket validate_leg legs
  unfolding saved_legs
  saved_legs-new [] = refl
  saved_legs-new (leg ∷ legs) =
      ap (λ rows. leg_row dump_basket dump_leg validate_basket validate_leg leg false ∷ rows)
        (saved_legs-new legs)

  -- Behind `save` of a basket that is not there.
  saved_lem :
      (id parent : String) (now : ℕ) (legs : List OrderLeg)
      (rows : Dict String (Row dump_basket dump_leg validate_basket validate_leg))
      → lookup id rows ≡ none
      → persist_effect dump_basket dump_leg validate_basket validate_leg now
          (saved (new_basket id parent legs))
          rows
        ≡ insert id (new_row id parent now legs) rows
  unfolding persist_effect save_basket
  saved_lem id parent now legs rows fresh = rw (save_basket, fresh, saved_legs-new legs) refl

  submit_made-ends :
      (id parent : String) (legs : List OrderLeg) (x : BasketExecutor)
      → x.has_repository ≡ true
      → x.log ≡ []
      → (submit_legs id 0 true legs x.executors).finished ≡ true
      → ((submit_made id parent legs x).0.baskets
          ≡ insert id
              (record (new_basket id parent legs) {
                legs = (submit_legs id 0 true legs x.executors).legs;
                status = derive_status (submit_legs id 0 true legs x.executors).legs;
              })
              x.baskets)
        × ((submit_made id parent legs x).0.log
            ≡ saved (new_basket id parent legs) ∷ (submit_legs id 0 true legs x.executors).effects
              ++ status_saved id (derive_status (submit_legs id 0 true legs x.executors).legs)
                ∷ basket_submitted id parent
                    (derive_status (submit_legs id 0 true legs x.executors).legs)
                    (length (submit_legs id 0 true legs x.executors).legs)
                ∷ [])
  submit_made-ends id parent legs x repo empty ends =
      let r : Rounds = submit_legs id 0 true legs x.executors in
      rw (submit_made, repo, ends, empty)
        (
          refl,
          append_assoc (saved (new_basket id parent legs) ∷ r.effects)
              (status_saved id (derive_status r.legs) ∷ [])
              (basket_submitted id parent (derive_status r.legs) (length r.legs) ∷ []),
        )

  submit_made-breaks :
      (id parent : String) (legs : List OrderLeg) (x : BasketExecutor)
      → x.has_repository ≡ true
      → x.log ≡ []
      → (submit_legs id 0 true legs x.executors).finished ≡ false
      → ((submit_made id parent legs x).0.baskets
          ≡ insert id
              (record (new_basket id parent legs) {
                legs = (submit_legs id 0 true legs x.executors).legs;
              })
              x.baskets)
        × ((submit_made id parent legs x).0.log
            ≡ saved (new_basket id parent legs) ∷ (submit_legs id 0 true legs x.executors).effects)
  submit_made-breaks id parent legs x repo empty breaks =
      rw (submit_made, repo, breaks, empty) (refl, refl)

  submit_made-Mirrors :
      ValidatesLegs dump_basket dump_leg validate_basket validate_leg
      → ValidatesBaskets dump_basket dump_leg validate_basket validate_leg
      → (id parent : String) (now : ℕ) (legs : List OrderLeg) (x : BasketExecutor)
        (rows : Dict String (Row dump_basket dump_leg validate_basket validate_leg))
      → All IsPending legs
      → x.has_repository ≡ true
      → x.log ≡ []
      → lookup id rows ≡ none
      → Mirrors dump_basket dump_leg validate_basket validate_leg x.baskets rows
      → Mirrors dump_basket dump_leg validate_basket validate_leg
          (submit_made id parent legs x).0.baskets
          (persist_effects dump_basket dump_leg validate_basket validate_leg now
            (submit_made id parent legs x).0.log
            rows)
  unfolding persist_effects persist_effect
  submit_made-Mirrors valid whole id parent now legs x rows new repo empty fresh m =
      let basket : OrderBasket = new_basket id parent legs in
      let row : Row dump_basket dump_leg validate_basket validate_leg =
        new_row id parent now legs in
      let rows0 : Dict String (Row dump_basket dump_leg validate_basket validate_leg) =
        insert id row rows in
      let (news, w, ls, long) =
        submit_legs_written dump_basket dump_leg validate_basket validate_leg valid id 0 now legs
          x.executors [] row rows0 refl (lookup-insert_self id row rows) refl new in
      let r : Rounds = submit_legs id 0 true legs x.executors in
      let rows1 : Dict String (Row dump_basket dump_leg validate_basket validate_leg) =
        persist_effects dump_basket dump_leg validate_basket validate_leg now r.effects rows0 in
      let base_reads = whole basket new in
      elim (Bool-cases r.finished) [
        | inl ends ↦
            let (out_baskets, out_log) = submit_made-ends id parent legs x repo empty ends in
            let s : BasketStatus = derive_status r.legs in
            let after : (j : String)
                → lookup j (update_basket id s now rows1) ≡ (
                    if id == j
                    then some (record row { legs = news; status = s; updated_at = now })
                    else lookup j rows) =
              λ j. ground (
                arith,
                status_written dump_basket dump_leg validate_basket validate_leg id now s row news
                    rows0 rows1 w j,
                lookup-insert id j row rows,
              ) in
            rw
              (
                out_baskets,
                out_log,
                persist_effects,
                saved_lem id parent now legs rows fresh,
                persist_effects-append dump_basket dump_leg validate_basket validate_leg now
                    r.effects
                    (status_saved id s ∷ basket_submitted id parent s (length r.legs) ∷ []) rows0,
              )
              (Mirrors-insert dump_basket dump_leg validate_basket validate_leg id
                (record row { legs = news; status = s; updated_at = now }) basket
                (record basket { legs = r.legs; status = s }) x.baskets rows
                (update_basket id s now rows1) m after base_reads long
                (ap (λ l. with_legs dump_basket dump_leg validate_basket validate_leg s basket l)
                  ls))
        | inr breaks ↦
            let (out_baskets, out_log) = submit_made-breaks id parent legs x repo empty breaks in
            let after : (j : String)
                → lookup j rows1
                  ≡ (if id == j then some (record row { legs = news }) else lookup j rows) =
              λ j. ground (arith, w j, lookup-insert id j row rows) in
            rw (out_baskets, out_log, persist_effects, saved_lem id parent now legs rows fresh)
              (Mirrors-insert dump_basket dump_leg validate_basket validate_leg id
                (record row { legs = news }) basket (record basket { legs = r.legs }) x.baskets rows
                rows1 m after base_reads long
                (ap
                  (λ l.
                    with_legs dump_basket dump_leg validate_basket validate_leg submitting basket l)
                  ls))
      ]

  -- `submit_basket` under an id that is not in use.
  pub submit-Mirrors :
      ValidatesLegs dump_basket dump_leg validate_basket validate_leg
      → ValidatesBaskets dump_basket dump_leg validate_basket validate_leg
      → (id parent : String) (now : ℕ) (requests : List LegRequest) (x : BasketExecutor)
        (rows : Dict String (Row dump_basket dump_leg validate_basket validate_leg))
      → x.has_repository ≡ true
      → x.log ≡ []
      → lookup id rows ≡ none
      → Mirrors dump_basket dump_leg validate_basket validate_leg x.baskets rows
      → Mirrors dump_basket dump_leg validate_basket validate_leg
          (submit_basket id parent requests x).0.baskets
          (persist_effects dump_basket dump_leg validate_basket validate_leg now
            (submit_basket id parent requests x).0.log
            rows)
  unfolding submit_basket persist_effects
  submit-Mirrors valid whole id parent now requests x rows repo empty fresh m =
      elim (Option-cases (make_legs requests)) [
        | inl fails ↦ rw (fails, submit_basket, empty, persist_effects) m
        | inr (legs, made) ↦
            rw (made, submit_basket)
              (submit_made-Mirrors valid whole id parent now legs x rows
                (make_legs-IsPending requests legs made) repo empty fresh m)
      ]
