-- ===== src/Execution/Basket/Restore.antt =====
-- The basket executor over its repository (modules/execution_engine/basket_executor.py): `restore_state`,
-- and what `_persist` writes. `P` and `L` are the JSON of a basket and of a leg, `dump_…` is
-- `model_dump(mode="json")` and `validate_…` is `model_validate`, none where that raises.
use poly_bob.Base.{ℕ, Option, some, none, String, List, [], ◌∷◌, map, nat_eq, string_eq}
use poly_bob.Base.Dict.{Dict, insert}
use poly_bob.Base.Float.{Floats}
use poly_bob.Execution.Basket.{
  LegStatus, OrderLeg, BasketStatus, OrderBasket, LegRequest, Effect, saved, leg_saved,
  status_saved, leg_updated, basket_submitted, BasketExecutor,
}
use poly_bob.Execution.Basket.Submit.{submit_basket}
use poly_bob.Execution.Basket.Cancel.{cancel_basket}
use poly_bob.Store.Baskets.{LegRow, BasketRow, save_basket, update_basket, update_leg, list_baskets}

module _ ⦃fl : Floats⦄ {P L : Type 0} (dump_basket : OrderBasket → P) (dump_leg : OrderLeg → L)
    (validate_basket : P → Option OrderBasket) (validate_leg : L → Option OrderLeg) where
  abbrev pub Row : Type 0
  Row = BasketRow P L BasketStatus LegStatus

  -- The loop over `record.legs`: a leg that does not validate takes the status only.
  abbrev pub restore_leg : OrderLeg → LegRow L LegStatus → OrderLeg
  restore_leg leg row = elim (validate_leg row.payload) [
    | none ↦ record leg { status = row.status }
    | some l ↦ l
  ]

  unfoldable pub restore_legs : List OrderLeg → List (LegRow L LegStatus) → List OrderLeg
  restore_legs [] rows = []
  restore_legs (leg ∷ legs) [] = leg ∷ legs
  restore_legs (leg ∷ legs) (row ∷ rows) = restore_leg leg row ∷ restore_legs legs rows

  abbrev pub restore_basket : Row → Option OrderBasket
  restore_basket row = elim (validate_basket row.payload) [
    | none ↦ none
    | some b ↦ some (record b { status = row.status; legs = restore_legs b.legs row.legs })
  ]

  unfoldable pub restore_baskets :
      Dict String Row → Dict String OrderBasket → Dict String OrderBasket
  restore_baskets [] baskets = baskets
  restore_baskets ((id, row) ∷ rows) baskets =
      restore_baskets rows
        (elim (restore_basket row) [ none ↦ baskets | some b ↦ insert id b baskets ])

  -- `restore_state`, where the read does not raise.
  unfoldable pub restore_state : Dict String Row → BasketExecutor → BasketExecutor
  restore_state rows x = record x { baskets = restore_baskets (list_baskets rows) x.baskets }

  -- One write, at `now`; publications are none.
  unfoldable pub persist_effect : ℕ → Effect → Dict String Row → Dict String Row
  persist_effect now (saved b) rows =
      save_basket b.basket_id b.parent_intent_id b.status (dump_basket b)
        (map (λ l. (dump_leg l, l.status)) b.legs) now rows
  persist_effect now (leg_saved id index leg fill) rows =
      update_leg id index leg.status (dump_leg leg) fill rows
  persist_effect now (status_saved id status) rows = update_basket id status now rows
  persist_effect now (leg_updated _ _ _) rows = rows
  persist_effect now (basket_submitted _ _ _ _) rows = rows

  unfoldable pub persist_effects : ℕ → List Effect → Dict String Row → Dict String Row
  persist_effects now [] rows = rows
  persist_effects now (e ∷ es) rows = persist_effects now es (persist_effect now e rows)

  -- The executor and its tables; a call writes at `now` what it logs.
  pub record BasketDesk : Type 0 where
    pub executor : BasketExecutor
    pub rows : Dict String Row

  abbrev pub commit : ℕ → BasketDesk → BasketExecutor → BasketDesk
  commit now d x = record {
    executor = record x { log = [] };
    rows = persist_effects now x.log d.rows;
  }

  unfoldable pub submit_stored :
      ℕ → (basket_id parent_intent_id : String) → List LegRequest → BasketDesk → BasketDesk
  submit_stored now id parent requests d =
      commit now d (submit_basket id parent requests d.executor).0

  unfoldable pub cancel_stored : ℕ → String → BasketDesk → BasketDesk
  cancel_stored now id d = commit now d (cancel_basket id d.executor).0
