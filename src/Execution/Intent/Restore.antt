-- ===== src/Execution/Intent/Restore.antt =====
-- The intent service over its repository (modules/execution_engine/intent_execution_service.py):
-- `restore_state`, and what `_persist` writes. `P` is the JSON of a payload, `dump` is
-- `model_dump(mode="json")`, and `validate` is `TradeIntent.model_validate`, none where that raises. A
-- time that is read back is the time that was written.
use poly_bob.Base.{
  ℕ, Bool, Option, some, none, if◌then◌else◌, String, List, [], ◌∷◌, nat_eq, string_eq, get_or,
  or_str,
}
use poly_bob.Base.Dict.{Dict, insert}
use poly_bob.Base.Float.{Floats}
use poly_bob.Promotion.Registry.{PromotionRecord}
use poly_bob.Execution.Intent.{
  Formats, TradeIntent, IntentStatus, IntentError, IntentEffect, save_intent, update_intent,
  save_decision, intent_created, IntentService, StoredIntent, IntentRequest, set_some,
  create_intent,
}
use poly_bob.Execution.Intent.Submit.{is_submitted_status, submit_intent}
use poly_bob.Store.Intents.{IntentRow, save, update_status, find_by_idempotency_key, list_all}

module _ ⦃fl : Floats⦄ {P : Type 0} (dump : TradeIntent → P)
    (validate : P → Option TradeIntent) where
  abbrev pub Table : Type 0
  Table = Dict String (IntentRow P IntentStatus IntentError)

  -- One round of the loop of `restore_state`.
  abbrev pub restore_row :
      String → IntentRow P IntentStatus IntentError → IntentService → IntentService
  restore_row id row s = elim (validate row.payload) [
    | none ↦ s
    | some intent ↦ record s {
      intents = insert id intent s.intents;
      intent_status = insert id row.status s.intent_status;
      intent_baskets = set_some id (or_str row.basket_id none) s.intent_baskets;
      intent_errors = set_some id row.error s.intent_errors;
      idempotency_keys = set_some id (or_str row.idempotency_key none) s.idempotency_keys;
      recent_signatures = elim (or_str row.idempotency_key none) [
        | none ↦ s.recent_signatures
        | some key ↦
            if is_submitted_status row.status
            then insert key row.updated_at s.recent_signatures
            else s.recent_signatures
      ];
    }
  ]

  unfoldable pub restore_rows : Table → IntentService → IntentService
  restore_rows [] s = s
  restore_rows ((id, row) ∷ rows) s = restore_rows rows (restore_row id row s)

  -- `restore_state`, where the read does not raise.
  unfoldable pub restore_state : Table → IntentService → IntentService
  restore_state rows s = restore_rows (list_all rows) s

  -- `_persist` of one effect: a write that raises is logged and leaves the table.
  unfoldable pub persist_effect : ℕ → IntentEffect → Table → Table
  persist_effect now (save_intent id intent status key) rows =
      get_or (save id (dump intent) status none none key now rows) rows
  persist_effect now (update_intent id status error basket_id key) rows =
      update_status id status error basket_id key now rows
  persist_effect now (save_decision _ _ _ _ _ _ _ _) rows = rows
  persist_effect now (intent_created _ _ _ _) rows = rows

  unfoldable pub persist_effects : ℕ → List IntentEffect → Table → Table
  persist_effects now [] rows = rows
  persist_effects now (e ∷ es) rows = persist_effects now es (persist_effect now e rows)

  -- What `find_by_idempotency_key` gives `_find_existing_intent`.
  abbrev pub stored_intent :
      Option (String × IntentRow P IntentStatus IntentError) → Option StoredIntent
  stored_intent none = none
  stored_intent (some (id, row)) = some (record {
    intent_id = id;
    payload = validate row.payload;
    status = row.status;
    basket_id = row.basket_id;
    error = row.error;
  })

  abbrev pub find_stored : Option String → Table → Option StoredIntent
  find_stored none rows = none
  find_stored (some key) rows = stored_intent (find_by_idempotency_key key rows)

  -- The service and its table.
  pub record Desk : Type 0 where
    pub service : IntentService
    pub rows : Table

  -- A call has written at `now` what it hands to the repository.
  abbrev pub commit : ℕ → Desk → IntentService → Desk
  commit now d s = record {
    service = record s { effects = [] };
    rows = persist_effects now s.effects d.rows;
  }

  module _ (require_strategy_promotion : Bool) (day_of : String → Option ℕ) (today : ℕ)
      (registry : List PromotionRecord) (fm : Formats) where
    -- A call of `create_intent` with a drawn id.
    unfoldable pub create_stored : ℕ → String → IntentRequest → Desk → Desk
    create_stored now id q d =
        commit now d
          (create_intent require_strategy_promotion day_of today registry fm
            (find_stored q.idempotency_key d.rows) id q d.service).0

    -- A call of `submit_intent` that draws the id of a basket.
    unfoldable pub submit_stored : ℕ → String → String → Desk → Desk
    submit_stored now id basket_id d = commit now d (submit_intent fm id basket_id now d.service).0
