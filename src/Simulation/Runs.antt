-- ===== src/Simulation/Runs.antt =====
-- The life cycle of a run (modules/simulation/service.py): `create_run`, `start_run`, `pause_run`,
-- `stop_run`, `_transition`, `_bind` and `get_run_record`, over the rows that the store keeps. `known`
-- says for which strategies there is a source factory, none of which raises. The audit, the experiment
-- log, `restore_state` and the row's other fields are left out.
use poly_bob.Base.{
  ◌⊎◌, inl, inr, Bool, true, false, not, Option, some, none, if◌then◌else◌, String, List, [], ◌∷◌,
  nat_eq, string_eq, or_else, is_some, is_empty, any,
}
use poly_bob.Base.Dict.{Dict, lookup, insert, erase}
use poly_bob.Base.Float.{Floats, Float, ◌≤f◌, 0f}
use poly_bob.Simulation.Trading.{RunStatus, running, paused, stopped}

module _ ⦃fl : Floats⦄ where
  pub record RunRecord : Type 0 where
    pub run_id : String
    pub strategy_id : String
    pub universe : List String
    pub initial_capital : Float
    pub cash : Float
    pub status : RunStatus

  pub record SimulationService : Type 0 where
    pub store : Dict String RunRecord
    pub active : Dict String RunRecord

  pub data RunError : Type 0 where
    unknown_strategy empty_universe no_capital : RunError
    unknown_run invalid_transition no_source lost_row : RunError

  -- What a call leaves, and the record that it returns or the error that it raises.
  abbrev pub Result : Type 0
  Result = SimulationService × (RunError ⊎ RunRecord)

  abbrev pub is_status : RunStatus → RunStatus → Bool
  is_status running running = true
  is_status paused paused = true
  is_status stopped stopped = true
  is_status _ _ = false

  -- `status in allowed_from`
  abbrev pub is_among : RunStatus → List RunStatus → Bool
  is_among s allowed = any (is_status s) allowed

  -- `active.record if active else store.get_run(run_id)`
  unfoldable pub get_run_record : String → SimulationService → Option RunRecord
  get_run_record id s = or_else (lookup id s.active) (lookup id s.store)

  -- `self._active.pop(run_id, None)` behind a stop that did not raise.
  abbrev pub forget_run : String → Result → Result
  forget_run id (s, inl e) = (s, inl e)
  forget_run id (s, inr row) = (record s { active = erase id s.active }, inr row)

  module _ (known : String → Bool) where
    unfoldable pub create_run :
        (run_id strategy_id : String) → List String → Float → SimulationService → Result
    create_run run_id strategy_id universe initial_capital s =
        let row : RunRecord = record {
          run_id = run_id;
          strategy_id = strategy_id;
          universe = universe;
          initial_capital = initial_capital;
          cash = initial_capital;
          status = paused;
        } in
        if not (known strategy_id)
        then (s, inl unknown_strategy)
        else if is_empty universe
        then (s, inl empty_universe)
        else if initial_capital ≤f 0f
        then (s, inl no_capital)
        else (
          record { store = insert run_id row s.store; active = insert run_id row s.active },
          inr row,
        )

    -- The part of `_transition` behind the update of the store.
    abbrev pub bind_updated : String → Bool → RunStatus → RunRecord → SimulationService → Result
    bind_updated id was_active status row s =
        if was_active
        then (record s { active = insert id row s.active }, inr row)
        else if is_status status stopped
        then (s, inr row)
        else if known row.strategy_id
        then (record s { active = insert id row s.active }, inr row)
        else (s, inl no_source)

    -- `update_run(run_id, status=…)` and `get_run`. A bound run whose row is gone raises; that it is
    -- bound without a record from then on is left out.
    abbrev pub write_status :
        String → Bool → RunStatus → Option RunRecord → SimulationService → Result
    write_status id was_active status none s = (s, inl lost_row)
    write_status id was_active status (some row) s =
        bind_updated id was_active status (record row { status = status })
          (record s { store = insert id (record row { status = status }) s.store })

    unfoldable pub transition : String → RunStatus → List RunStatus → SimulationService → Result
    transition id status allowed s = elim (get_run_record id s) [
      | none ↦ (s, inl unknown_run)
      | some row ↦
          if is_among row.status allowed
          then write_status id (is_some (lookup id s.active)) status (lookup id s.store) s
          else (s, inl invalid_transition)
    ]

    unfoldable pub start_run : String → SimulationService → Result
    start_run id s = transition id running (paused ∷ []) s

    unfoldable pub pause_run : String → SimulationService → Result
    pause_run id s = transition id paused (running ∷ []) s

    unfoldable pub stop_run : String → SimulationService → Result
    stop_run id s = forget_run id (transition id stopped (running ∷ paused ∷ []) s)
