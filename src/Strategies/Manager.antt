-- ===== src/Strategies/Manager.antt =====
-- The calls of `StrategyManagerService` (modules/strategy_manager/service.py). A drawn id and the clock
-- are arguments; `to_dict` is left out.
use poly_bob.Base.{
  ℕ, Bool, true, false, Option, some, none, if◌then◌else◌, String, List, [], ◌∷◌, ◌++◌, map, nat_eq,
  string_eq, get_or, is_some, or_str,
}
use poly_bob.Base.Dict.{Dict, lookup, insert, erase}
use Prim.Native.String.{◌++◌ as append}
use poly_bob.Strategies.Types.{
  Runtime, is_running, Template, Instance, Manager, TemplateFile, stopped, running, created,
  started, stopped_event, deleted,
}
use poly_bob.Strategies.Templates.{has_factory, load_files}

abbrev pub default_id : String → String
default_id strategy_id = append strategy_id ":default"

-- `merged_config.update(config)`
unfoldable pub update_config : {V : Type 0} → Dict String V → Dict String V → Dict String V
update_config merged [] = merged
update_config merged ((k, v) ∷ config) = update_config (insert k v merged) config

module _ {V S : Type 0} where
  abbrev pub fresh_instance :
      (id strategy_id name : String)
      → Dict String V
      → Dict String V
      → (environment : String) → (now : ℕ) → Instance V S
  fresh_instance id strategy_id name config risk_limits environment now = record {
    instance_id = id;
    strategy_id = strategy_id;
    name = name;
    config = config;
    risk_limits = risk_limits;
    status = stopped;
    environment = environment;
    created_at = now;
    updated_at = now;
    last_started_at = none;
    last_stopped_at = none;
    strategy = none;
  }

  -- The loop of `_seed_default_instances` over `templates.values()`.
  unfoldable pub seed :
      ℕ → Dict String (Template V) → Dict String (Instance V S) → Dict String (Instance V S)
  seed now [] instances = instances
  seed now ((_, t) ∷ ts) instances =
      let id = default_id t.strategy_id in
      seed now ts (
        if is_some (lookup id instances)
        then instances
        else insert id
            (fresh_instance id t.strategy_id (append t.name " / Default") t.parameters t.risk_limits
              "paper" now)
            instances)

  unfoldable pub get_instance : String → Manager V S → Option (Instance V S)
  get_instance id m = lookup id m.instances

  -- `create_instance`; `hex` is what `uuid4().hex[:8]` gives. None where it raises.
  unfoldable pub create_instance :
      (strategy_id : String)
      → Option String
      → Option (Dict String V)
      → (environment hex : String) → (now : ℕ) → Manager V S
      → Manager V S × Option (Instance V S)
  create_instance strategy_id name config environment hex now m =
      elim (lookup strategy_id m.templates) [
        | none ↦ (m, none)
        | some t ↦
            let id = append strategy_id (append ":" hex) in
            let i =
              fresh_instance id strategy_id
                (get_or (or_str name none) (append t.name (append " / " environment)))
                (update_config t.parameters (get_or config [])) t.risk_limits environment now in
            (
              record m {
                instances = insert id i m.instances;
                log = m.log ++ created id strategy_id environment ∷ [];
              },
              some i,
            )
      ]

  abbrev pub put_started :
      String → Instance V S → S → ℕ → Manager V S → Manager V S × Option (Instance V S)
  put_started id i s now m =
      let i' : Instance V S = record i {
        strategy = some s;
        status = running;
        last_started_at = some now;
        updated_at = now;
      } in
      (
        record m {
          instances = insert id i' m.instances;
          log = m.log ++ started id i.strategy_id ∷ [];
        },
        some i',
      )

  abbrev pub put_stopped :
      String → Instance V S → ℕ → Manager V S → Manager V S × Option (Instance V S)
  put_stopped id i now m =
      let i' : Instance V S = record i {
        strategy = none;
        status = stopped;
        last_stopped_at = some now;
        updated_at = now;
      } in
      (
        record m {
          instances = insert id i' m.instances;
          log = m.log ++ stopped_event id i.strategy_id ∷ [];
        },
        some i',
      )

  abbrev pub runs : String → Manager V S → Bool
  runs id m = elim (lookup id m.instances) [ none ↦ false | some i ↦ is_running i.status ]

module _ {V S : Type 0} (rt : Runtime V S) where
  -- `start`
  unfoldable pub start :
      (promoted : String → Bool)
      → Option (List (TemplateFile V))
      → (now : ℕ) → Manager V S
      → Manager V S
  start promoted files now m =
      let templates = load_files rt promoted (get_or files []) [] in
      record m { is_on = true; templates = templates; instances = seed now templates m.instances }

  -- The part of `start_instance` behind the test of the status: the build and the start may raise.
  abbrev pub start_stopped :
      String → Instance V S → ℕ → Manager V S → Manager V S × Option (Instance V S)
  start_stopped id i now m =
      if has_factory i.strategy_id
      then elim (rt.build i.strategy_id i.config) [
        | none ↦ (m, none)
        | some s ↦ if rt.start_returns s then put_started id i s now m else (m, none)
      ]
      else (m, none)

  unfoldable pub start_instance :
      String → (now : ℕ) → Manager V S → Manager V S × Option (Instance V S)
  start_instance id now m = elim (lookup id m.instances) [
    | none ↦ (m, none)
    | some i ↦ if is_running i.status then (m, some i) else start_stopped id i now m
  ]

  -- Whether the strategy's own `stop` lets the call go on.
  abbrev pub may_stop : Option S → Bool
  may_stop none = true
  may_stop (some s) = rt.stop_returns s

  unfoldable pub stop_instance :
      String → (now : ℕ) → Manager V S → Manager V S × Option (Instance V S)
  stop_instance id now m = elim (lookup id m.instances) [
    | none ↦ (m, none)
    | some i ↦ if may_stop i.strategy then put_stopped id i now m else (m, none)
  ]

  abbrev pub erase_instance : String → Instance V S → Manager V S → Manager V S
  erase_instance id i m = record m {
    instances = erase id m.instances;
    log = m.log ++ deleted id i.strategy_id ∷ [];
  }

  -- `delete_instance`: whether it returns.
  unfoldable pub delete_instance : String → (now : ℕ) → Manager V S → Manager V S × Bool
  delete_instance id now m = elim (lookup id m.instances) [
    | none ↦ (m, false)
    | some i ↦
        let (m', answer) = stop_instance id now m in
        if is_running i.status
        then (if is_some answer then (erase_instance id i m', true) else (m', false))
        else (erase_instance id i m, true)
  ]

  -- The loop of `stop` over the ids of the instances: whether it comes to its end. The status is the
  -- one that the instance has by then.
  unfoldable pub stop_each : List String → (now : ℕ) → Manager V S → Manager V S × Bool
  stop_each [] now m = (m, true)
  stop_each (id ∷ ids) now m =
      let (m', answer) = stop_instance id now m in
      let after_stop = stop_each ids now m' in
      let skipped = stop_each ids now m in
      if runs id m then (if is_some answer then after_stop else (m', false)) else skipped

  unfoldable pub stop : (now : ℕ) → Manager V S → Manager V S × Bool
  stop now m = stop_each (map (λ e. e.1.instance_id) m.instances) now (record m { is_on = false })
