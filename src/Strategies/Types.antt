-- ===== src/Strategies/Types.antt =====
-- The data of `StrategyManagerService` (modules/strategy_manager/service.py). `V` is the type of a value
-- in a configuration and `S` that of a strategy object. What is not the service's is the record
-- `Runtime`: the strategies' classes, whether their `start` and `stop` return, and Python's text methods.
-- The field `error`, which nothing sets, is left out.
use poly_bob.Base.{ℕ, Bool, true, false, Option, String, List, nat_eq, string_eq}
use poly_bob.Base.Dict.{Dict}

pub record Runtime (V S : Type 0) : Type 0 where
  -- The call of a class with a configuration, none where it raises.
  pub build : String → Dict String V → Option S
  pub start_returns : S → Bool
  pub stop_returns : S → Bool
  pub starts_with : (text prefix : String) → Bool
  pub contains : (text part : String) → Bool
  -- `text.replace("_v1", "").split("_")[0]`
  pub first_word : String → String

pub data InstanceStatus : Type 0 where
  stopped running : InstanceStatus

abbrev pub is_running : InstanceStatus → Bool
is_running running = true
is_running stopped = false

pub data RuntimeMode : Type 0 where
  research paper_ready : RuntimeMode

pub record Template (V : Type 0) : Type 0 where
  pub strategy_id : String
  pub name : String
  pub description : String
  pub family : String
  pub config_path : String
  pub parameters : Dict String V
  pub risk_limits : Dict String V
  pub runtime_mode : RuntimeMode

pub record Instance (V S : Type 0) : Type 0 where
  pub instance_id : String
  pub strategy_id : String
  pub name : String
  pub config : Dict String V
  pub risk_limits : Dict String V
  pub status : InstanceStatus
  pub environment : String
  pub created_at : ℕ
  pub updated_at : ℕ
  pub last_started_at : Option ℕ
  pub last_stopped_at : Option ℕ
  pub strategy : Option S

-- What is published.
pub data Event : Type 0 where
  created : (instance_id strategy_id environment : String) → Event
  started : (instance_id strategy_id : String) → Event
  stopped_event : (instance_id strategy_id : String) → Event
  deleted : (instance_id strategy_id : String) → Event

pub record Manager (V S : Type 0) : Type 0 where
  pub templates : Dict String (Template V)
  pub instances : Dict String (Instance V S)
  pub is_on : Bool
  pub log : List Event

-- A file `config.yaml`: its directory, its path, and what it holds if it can be read.
pub record TemplateContent (V : Type 0) : Type 0 where
  pub strategy_id : Option String
  pub name : Option String
  pub description : Option String
  pub parameters : Option (Dict String V)
  pub risk_limits : Option (Dict String V)

pub record TemplateFile (V : Type 0) : Type 0 where
  pub directory : String
  pub path : String
  pub content : Option (TemplateContent V)
