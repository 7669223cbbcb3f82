-- ===== src/Strategies/Templates.antt =====
-- How `StrategyManagerService` loads its templates (modules/strategy_manager/service.py); the files of
-- the template directory are an argument.
use poly_bob.Base.{
  Bool, ◌||◌, some, none, if◌then◌else◌, String, List, [], ◌∷◌, ◌==◌, nat_eq, string_eq, get_or,
  any, or_str,
}
use poly_bob.Base.Dict.{Dict, insert}
use poly_bob.Strategies.Types.{Runtime, RuntimeMode, Template, TemplateFile, research, paper_ready}

-- The keys of `_factories`.
abbrev pub factories : List String
factories =
    "cross_market_dislocation_v1" ∷ "spread_reversion_v1" ∷ "ai_enhanced_prediction_v1"
    ∷ "spread_arbitrage_v1" ∷ "us_insider_cluster_buy" ∷ "altcoin_retail_crowding" ∷ []

abbrev pub has_factory : String → Bool
has_factory s = any (λ k. k == s) factories

module _ {V S : Type 0} (rt : Runtime V S) where
  unfoldable pub derive_family : String → String
  derive_family s =
      if rt.starts_with s "cross_market" || rt.contains s "spread"
      then "arbitrage"
      else if rt.starts_with s "ai_"
      then "prediction"
      else if rt.contains s "insider"
      then "event_study"
      else rt.first_word s

  -- `promoted` is what the promotion registry says.
  unfoldable pub derive_runtime_mode : (promoted : String → Bool) → String → RuntimeMode
  derive_runtime_mode promoted s = if promoted s then paper_ready else research

  abbrev pub add_template :
      (promoted : String → Bool)
      → TemplateFile V
      → Dict String (Template V)
      → Dict String (Template V)
  add_template promoted file templates = elim file.content [
    | none ↦ templates
    | some raw ↦
        let id = get_or (or_str raw.strategy_id none) file.directory in
        insert id
          (record {
            strategy_id = id;
            name = get_or (or_str raw.name none) file.directory;
            description = get_or raw.description "";
            family = derive_family id;
            config_path = file.path;
            parameters = get_or raw.parameters [];
            risk_limits = get_or raw.risk_limits [];
            runtime_mode = derive_runtime_mode promoted id;
          })
          templates
  ]

  -- `_load_templates`, over the files in their order; no directory is no list.
  unfoldable pub load_files :
      (promoted : String → Bool)
      → List (TemplateFile V)
      → Dict String (Template V)
      → Dict String (Template V)
  load_files promoted [] templates = templates
  load_files promoted (file ∷ files) templates =
      load_files promoted files (add_template promoted file templates)
