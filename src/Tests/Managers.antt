-- ===== src/Tests/Managers.antt =====
-- A manager of two strategies whose objects are numbers: made, started, stopped.
use poly_bob.Base.{ℕ, ◌≡◌, refl, true, false, some, none, [], ◌∷◌, ◌==◌, nat_eq, string_eq}
use poly_bob.Base.Dict.{lookup, insert}
use poly_bob.Strategies.Types.{Runtime, Manager, TemplateFile}
use poly_bob.Strategies.Templates.{load_files}
use poly_bob.Strategies.Manager.{update_config, seed, start, start_instance, runs, stop}
use poly_bob.Strategies.Lifecycle.{
  AllFit, Reached, made, called, call_start, call_start_instance, Reached-AllFit,
}
use poly_bob.Strategies.Shutdown.{stop_stops_all}

-- A strategy object is the number 1; text methods that the test does not depend on.
abbrev runtime : Runtime ℕ ℕ
runtime = record {
  build = λ id config. some 1;
  start_returns = λ s. true;
  stop_returns = λ s. true;
  starts_with = λ text prefix. false;
  contains = λ text part. part == "insider";
  first_word = λ text. text;
}

abbrev file : TemplateFile ℕ
file = record {
  directory = "us_insider_cluster_buy";
  path = "strategies/us_insider_cluster_buy/config.yaml";
  content = some (record {
    strategy_id = none;
    name = some "Insiders";
    description = none;
    parameters = some (("hold", 20) ∷ []);
    risk_limits = none;
  });
}

abbrev empty : Manager ℕ ℕ
empty = record { templates = []; instances = []; is_on = false; log = [] }

abbrev seeded : Manager ℕ ℕ
seeded = start runtime (λ s. true) (some (file ∷ [])) 5 empty

abbrev busy : Manager ℕ ℕ
busy = (start_instance runtime "us_insider_cluster_buy:default" 6 seeded).0

busy_reached : Reached runtime busy
busy_reached =
    called seeded busy
      (called empty seeded (made empty refl) (call_start (λ s. true) (some (file ∷ [])) 5 empty))
      (call_start_instance "us_insider_cluster_buy:default" 6 seeded)

busy_runs : runs "us_insider_cluster_buy:default" busy ≡ true
unfolding lookup start_instance start seed load_files insert
busy_runs = refl

created_config :
    update_config {V = ℕ} (("hold", 20) ∷ []) (("hold", 5) ∷ ("size", 1) ∷ [])
    ≡ ("hold", 5) ∷ ("size", 1) ∷ []
unfolding update_config insert
created_config = refl

Reached-AllFit_example : AllFit busy.instances
Reached-AllFit_example = Reached-AllFit runtime busy busy_reached

stop_stops_all_example :
    ((stop runtime 9 busy).1 ≡ true)
    × (runs "us_insider_cluster_buy:default" (stop runtime 9 busy).0 ≡ false)
stop_stops_all_example =
    stop_stops_all runtime 9 busy "us_insider_cluster_buy:default" (λ s. refl) busy_reached
