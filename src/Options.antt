-- ===== src/Options.antt =====
-- The `options` that a script exports to k6: how many virtual users run it, for how long, and the
-- thresholds of the run.
use p_loadtesting.Prelude.{String, Option, List, none}

abbrev pub Thresholds : Type 0
Thresholds = List (String × List String)

pub record Stage (Num : Type 0) : Type 0 where
  pub duration : String
  pub target : Num

-- The scenario `default` of `options.scenarios`, by its `executor`.
pub data Scenario (Num : Type 0) : Type 0 where
  shared_iterations : (vus iterations : Num) (max_duration graceful_stop : String) → Scenario Num
  ramping_vus : (stages : List (Stage Num)) (graceful_stop : String) → Scenario Num
  constant_vus : (vus : Num) (duration graceful_stop : String) → Scenario Num

-- A field that the script leaves out is `none`.
pub record Options (Num : Type 0) : Type 0 where
  pub vus : Option Num
  pub duration : Option String
  pub iterations : Option Num
  pub stages : Option (List (Stage Num))
  pub thresholds : Option Thresholds
  pub scenarios : Option (Scenario Num)

abbrev pub no_options : {Num : Type 0} → Options Num
no_options = record {
  vus = none;
  duration = none;
  iterations = none;
  stages = none;
  thresholds = none;
  scenarios = none;
}
