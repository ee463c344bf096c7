-- ===== src/Examples/ExecutionTests.antt =====
-- engines/k6/lib/execution.js at concrete settings.
use p_loadtesting.Prelude.{
  ℕ, String, ◌≡◌, refl, false, some, none, Option, List, [], ◌∷◌, arith, eq_iff, inr, map,
}
use Prim.Native.String.{◌++◌}
use p_loadtesting.Env.{Env, override}
use p_loadtesting.Execution.{Defaults, execution_options, read, scenario_of, compact_stages}
use p_loadtesting.Execution.Laws.{execution_options-unusable, execution_options-iteration_limit}
use p_loadtesting.Execution.Stages.{IsRamp, scenario_of-IsRamp}
use p_loadtesting.Execution.Whole.{
  IsWhole, plan, stage_of, total, execution_options-ramping, execution_options-constant,
  execution_options-shared,
}
use p_loadtesting.Examples.Settings.{env_of}
use p_loadtesting.Js.Naturals.{naturals}
use p_loadtesting.Js.Text.{decimal}
use p_loadtesting.Js.Text.Reading.{read_from}
use p_loadtesting.Options.{Stage, ramping_vus, constant_vus, shared_iterations}

abbrev smoke_defaults : Defaults (Option ℕ)
smoke_defaults = record {
  vus = some (some 10);
  duration_seconds = some (some 20);
  ramp_up_seconds = some (some 10);
  ramp_down_seconds = none;
  graceful_stop_seconds = none;
  iterations = none;
  data_policy = none;
  thresholds = none;
}

abbrev ramp_settings : Env
ramp_settings = env_of (
    ("DURATION_SECONDS", "600")
    ∷ ("RAMP_UP_SECONDS", "30")
    ∷ ("RAMP_DOWN_SECONDS", "0")
    ∷ ("GRACEFUL_STOP_SECONDS", "15")
    ∷ [])

abbrev ramp_stages : List (Stage (Option ℕ))
ramp_stages =
    record { duration = "30s"; target = some 10 }
    ∷ record { duration = "600s"; target = some 10 }
    ∷ []

ramping_test :
    (execution_options ramp_settings smoke_defaults).scenarios
    ≡ some (ramping_vus ramp_stages "15s")
unfolding execution_options decimal read_from
ramping_test = refl

defaults_test :
    (execution_options (env_of []) smoke_defaults).scenarios
    ≡ some (
        ramping_vus
          (record { duration = "10s"; target = some 10 }
            ∷ record { duration = "20s"; target = some 10 }
            ∷ [])
          "10s")
unfolding execution_options decimal read_from
defaults_test = refl

ramp_settings-IsWhole : IsWhole ramp_settings 30 600 0 15
unfolding decimal
ramp_settings-IsWhole = record {
  duration = (refl, omega arith);
  ramp_up = (refl, omega arith);
  ramp_down = (refl, omega arith);
  graceful_stop = (refl, omega arith);
}

execution_options-ramping_example :
    ((execution_options ramp_settings smoke_defaults).scenarios
      ≡ some (ramping_vus (map stage_of (plan 30 600 0 (some 10) (some 0))) (decimal 15 ++ "s")))
    × (total (plan {Num = Option ℕ} 30 600 0 (some 10) (some 0)) ≡ 630)
execution_options-ramping_example =
    execution_options-ramping ramp_settings smoke_defaults 30 600 0 15 ramp_settings-IsWhole
      (omega arith) (λ e. absurd (ground (arith, eq_iff "duration_first" "iteration_first")))

abbrev flat_settings : List (String × String)
flat_settings =
    ("DURATION_SECONDS", "5")
    ∷ ("RAMP_UP_SECONDS", "0")
    ∷ ("RAMP_DOWN_SECONDS", "0")
    ∷ ("GRACEFUL_STOP_SECONDS", "2")
    ∷ []

flat_settings-IsWhole : IsWhole (env_of flat_settings) 0 5 0 2
unfolding decimal
flat_settings-IsWhole = record {
  duration = (refl, omega arith);
  ramp_up = (refl, omega arith);
  ramp_down = (refl, omega arith);
  graceful_stop = (refl, omega arith);
}

execution_options-constant_example :
    (execution_options (env_of flat_settings) smoke_defaults).scenarios
    ≡ some (constant_vus (some 10) (decimal 5 ++ "s") (decimal 2 ++ "s"))
execution_options-constant_example =
    execution_options-constant (env_of flat_settings) smoke_defaults 5 2 flat_settings-IsWhole
      (λ e. absurd (ground (arith, eq_iff "duration_first" "iteration_first")))

abbrev counted_settings : Env
counted_settings = env_of (
    ("ITERATION_LIMIT", "4")
    ∷ ("DATA_POLICY", "iteration_first")
    ∷ ("DURATION_SECONDS", "5")
    ∷ ("RAMP_UP_SECONDS", "0")
    ∷ ("RAMP_DOWN_SECONDS", "0")
    ∷ ("GRACEFUL_STOP_SECONDS", "2")
    ∷ [])

counted_settings-IsWhole : IsWhole counted_settings 0 5 0 2
unfolding decimal
counted_settings-IsWhole = record {
  duration = (refl, omega arith);
  ramp_up = (refl, omega arith);
  ramp_down = (refl, omega arith);
  graceful_stop = (refl, omega arith);
}

counted_limit : counted_settings "ITERATION_LIMIT" ≡ some (decimal 4)
unfolding decimal
counted_limit = refl

execution_options-shared_example :
    (execution_options counted_settings smoke_defaults).scenarios
    ≡ some (shared_iterations (some 10) (some 4) (decimal 7 ++ "s") (decimal 2 ++ "s"))
execution_options-shared_example =
    execution_options-shared counted_settings smoke_defaults 0 5 0 2 4 counted_settings-IsWhole
      (counted_limit, omega arith) (omega arith) (omega arith) refl

not_a_number : (naturals.is_finite (naturals.parse "ten")) ≡ false
unfolding read_from
not_a_number = refl

execution_options-unusable_example :
    execution_options (override ramp_settings "RAMP_UP_SECONDS" (some "ten")) smoke_defaults
    ≡ execution_options (override ramp_settings "RAMP_UP_SECONDS" none) smoke_defaults
execution_options-unusable_example =
    execution_options-unusable ramp_settings smoke_defaults "RAMP_UP_SECONDS" (some "ten")
      (λ e. absurd (ground (arith, eq_iff "RAMP_UP_SECONDS" "DATA_POLICY"))) (inr not_a_number)

execution_options-iteration_limit_example :
    execution_options (override ramp_settings "ITERATION_LIMIT" (some "4")) smoke_defaults
    ≡ execution_options ramp_settings smoke_defaults
execution_options-iteration_limit_example =
    execution_options-iteration_limit ramp_settings smoke_defaults (some "4")
      (λ e. absurd (ground (arith, eq_iff "duration_first" "iteration_first")))

ramp_scenario : scenario_of (read ramp_settings smoke_defaults) ≡ ramping_vus ramp_stages "15s"
unfolding scenario_of read compact_stages decimal read_from
ramp_scenario = refl

scenario_of-IsRamp_example : IsRamp (read ramp_settings smoke_defaults) ramp_stages
scenario_of-IsRamp_example =
    scenario_of-IsRamp (read ramp_settings smoke_defaults) ramp_stages "15s" ramp_scenario
