-- ===== src/Execution.antt =====
-- engines/k6/lib/execution.js (workers/engines/k6/lib/execution.js is the same file): the k6
-- options of a script, from its defaults and the execution metadata that the worker passes in the
-- environment.
pub mod Laws
pub mod Stages
pub mod Whole
use Prim.Native.String.{◌++◌}
use p_loadtesting.Prelude.{
  String, not, ◌&&◌, ◌||◌, Option, none, some, List, [], ◌∷◌, str_eq, keep, if◌then◌else◌,
}
use p_loadtesting.Env.{Env, setting, or_text}
use p_loadtesting.Js.Number.{JsNumber, is_truthy, or_number}
use p_loadtesting.Options.{
  Thresholds, Stage, Scenario, shared_iterations, ramping_vus, constant_vus, Options, no_options,
}

-- The argument of `executionOptions`; a field that the script leaves out is `none`.
pub record Defaults (Num : Type 0) : Type 0 where
  pub vus : Option Num
  pub duration_seconds : Option Num
  pub ramp_up_seconds : Option Num
  pub ramp_down_seconds : Option Num
  pub graceful_stop_seconds : Option Num
  pub iterations : Option Num
  pub data_policy : Option String
  pub thresholds : Option Thresholds

abbrev pub no_defaults : {Num : Type 0} → Defaults Num
no_defaults = record {
  vus = none;
  duration_seconds = none;
  ramp_up_seconds = none;
  ramp_down_seconds = none;
  graceful_stop_seconds = none;
  iterations = none;
  data_policy = none;
  thresholds = none;
}

-- The values that `executionOptions` reads before it chooses an executor.
pub record Reading (Num : Type 0) : Type 0 where
  pub vus : Num
  pub duration : Num
  pub ramp_up : Num
  pub ramp_down : Num
  pub graceful_stop : Num
  pub iteration_limit : Option Num
  pub data_policy : String

-- `defaults.thresholds || {}`
abbrev pub thresholds_of : Option Thresholds → Thresholds
thresholds_of none = []
thresholds_of (some t) = t

module _ {Num : Type 0} ⦃num : JsNumber Num⦄ where
  -- The fallback is a number or, for ITERATION_LIMIT, may be null; `from` takes a number to that type.
  unfoldable pub number_from_env : {A : Type 0} → (Num → A) → Env → String → A → A
  number_from_env from env name fallback = elim (env name) [
    | none ↦ fallback
    | some value ↦
        if str_eq value ""
        then fallback
        else if num.is_finite (num.parse value)
        then from (num.parse value)
        else fallback
  ]

  -- `defaults.field || fallback`
  abbrev pub or_default : Option Num → Num → Num
  or_default none fallback = fallback
  or_default (some x) fallback = or_number x fallback

  -- `defaults.iterations || null`
  abbrev pub or_null : Option Num → Option Num
  or_null none = none
  or_null (some x) = if is_truthy x then some x else none

  -- `${seconds}s`
  abbrev pub seconds : Num → String
  seconds x = num.show x ++ "s"

  unfoldable pub compact_stages : List (Stage Num) → List (Stage Num)
  compact_stages stages = keep (λ stage. not (str_eq stage.duration "0s")) stages

  unfoldable pub read : Env → Defaults Num → Reading Num
  unfolding number_from_env
  read env defaults = record {
    vus = or_default defaults.vus (num.of_ℕ 1);
    duration =
        number_from_env (λ x. x) env "DURATION_SECONDS"
          (or_default defaults.duration_seconds (num.of_ℕ 10));
    ramp_up =
        number_from_env (λ x. x) env "RAMP_UP_SECONDS"
          (or_default defaults.ramp_up_seconds (num.of_ℕ 0));
    ramp_down =
        number_from_env (λ x. x) env "RAMP_DOWN_SECONDS"
          (or_default defaults.ramp_down_seconds (num.of_ℕ 0));
    graceful_stop =
        number_from_env (λ x. x) env "GRACEFUL_STOP_SECONDS"
          (or_default defaults.graceful_stop_seconds (num.of_ℕ 10));
    iteration_limit = number_from_env some env "ITERATION_LIMIT" (or_null defaults.iterations);
    data_policy = setting env "DATA_POLICY" (or_text defaults.data_policy "duration_first");
  }

  -- The three executors, in the order of the source's returns.
  unfoldable pub scenario_of : Reading Num → Scenario Num
  scenario_of r =
      let timed =
        if num.lt (num.of_ℕ 0) r.ramp_up || num.lt (num.of_ℕ 0) r.ramp_down
        then ramping_vus
            (compact_stages (
              record { duration = seconds r.ramp_up; target = r.vus }
              ∷ record { duration = seconds r.duration; target = r.vus }
              ∷ record { duration = seconds r.ramp_down; target = num.of_ℕ 0 }
              ∷ []))
            (seconds r.graceful_stop)
        else constant_vus r.vus (seconds r.duration) (seconds r.graceful_stop) in
      elim r.iteration_limit [
        | none ↦ timed
        | some limit ↦
            if is_truthy limit && str_eq r.data_policy "iteration_first"
            then shared_iterations r.vus limit (seconds (num.add r.duration r.graceful_stop))
                (seconds r.graceful_stop)
            else timed
      ]

  unfoldable pub execution_options : Env → Defaults Num → Options Num
  unfolding read scenario_of compact_stages
  execution_options env defaults = record no_options {
    thresholds = some (thresholds_of defaults.thresholds);
    scenarios = some (scenario_of (read env defaults));
  }
