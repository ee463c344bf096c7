-- ===== src/Execution/Laws.antt =====
-- Which options `executionOptions` of engines/k6/lib/execution.js produces.
use Prim.Native.String.{◌++◌}
use p_loadtesting.Prelude.{
  String, ◌≡◌, refl, ap, ◌≢◌, ◌↔◌, ◌⊎◌, true, false, Option, none, some, arith, str_eq, eq_iff,
}
use p_loadtesting.Env.{Env, setting, or_text, override}
use p_loadtesting.Js.Number.{JsNumber}
use p_loadtesting.Js.Text.Decimal.{append-s-eq-0s}
use p_loadtesting.Options.{no_options}
use p_loadtesting.Execution.{
  Defaults, number_from_env, or_default, or_null, seconds, Reading, read, scenario_of,
  thresholds_of, execution_options,
}

-- A value that the helper does not use: unset, empty, or not a finite number.
abbrev pub IsUnusable : {Num : Type 0} → JsNumber Num → Option String → Type 0
IsUnusable num none = Unit
IsUnusable num (some s) = (s ≡ "") ⊎ (num.is_finite (num.parse s) ≡ false)

setting-override_ne :
    (env : Env) (name key fallback : String) (v w : Option String)
    → name ≢ key
    → setting (override env name v) key fallback ≡ setting (override env name w) key fallback
setting-override_ne env name key fallback v w h = ground (arith, eq_iff name key)

module _ {Num : Type 0} ⦃num : JsNumber Num⦄ where
  number_from_env-unusable :
      {A : Type 0} (from : Num → A) (env : Env) (name key : String) (v : Option String)
      (fallback : A)
      → IsUnusable num v
      → number_from_env from (override env name v) key fallback
        ≡ number_from_env from (override env name none) key fallback
  unfolding number_from_env
  number_from_env-unusable from env name key none fallback h = refl
  number_from_env-unusable from env name key (some s) fallback h = ground (arith, eq_iff s "")

  read-unusable :
      (env : Env) (defaults : Defaults Num) (name : String) (v : Option String)
      → name ≢ "DATA_POLICY"
      → IsUnusable num v
      → read (override env name v) defaults ≡ read (override env name none) defaults
  unfolding read
  read-unusable env defaults name v other h = λ i. record {
    vus = or_default defaults.vus (num.of_ℕ 1);
    duration =
        number_from_env-unusable (λ x. x) env name "DURATION_SECONDS" v
          (or_default defaults.duration_seconds (num.of_ℕ 10)) h i;
    ramp_up =
        number_from_env-unusable (λ x. x) env name "RAMP_UP_SECONDS" v
          (or_default defaults.ramp_up_seconds (num.of_ℕ 0)) h i;
    ramp_down =
        number_from_env-unusable (λ x. x) env name "RAMP_DOWN_SECONDS" v
          (or_default defaults.ramp_down_seconds (num.of_ℕ 0)) h i;
    graceful_stop =
        number_from_env-unusable (λ x. x) env name "GRACEFUL_STOP_SECONDS" v
          (or_default defaults.graceful_stop_seconds (num.of_ℕ 10)) h i;
    iteration_limit =
        number_from_env-unusable some env name "ITERATION_LIMIT" v (or_null defaults.iterations) h
          i;
    data_policy =
        setting-override_ne env name "DATA_POLICY" (or_text defaults.data_policy "duration_first") v
          none other i;
  }

  -- A value of a variable other than DATA_POLICY that is empty or not a finite number gives the same
  -- options as no value.
  pub execution_options-unusable :
      (env : Env) (defaults : Defaults Num) (name : String) (v : Option String)
      → name ≢ "DATA_POLICY"
      → IsUnusable num v
      → execution_options (override env name v) defaults
        ≡ execution_options (override env name none) defaults
  unfolding execution_options
  execution_options-unusable env defaults name v other h =
      ap
        (λ r. record no_options {
          thresholds = some (thresholds_of defaults.thresholds);
          scenarios = some (scenario_of r);
        })
        (read-unusable env defaults name v other h)

  scenario_of-no_limit :
      (r : Reading Num)
      → r.data_policy ≢ "iteration_first"
      → scenario_of r ≡ scenario_of (record r { iteration_limit = none })
  unfolding scenario_of
  scenario_of-no_limit r h = ground (arith, eq_iff r.data_policy "iteration_first")

  -- Unless the policy is `iteration_first`, an iteration limit changes nothing.
  pub execution_options-iteration_limit :
      (env : Env) (defaults : Defaults Num) (v : Option String)
      → setting env "DATA_POLICY" (or_text defaults.data_policy "duration_first")
        ≢ "iteration_first"
      → execution_options (override env "ITERATION_LIMIT" v) defaults
        ≡ execution_options env defaults
  unfolding execution_options read
  execution_options-iteration_limit env defaults v h =
      rw (scenario_of-no_limit (read (override env "ITERATION_LIMIT" v) defaults) h)
        (rw (scenario_of-no_limit (read env defaults) h) refl)

  seconds-eq-0s_iff : (x : Num) → (seconds x ≡ "0s") ↔ (num.eq x (num.of_ℕ 0) ≡ true)
  seconds-eq-0s_iff x = (
    λ e. (num.show-zero x).0 (append-s-eq-0s _ e),
    λ e. ap (λ s. s ++ "s") ((num.show-zero x).1 e),
  )

  -- `compactStages` keeps a stage exactly where its number of seconds is not zero.
  pub seconds-is-0s : (x : Num) → str_eq (seconds x) "0s" ≡ num.eq x (num.of_ℕ 0)
  seconds-is-0s x = ground (arith, eq_iff (seconds x) "0s", seconds-eq-0s_iff x)
