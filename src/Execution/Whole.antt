-- ===== src/Execution/Whole.antt =====
-- The options of engines/k6/lib/execution.js where the settings are whole numbers of seconds, as
-- the worker passes them.
use Prim.Native.String.{◌++◌}
use p_loadtesting.Prelude.{
  ℕ, ◌+◌, ◌<◌, String, ◌≡◌, ap, ◌∙◌, ◌≢◌, true, some, List, [], ◌∷◌, map, arith, str_eq, eq_iff,
  keep, ltb, ◌==◌,
}
use p_loadtesting.Env.{Env, setting, or_text}
use p_loadtesting.Js.Number.{JsNumber, is_truthy, safe}
use p_loadtesting.Js.Text.{decimal}
use p_loadtesting.Js.Text.Decimal.{decimal-ne-nil}
use p_loadtesting.Options.{Stage, shared_iterations, ramping_vus, constant_vus}
use p_loadtesting.Execution.{
  Defaults, number_from_env, or_default, or_null, seconds, compact_stages, Reading, read,
  scenario_of, execution_options,
}
use p_loadtesting.Execution.Laws.{seconds-is-0s}

-- The variable `name` holds the digits of `n`.
abbrev pub Holds : Env → String → ℕ → Type 0
Holds env name n = (env name ≡ some (decimal n)) × (n < safe)

abbrev pub stage_of : {Num : Type 0} → ℕ × Num → Stage Num
stage_of (n, target) = record { duration = decimal n ++ "s"; target = target }

-- The stages as numbers of seconds and targets, without those of no length.
abbrev pub plan : {Num : Type 0} → ℕ → ℕ → ℕ → Num → Num → List (ℕ × Num)
plan up steady down vus nobody =
    keep (λ p. ltb 0 p.0) ((up, vus) ∷ (steady, vus) ∷ (down, nobody) ∷ [])

abbrev pub total : {Num : Type 0} → List (ℕ × Num) → ℕ
total [] = 0
total ((n, target) ∷ ps) = n + total ps

pub total-plan :
    {Num : Type 0} (u d w : ℕ) (vus nobody : Num) → total (plan u d w vus nobody) ≡ u + d + w
total-plan u d w vus nobody = ground arith

-- The environment holds the four durations of the worker as whole numbers.
pub record IsWhole (env : Env) (up steady down grace : ℕ) : Type 0 where
  pub duration : Holds env "DURATION_SECONDS" steady
  pub ramp_up : Holds env "RAMP_UP_SECONDS" up
  pub ramp_down : Holds env "RAMP_DOWN_SECONDS" down
  pub graceful_stop : Holds env "GRACEFUL_STOP_SECONDS" grace

module _ {Num : Type 0} (num : JsNumber Num) where
  is_positive-of_ℕ : (n : ℕ) → n < safe → num.lt (num.of_ℕ 0) (num.of_ℕ n) ≡ ltb 0 n
  is_positive-of_ℕ n fits = num.lt-of_ℕ 0 n (omega arith) fits

  seconds-of_ℕ : (n : ℕ) → n < safe → seconds ⦃num = num⦄ (num.of_ℕ n) ≡ decimal n ++ "s"
  seconds-of_ℕ n fits = ap (λ s. s ++ "s") (num.show-of_ℕ n fits)

  is_truthy-of_ℕ : (n : ℕ) → 0 < n → n < safe → is_truthy ⦃num = num⦄ (num.of_ℕ n) ≡ true
  is_truthy-of_ℕ n pos fits =
      ground (arith, num.eq-of_ℕ n n fits fits, num.eq-of_ℕ n 0 fits (omega arith))

  is_0s-of_ℕ : (n : ℕ) → n < safe → str_eq (seconds ⦃num = num⦄ (num.of_ℕ n)) "0s" ≡ (n == 0)
  is_0s-of_ℕ n fits = seconds-is-0s ⦃num = num⦄ (num.of_ℕ n) ∙ num.eq-of_ℕ n 0 fits (omega arith)

module _ {Num : Type 0} ⦃num : JsNumber Num⦄ where
  number_from_env-Holds :
      {A : Type 0} (from : Num → A) (env : Env) (name : String) (n : ℕ) (fallback : A)
      → Holds env name n
      → number_from_env from env name fallback ≡ from (num.of_ℕ n)
  unfolding number_from_env
  number_from_env-Holds from env name n fallback (e, fits) = ground (
    arith,
    eq_iff (decimal n) "",
    decimal-ne-nil n,
    num.parse-decimal n fits,
    num.is_finite-of_ℕ n fits,
  )

  compact_stages-of_ℕ :
      (u d w : ℕ) (vus : Num)
      → u < safe
      → d < safe
      → w < safe
      → compact_stages (
          record { duration = seconds (num.of_ℕ u); target = vus }
          ∷ record { duration = seconds (num.of_ℕ d); target = vus }
          ∷ record { duration = seconds (num.of_ℕ w); target = num.of_ℕ 0 }
          ∷ [])
        ≡ map stage_of (plan u d w vus (num.of_ℕ 0))
  unfolding compact_stages
  compact_stages-of_ℕ u d w vus hu hd hw = ground (
    arith,
    is_0s-of_ℕ num u hu,
    is_0s-of_ℕ num d hd,
    is_0s-of_ℕ num w hw,
    seconds-of_ℕ num u hu,
    seconds-of_ℕ num d hd,
    seconds-of_ℕ num w hw,
  )

  abbrev whole : Reading Num → ℕ → ℕ → ℕ → ℕ → Reading Num
  whole r up steady down grace = record r {
    duration = num.of_ℕ steady;
    ramp_up = num.of_ℕ up;
    ramp_down = num.of_ℕ down;
    graceful_stop = num.of_ℕ grace;
  }

  read-whole :
      (env : Env) (defaults : Defaults Num) (up steady down grace : ℕ)
      → IsWhole env up steady down grace
      → read env defaults ≡ whole (read env defaults) up steady down grace
  unfolding read
  read-whole env defaults up steady down grace h = λ i. record {
    vus = or_default defaults.vus (num.of_ℕ 1);
    duration =
        number_from_env-Holds (λ x. x) env "DURATION_SECONDS" steady
          (or_default defaults.duration_seconds (num.of_ℕ 10)) h.duration i;
    ramp_up =
        number_from_env-Holds (λ x. x) env "RAMP_UP_SECONDS" up
          (or_default defaults.ramp_up_seconds (num.of_ℕ 0)) h.ramp_up i;
    ramp_down =
        number_from_env-Holds (λ x. x) env "RAMP_DOWN_SECONDS" down
          (or_default defaults.ramp_down_seconds (num.of_ℕ 0)) h.ramp_down i;
    graceful_stop =
        number_from_env-Holds (λ x. x) env "GRACEFUL_STOP_SECONDS" grace
          (or_default defaults.graceful_stop_seconds (num.of_ℕ 10)) h.graceful_stop i;
    iteration_limit = number_from_env some env "ITERATION_LIMIT" (or_null defaults.iterations);
    data_policy = setting env "DATA_POLICY" (or_text defaults.data_policy "duration_first");
  }

  scenario_of-ramping :
      (r : Reading Num) (up steady down grace : ℕ)
      → up < safe
      → steady < safe
      → down < safe
      → grace < safe
      → 0 < up + down
      → r.data_policy ≢ "iteration_first"
      → scenario_of (whole r up steady down grace)
        ≡ ramping_vus (map stage_of (plan up steady down r.vus (num.of_ℕ 0))) (decimal grace ++ "s")
  unfolding scenario_of
  scenario_of-ramping r up steady down grace hu hs hd hg ramps policy = ground (
    arith,
    is_positive-of_ℕ num up hu,
    is_positive-of_ℕ num down hd,
    seconds-of_ℕ num grace hg,
    compact_stages-of_ℕ up steady down r.vus hu hs hd,
    eq_iff r.data_policy "iteration_first",
  )

  scenario_of-constant :
      (r : Reading Num) (steady grace : ℕ)
      → steady < safe
      → grace < safe
      → r.data_policy ≢ "iteration_first"
      → scenario_of (whole r 0 steady 0 grace)
        ≡ constant_vus r.vus (decimal steady ++ "s") (decimal grace ++ "s")
  unfolding scenario_of
  scenario_of-constant r steady grace hs hg policy = ground (
    arith,
    is_positive-of_ℕ num 0 (omega arith),
    seconds-of_ℕ num steady hs,
    seconds-of_ℕ num grace hg,
    eq_iff r.data_policy "iteration_first",
  )

  scenario_of-shared :
      (r : Reading Num) (up steady down grace limit : ℕ)
      → 0 < limit
      → limit < safe
      → steady + grace < safe
      → r.iteration_limit ≡ some (num.of_ℕ limit)
      → r.data_policy ≡ "iteration_first"
      → scenario_of (whole r up steady down grace)
        ≡ shared_iterations r.vus
            (num.of_ℕ limit)
            (decimal (steady + grace) ++ "s")
            (decimal grace ++ "s")
  unfolding scenario_of
  scenario_of-shared r up steady down grace limit pos fits room found policy = ground (
    arith,
    is_truthy-of_ℕ num limit pos fits,
    num.add-of_ℕ steady grace room,
    seconds-of_ℕ num (steady + grace) room,
    seconds-of_ℕ num grace (omega arith),
    eq_iff r.data_policy "iteration_first",
  )

abbrev pub policy_of : {Num : Type 0} → Env → Defaults Num → String
policy_of env defaults = setting env "DATA_POLICY" (or_text defaults.data_policy "duration_first")

module _ {Num : Type 0} ⦃num : JsNumber Num⦄ where
  abbrev pub vus_of : Defaults Num → Num
  vus_of defaults = or_default defaults.vus (num.of_ℕ 1)

  -- With whole seconds below 2^53 in the four settings, some ramp and a policy other than
  -- `iteration_first`, the options have one ramping scenario: its stages are the ramp up, the load
  -- and the ramp down without those of zero seconds, and they last as long as the three settings
  -- together.
  pub execution_options-ramping :
      (env : Env) (defaults : Defaults Num) (up steady down grace : ℕ)
      → IsWhole env up steady down grace
      → 0 < up + down
      → policy_of env defaults ≢ "iteration_first"
      → ((execution_options env defaults).scenarios
          ≡ some (
              ramping_vus
                (map stage_of (plan up steady down (vus_of defaults) (num.of_ℕ 0)))
                (decimal grace ++ "s")))
        × (total (plan up steady down (vus_of defaults) (num.of_ℕ 0)) ≡ up + steady + down)
  unfolding execution_options read
  execution_options-ramping env defaults up steady down grace h ramps other = (
    ap some (
        ap scenario_of (read-whole env defaults up steady down grace h)
        ∙ scenario_of-ramping (read env defaults) up steady down grace h.ramp_up.1 h.duration.1
            h.ramp_down.1 h.graceful_stop.1 ramps other),
    total-plan up steady down (vus_of defaults) (num.of_ℕ 0),
  )

  -- With whole seconds below 2^53 in the four settings, no ramp and a policy other than
  -- `iteration_first`, the options have one constant scenario of the set duration.
  pub execution_options-constant :
      (env : Env) (defaults : Defaults Num) (steady grace : ℕ)
      → IsWhole env 0 steady 0 grace
      → policy_of env defaults ≢ "iteration_first"
      → (execution_options env defaults).scenarios
        ≡ some (constant_vus (vus_of defaults) (decimal steady ++ "s") (decimal grace ++ "s"))
  unfolding execution_options read
  execution_options-constant env defaults steady grace h other = ap some (
      ap scenario_of (read-whole env defaults 0 steady 0 grace h)
      ∙ scenario_of-constant (read env defaults) steady grace h.duration.1 h.graceful_stop.1 other)

  -- With whole numbers below 2^53 in the five settings, a duration and a graceful stop that are
  -- together below 2^53, the policy `iteration_first` and a positive limit, the options have one
  -- scenario of exactly that many iterations, cut off after the duration and the graceful stop; the
  -- ramps are not used.
  pub execution_options-shared :
      (env : Env) (defaults : Defaults Num) (up steady down grace limit : ℕ)
      → IsWhole env up steady down grace
      → Holds env "ITERATION_LIMIT" limit
      → 0 < limit
      → steady + grace < safe
      → policy_of env defaults ≡ "iteration_first"
      → (execution_options env defaults).scenarios
        ≡ some (
            shared_iterations
              (vus_of defaults)
              (num.of_ℕ limit)
              (decimal (steady + grace) ++ "s")
              (decimal grace ++ "s"))
  unfolding execution_options read
  execution_options-shared env defaults up steady down grace limit h has pos room same = ap some (
      ap scenario_of (read-whole env defaults up steady down grace h)
      ∙ scenario_of-shared (read env defaults) up steady down grace limit pos has.1 room
          (number_from_env-Holds some env "ITERATION_LIMIT" limit (or_null defaults.iterations) has)
          same)
