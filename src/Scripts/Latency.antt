-- ===== src/Scripts/Latency.antt =====
-- engines/k6/target_apps_latency_delay.js
use Prim.Native.String.{◌++◌}
use p_loadtesting.Prelude.{String, some, [], ◌∷◌}
use p_loadtesting.Env.{Env, setting}
use p_loadtesting.Js.Number.{JsNumber}
use p_loadtesting.Js.Outcome.{on_value}
use p_loadtesting.Js.Value.{number, strict_equal}
use p_loadtesting.K6.{Host, M, pure, send, check, get_of, has_status, ◌>>=◌, ◌>>◌}
use p_loadtesting.Options.{Options}
use p_loadtesting.Execution.{Defaults, no_defaults, execution_options}

abbrev pub base_url : Env → String
base_url env = setting env "TARGET_URL" "http://127.0.0.1:18081"

abbrev pub delay_ms : Env → String
delay_ms env = setting env "DELAY_MS" "250"

module _ {Num : Type 0} ⦃num : JsNumber Num⦄ where
  abbrev pub defaults : Defaults Num
  defaults = record no_defaults {
    vus = some (num.of_ℕ 10);
    duration_seconds = some (num.of_ℕ 20);
    ramp_up_seconds = some (num.of_ℕ 10);
    thresholds =
        some
          (("http_req_failed", "rate==0" ∷ []) ∷ (("http_req_duration", "p(95)<1500" ∷ []) ∷ ([])));
  }

  unfoldable pub options : Env → Options Num
  options env = execution_options env defaults

module _ {Num World : Type 0} ⦃num : JsNumber Num⦄ (k6 : Host Num World) (env : Env) where
  unfoldable pub iteration : M Num World (Unit {0})
  iteration = do
    response ← send k6 (get_of (base_url env ++ "/api/delay/" ++ delay_ms env))
    check k6 (
        ("delay status is 200", has_status 200 response)
        ∷ (
          "delay value matches",
          on_value (response.json "applied_delay_ms")
              (λ v. strict_equal v (number (num.parse (delay_ms env)))),
        )
        ∷ [])
    pure tt
