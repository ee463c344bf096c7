-- ===== src/Scripts/Echo.antt =====
-- engines/k6/target_apps_echo_smoke.js
use Prim.Native.String.{◌++◌}
use p_loadtesting.Prelude.{String, some, [], ◌∷◌}
use p_loadtesting.Env.{Env, setting}
use p_loadtesting.Js.Number.{JsNumber}
use p_loadtesting.Js.Outcome.{on_value}
use p_loadtesting.Js.Text.Uri.{encode_uri_component}
use p_loadtesting.Js.Value.{text, strict_equal}
use p_loadtesting.K6.{Host, M, send, check, get_of, has_status, sleep, ◌>>=◌, ◌>>◌}
use p_loadtesting.Options.{Options}
use p_loadtesting.Execution.{Defaults, no_defaults, execution_options}

abbrev pub base_url : Env → String
base_url env = setting env "TARGET_URL" "http://127.0.0.1:18080"

abbrev pub message : Env → String
message env = setting env "ECHO_MESSAGE" "smoke"

abbrev pub repeat : Env → String
repeat env = setting env "ECHO_REPEAT" "1"

module _ {Num : Type 0} ⦃num : JsNumber Num⦄ where
  abbrev pub defaults : Defaults Num
  defaults = record no_defaults {
    vus = some (num.of_ℕ 1);
    duration_seconds = some (num.of_ℕ 10);
    thresholds =
        some
          (("http_req_failed", "rate==0" ∷ []) ∷ (("http_req_duration", "p(95)<500" ∷ []) ∷ ([])));
  }

  unfoldable pub options : Env → Options Num
  options env = execution_options env defaults

unfoldable pub echo_url : Env → String
unfolding encode_uri_component
echo_url env =
    base_url env
    ++ "/api/echo?message="
    ++ encode_uri_component (message env)
    ++ "&repeat="
    ++ repeat env

module _ {Num World : Type 0} ⦃num : JsNumber Num⦄ (k6 : Host Num World) (env : Env) where
  unfoldable pub iteration : M Num World (Unit {0})
  unfolding echo_url
  iteration = do
    response ← send k6 (get_of (echo_url env))
    check k6 (
        ("echo status is 200", has_status 200 response)
        ∷ (
          "echo payload contains message",
          on_value (response.json "message") (λ v. strict_equal v (text (message env))),
        )
        ∷ [])
    sleep 1
