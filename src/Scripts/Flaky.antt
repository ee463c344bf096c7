-- ===== src/Scripts/Flaky.antt =====
-- engines/k6/target_apps_error_flaky.js
use Prim.Native.String.{◌++◌}
use p_loadtesting.Prelude.{String, ◌||◌, some, [], ◌∷◌, ◌==◌}
use p_loadtesting.Env.{Env, setting}
use p_loadtesting.Js.Number.{JsNumber}
use p_loadtesting.Js.Outcome.{returned}
use p_loadtesting.Js.Text.Uri.{encode_uri_component}
use p_loadtesting.K6.{Host, M, pure, send, check, get_of, ◌>>=◌, ◌>>◌}
use p_loadtesting.Options.{Options, no_options}

abbrev pub base_url : Env → String
base_url env = setting env "TARGET_URL" "http://127.0.0.1:18082"

abbrev pub rate : Env → String
rate env = setting env "FLAKY_RATE" "0.5"

abbrev pub request_key : Env → String
request_key env = setting env "FLAKY_REQUEST_KEY" "ci"

module _ {Num : Type 0} ⦃num : JsNumber Num⦄ where
  unfoldable pub options : Options Num
  options = record no_options {
    vus = some (num.of_ℕ 5);
    duration = some "15s";
    thresholds = some (("http_req_duration", "p(95)<1000" ∷ []) ∷ ([]));
  }

unfoldable pub flaky_url : Env → String
unfolding encode_uri_component
flaky_url env =
    base_url env
    ++ "/api/flaky?rate="
    ++ rate env
    ++ "&deterministic=true&request_key="
    ++ encode_uri_component (request_key env)

module _ {Num World : Type 0} ⦃num : JsNumber Num⦄ (k6 : Host Num World) (env : Env) where
  unfoldable pub iteration : M Num World (Unit {0})
  unfolding flaky_url
  iteration = do
    response ← send k6 (get_of (flaky_url env))
    check k6 (
        (
          "flaky result is deterministic terminal status",
          returned ((response.status == 200) || (response.status == 503)),
        )
        ∷ [])
    pure tt
