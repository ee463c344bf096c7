-- ===== src/Scripts/Sse.antt =====
-- engines/k6/target_apps_sse_smoke.js
use Prim.Native.String.{◌++◌}
use p_loadtesting.Prelude.{String, Bool, true, some, [], ◌∷◌, if◌then◌else◌}
use p_loadtesting.Env.{Env, setting}
use p_loadtesting.Js.Number.{JsNumber}
use p_loadtesting.Js.Outcome.{Outcome, returned, threw, and_then}
use p_loadtesting.Js.Text.{includes}
use p_loadtesting.K6.{Host, M, Body, characters, pure, send, check, get_of, has_status, ◌>>=◌, ◌>>◌}
use p_loadtesting.Scripts.Payload.{header_includes}
use p_loadtesting.Options.{Options, no_options}

abbrev pub base_url : Env → String
base_url env = setting env "TARGET_URL" "http://127.0.0.1:18087"

abbrev pub sse_endpoint_path : Env → String
sse_endpoint_path env = setting env "SSE_ENDPOINT_PATH" "/api/events"

abbrev pub sse_interval_ms : Env → String
sse_interval_ms env = setting env "SSE_INTERVAL_MS" "50"

-- `__ENV.SSE_COUNT || __ENV.SSE_STEPS || '5'`
abbrev pub sse_count : Env → String
sse_count env = setting env "SSE_COUNT" (setting env "SSE_STEPS" "5")

unfoldable pub expected_event : Env → String
unfolding includes
expected_event env =
    let path = sse_endpoint_path env in
    if includes path "ticker"
    then "event: ticker"
    else if includes path "progress-heavy"
    then "event: progress-heavy"
    else if includes path "progress"
    then "event: progress"
    else "event: message"

unfoldable pub count_param : Env → String
unfolding includes
count_param env = if includes (sse_endpoint_path env) "progress" then "steps" else "count"

unfoldable pub sse_url : Env → String
unfolding count_param
sse_url env =
    base_url env
    ++ sse_endpoint_path env
    ++ "?"
    ++ count_param env
    ++ "="
    ++ sse_count env
    ++ "&interval_ms="
    ++ sse_interval_ms env
    ++ "&deterministic=true"

-- `r.body.includes(piece)`: a body that is no text has no `includes`.
unfoldable pub body_includes : String → Body → Outcome Bool
unfolding includes
body_includes piece (characters s) = returned (includes s piece)
body_includes piece _ = threw

-- `!SSE_ENDPOINT_PATH.includes('progress-heavy') || (… && …)`
unfoldable pub has_metadata : Env → Body → Outcome Bool
unfolding body_includes
has_metadata env body =
    if includes (sse_endpoint_path env) "progress-heavy"
    then and_then (body_includes "\"phase\":\"" body) (body_includes "\"metrics\":" body)
    else returned true

module _ {Num : Type 0} ⦃num : JsNumber Num⦄ where
  unfoldable pub options : Options Num
  options = record no_options {
    vus = some (num.of_ℕ 1);
    iterations = some (num.of_ℕ 3);
    thresholds =
        some
          (("http_req_failed", "rate==0" ∷ []) ∷ (("http_req_duration", "p(95)<5000" ∷ []) ∷ ([])));
  }

module _ {Num World : Type 0} ⦃num : JsNumber Num⦄ (k6 : Host Num World) (env : Env) where
  unfoldable pub iteration : M Num World (Unit {0})
  unfolding sse_url expected_event has_metadata
  iteration = do
    response ← send k6 (record (get_of (sse_url env)) { timeout = some "10s" })
    check k6 (
        ("sse status is 200", has_status 200 response)
        ∷ (
          "sse content-type is event-stream",
          header_includes "Content-Type" "text/event-stream" response,
        )
        ∷ ("sse body contains expected event", body_includes (expected_event env) response.body)
        ∷ ("sse body contains data lines", body_includes "data:" response.body)
        ∷ ("sse progress-heavy contains richer metadata", has_metadata env response.body)
        ∷ [])
    pure tt
