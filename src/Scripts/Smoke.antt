-- ===== src/Scripts/Smoke.antt =====
-- engines/k6/smoke.js
use Prim.Native.String.{◌++◌}
use p_loadtesting.Prelude.{String, not, some, [], ◌∷◌}
use p_loadtesting.Env.{Env, setting}
use p_loadtesting.Js.Number.{JsNumber}
use p_loadtesting.Js.Outcome.{returned, on_value}
use p_loadtesting.Js.Value.{text, strict_equal}
use p_loadtesting.K6.{Host, M, pure, send, check, get_of, has_status, rate_add, sleep, ◌>>=◌, ◌>>◌}
use p_loadtesting.Options.{Options, no_options}

abbrev pub base_url : Env → String
base_url env = setting env "TARGET_URL" "http://localhost:8000"

module _ {Num : Type 0} ⦃num : JsNumber Num⦄ where
  unfoldable pub options : Options Num
  options = record no_options {
    vus = some (num.of_ℕ 1);
    duration = some "10s";
    thresholds = some (
        ("http_req_failed", "rate==0" ∷ [])
        ∷ (("http_req_duration", "p(99)<500" ∷ []) ∷ (("error_rate", "rate==0" ∷ []) ∷ ([]))));
  }

module _ {Num World : Type 0} ⦃num : JsNumber Num⦄ (k6 : Host Num World) (env : Env) where
  unfoldable pub iteration : M Num World (Unit {0})
  iteration = do
    res ←
        send k6
          (record (get_of (base_url env ++ "/api/health")) { tag_name = some "GET /api/health" })
    success ← check k6 (
        ("HTTP status is 200", has_status 200 res)
        ∷ (
          "response body contains ok",
          on_value (res.json "status") (λ v. strict_equal v (text "ok")),
        )
        ∷ ("response time < 500ms", returned (num.lt res.duration (num.of_ℕ 500)))
        ∷ [])
    rate_add "error_rate" (not success)
    sleep 1
    pure tt
