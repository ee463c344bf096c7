-- ===== src/Scripts/StressIo.antt =====
-- engines/k6/stress_io.js
use Prim.Native.String.{◌++◌}
use p_loadtesting.Prelude.{String, not, some, [], ◌∷◌}
use p_loadtesting.Env.{Env, setting}
use p_loadtesting.Js.Number.{JsNumber}
use p_loadtesting.Js.Outcome.{returned}
use p_loadtesting.K6.{Host, M, send, check, get_of, has_status, rate_add, ◌>>=◌}
use p_loadtesting.Scripts.StressCpu.{has_number}
use p_loadtesting.Options.{Options, no_options}

abbrev pub base_url : Env → String
base_url env = setting env "TARGET_URL" "http://localhost:8000"

module _ {Num : Type 0} ⦃num : JsNumber Num⦄ where
  unfoldable pub options : Options Num
  options = record no_options {
    stages = some (
        record { duration = "0s"; target = num.of_ℕ 200 }
        ∷ (record { duration = "60s"; target = num.of_ℕ 200 } ∷ ([])));
    thresholds = some (
        ("http_req_duration", "p(95)<3500" ∷ [])
        ∷ (("http_req_failed", "rate<0.01" ∷ []) ∷ (("io_error_rate", "rate<0.01" ∷ []) ∷ ([]))));
  }

module _ {Num World : Type 0} ⦃num : JsNumber Num⦄ (k6 : Host Num World) (env : Env) where
  unfoldable pub iteration : M Num World (Unit {0})
  iteration = do
    res ← send k6 (record (get_of (base_url env ++ "/api/io-bound?delay=1.0")) {
      tag_name = some "GET /api/io-bound";
      timeout = some "15s";
    })
    ok ← check k6 (
        ("HTTP status is 200", has_status 200 res)
        ∷ ("response body has delay field", has_number "delay" res)
        ∷ ("response time within expectation", returned (num.lt res.duration (num.of_ℕ 3500)))
        ∷ [])
    rate_add "io_error_rate" (not ok)
