-- ===== src/Scripts/StressCpu.antt =====
-- engines/k6/stress_cpu.js
use Prim.Native.String.{◌++◌}
use p_loadtesting.Prelude.{String, Bool, true, false, not, some, [], ◌∷◌}
use p_loadtesting.Env.{Env, setting}
use p_loadtesting.Js.Number.{JsNumber}
use p_loadtesting.Js.Outcome.{Outcome, returned, threw, catch, on_value}
use p_loadtesting.Js.Value.{is_number}
use p_loadtesting.K6.{
  Host, M, Response, pure, send, check, get_of, has_status, rate_add, trend_add, ◌>>=◌, ◌>>◌,
}
use p_loadtesting.Options.{Options, no_options}

abbrev pub base_url : Env → String
base_url env = setting env "TARGET_URL" "http://localhost:8000"

module _ {Num : Type 0} where
  -- `try { return typeof r.json(key) === 'number'; } catch { return false; }`
  abbrev pub has_number : String → Response Num → Outcome Bool
  has_number key r = returned (catch false (on_value (r.json key) is_number))

module _ {Num : Type 0} ⦃num : JsNumber Num⦄ where
  unfoldable pub options : Options Num
  options = record no_options {
    stages = some (
        record { duration = "30s"; target = num.of_ℕ 50 }
        ∷ (record { duration = "60s"; target = num.of_ℕ 50 }
            ∷ (record { duration = "10s"; target = num.of_ℕ 0 } ∷ ([]))));
    thresholds = some (
        ("http_req_duration", "p(95)<2000" ∷ [])
        ∷ (("http_req_failed", "rate<0.05" ∷ []) ∷ (("cpu_error_rate", "rate<0.05" ∷ []) ∷ ([]))));
  }

module _ {Num World : Type 0} ⦃num : JsNumber Num⦄ (k6 : Host Num World) (env : Env) where
  -- `if (ok) { try { serverElapsed.add(res.json('elapsed_ms')); } catch (_) {} }`
  unfoldable pub record_elapsed : Bool → Response Num → M Num World (Unit {0})
  record_elapsed true res = elim (res.json "elapsed_ms") [
    | returned elapsed ↦ trend_add "cpu_server_elapsed_ms" elapsed
    | threw ↦ pure tt
  ]
  record_elapsed false res = pure tt

  unfoldable pub iteration : M Num World (Unit {0})
  unfolding record_elapsed
  iteration = do
    res ← send k6 (record (get_of (base_url env ++ "/api/cpu-bound?n=1000000")) {
      tag_name = some "GET /api/cpu-bound";
      timeout = some "30s";
    })
    ok ← check k6 (
        ("HTTP status is 200", has_status 200 res)
        ∷ ("response has elapsed_ms field", has_number "elapsed_ms" res)
        ∷ [])
    rate_add "cpu_error_rate" (not ok)
    record_elapsed ok res
