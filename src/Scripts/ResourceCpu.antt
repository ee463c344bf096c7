-- ===== src/Scripts/ResourceCpu.antt =====
-- engines/k6/target_apps_resource_cpu.js
use Prim.Native.String.{◌++◌}
use p_loadtesting.Prelude.{String, some, [], ◌∷◌}
use p_loadtesting.Env.{Env, setting}
use p_loadtesting.Js.Number.{JsNumber}
use p_loadtesting.Js.Outcome.{on_value}
use p_loadtesting.Js.Value.{is_number}
use p_loadtesting.K6.{Host, M, pure, send, check, get_of, has_status, ◌>>=◌, ◌>>◌}
use p_loadtesting.Options.{Options, no_options}

abbrev pub base_url : Env → String
base_url env = setting env "TARGET_URL" "http://127.0.0.1:18083"

abbrev pub iterations : Env → String
iterations env = setting env "CPU_ITERATIONS" "250000"

module _ {Num : Type 0} ⦃num : JsNumber Num⦄ where
  unfoldable pub options : Options Num
  options = record no_options {
    stages = some (
        record { duration = "10s"; target = num.of_ℕ 10 }
        ∷ (record { duration = "20s"; target = num.of_ℕ 10 } ∷ ([])));
    thresholds =
        some
          (("http_req_failed", "rate==0" ∷ []) ∷ (("http_req_duration", "p(95)<3000" ∷ []) ∷ ([])));
  }

module _ {Num World : Type 0} ⦃num : JsNumber Num⦄ (k6 : Host Num World) (env : Env) where
  unfoldable pub iteration : M Num World (Unit {0})
  iteration = do
    response ← send k6 (get_of (base_url env ++ "/api/cpu?iterations=" ++ iterations env))
    check k6 (
        ("resource cpu status is 200", has_status 200 response)
        ∷ ("resource cpu has checksum", on_value (response.json "checksum") is_number)
        ∷ [])
    pure tt
