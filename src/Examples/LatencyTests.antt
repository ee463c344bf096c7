-- ===== src/Examples/LatencyTests.antt =====
-- engines/k6/target_apps_latency_delay.js against target-apps/apps/latency_api.py on two settings.
use p_loadtesting.Prelude.{
  ℕ, String, refl, ◌≡◌, ◌≤◌, ◌↔◌, false, Option, some, none, [], ◌∷◌, arith,
}
use p_loadtesting.Apps.Http.{Reply, http_error}
use p_loadtesting.Apps.Latency.{serve, timeout_simulation}
use p_loadtesting.Env.{Env}
use p_loadtesting.Examples.Settings.{env_of, path_int, path_int-ReadsPaths}
use p_loadtesting.Flows.{Succeeds}
use p_loadtesting.Flows.Latency.{latency_iteration-Succeeds_iff}
use p_loadtesting.Flows.Local.{local_host, local_host-Delivers}
use p_loadtesting.Js.Naturals.{naturals}
use p_loadtesting.Js.Text.{decimal}
use p_loadtesting.K6.{Host, Request, run}
use p_loadtesting.Scripts.Latency.{iteration, base_url}

abbrev elsewhere : Request (Option ℕ) → String → Reply (Option ℕ)
elsewhere req path = http_error 404 "Not Found"

timeout_statuses : (timeout_simulation {Num = Option ℕ} some none).status ≡ 504
unfolding timeout_simulation
timeout_statuses = refl

abbrev slow : Env
slow = env_of (("DELAY_MS", "5001") ∷ [])

abbrev latency_host : Host (Option ℕ) (Unit {0})
latency_host = local_host (base_url slow) (serve some path_int elsewhere) (λ url name s. false)

latency_iteration-Succeeds_iff_example :
    Succeeds (run (iteration latency_host slow) tt) ↔ (5001 ≤ 5000)
unfolding decimal
latency_iteration-Succeeds_iff_example =
    latency_iteration-Succeeds_iff path_int path_int-ReadsPaths elsewhere slow 5001 refl
      (omega arith) latency_host
      (local_host-Delivers (base_url slow) (serve some path_int elsewhere) (λ url name s. false))
