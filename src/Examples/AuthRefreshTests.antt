-- ===== src/Examples/AuthRefreshTests.antt =====
-- engines/k6/target_apps_auth_refresh_flow.js against target-apps/apps/auth_flow_api.py, at concrete
-- settings.
use p_loadtesting.Prelude.{ℕ, String, refl, Bool, false, Option, none, some, [], ◌∷◌, arith}
use p_loadtesting.Apps.Auth.{init}
use p_loadtesting.Apps.Auth.Serve.{Client, serve}
use p_loadtesting.Env.{Env}
use p_loadtesting.Examples.Settings.{env_of, as_int, as_int-ReadsIntegers, digest, digest-IsDigest}
use p_loadtesting.Flows.{Succeeds}
use p_loadtesting.Flows.AuthRefresh.{refresh_iteration-Succeeds}
use p_loadtesting.Flows.RefreshExpiry.{refresh_iteration-fails}
use p_loadtesting.Flows.AuthRefresh.Requests.{IsUser}
use p_loadtesting.Flows.Local.{local_host, local_host-Delivers}
use p_loadtesting.Js.Naturals.{naturals}
use p_loadtesting.Js.Text.{decimal}
use p_loadtesting.K6.{Host, run}
use p_loadtesting.Scripts.AuthRefresh.{iteration}
use p_loadtesting.Scripts.Login.{base_url}

abbrev pub no_cookie : String → String → Client → Bool
no_cookie url name w = false

abbrev pub host : Env → Host (Option ℕ) Client
host env = local_host (base_url env) (serve as_int some digest) no_cookie

abbrev with_failures : Env
with_failures = env_of (("ASSERT_FAILURE_BRANCHES", "1") ∷ ("REFRESH_USES", "1") ∷ [])

with_failures-IsUser : IsUser with_failures 1 1
unfolding decimal
with_failures-IsUser = record {
  name_lo = omega arith;
  name_hi = omega arith;
  password = refl;
  uses = refl;
  refreshes = refl;
  uses_lo = omega arith;
  uses_hi = omega arith;
  refreshes_lo = omega arith;
  refreshes_hi = omega arith;
}

refresh_iteration-Succeeds_example :
    Succeeds (run (iteration (host with_failures) with_failures) (init, none))
refresh_iteration-Succeeds_example =
    refresh_iteration-Succeeds as_int some as_int-ReadsIntegers digest digest-IsDigest with_failures
      1 1 with_failures-IsUser init none (host with_failures)
      (local_host-Delivers (base_url with_failures) (serve as_int some digest) no_cookie) refl

abbrev two_uses : Env
two_uses = env_of (("ACCESS_TOKEN_USES", "2") ∷ [])

two_uses-IsUser : IsUser two_uses 2 2
unfolding decimal
two_uses-IsUser = record {
  name_lo = omega arith;
  name_hi = omega arith;
  password = refl;
  uses = refl;
  refreshes = refl;
  uses_lo = omega arith;
  uses_hi = omega arith;
  refreshes_lo = omega arith;
  refreshes_hi = omega arith;
}

refresh_iteration-fails_example : ¬ Succeeds (run (iteration (host two_uses) two_uses) (init, none))
refresh_iteration-fails_example =
    refresh_iteration-fails as_int some as_int-ReadsIntegers digest digest-IsDigest two_uses 2 2
      two_uses-IsUser init none (host two_uses)
      (local_host-Delivers (base_url two_uses) (serve as_int some digest) no_cookie) (omega arith)
