-- ===== src/Examples/AuthSessionTests.antt =====
-- engines/k6/target_apps_auth_session_mfa_flow.js against target-apps/apps/auth_flow_api.py, at the
-- defaults of the script.
use p_loadtesting.Prelude.{ℕ, String, refl, Bool, true, false, Option, some, none, [], arith}
use p_loadtesting.Apps.Auth.{init}
use p_loadtesting.Apps.Auth.Serve.{Client, serve}
use p_loadtesting.Env.{Env}
use p_loadtesting.Examples.Settings.{env_of, as_int, as_int-ReadsIntegers, digest, digest-IsDigest}
use p_loadtesting.Flows.{Succeeds}
use p_loadtesting.Flows.AuthSession.{IsVisitor, ShowsCookie, session_iteration-Succeeds}
use p_loadtesting.Flows.Local.{local_host, local_host-Delivers}
use p_loadtesting.Js.Naturals.{naturals}
use p_loadtesting.Js.Text.{decimal}
use p_loadtesting.K6.{Host, run}
use p_loadtesting.Scripts.AuthSessionMfa.{iteration}
use p_loadtesting.Scripts.Login.{base_url}

abbrev is_set : Option String → Bool
is_set none = false
is_set (some _) = true

abbrev pub stored_cookie : String → String → Client → Bool
stored_cookie url name (s, jar) = is_set jar

abbrev pub cookie_host : Env → Host (Option ℕ) Client
cookie_host env = local_host (base_url env) (serve as_int some digest) stored_cookie

abbrev defaults : Env
defaults = env_of []

defaults-IsVisitor : IsVisitor defaults 2
unfolding decimal
defaults-IsVisitor = record {
  mode = refl;
  name_lo = omega arith;
  name_hi = omega arith;
  password = refl;
  uses = refl;
  uses_lo = omega arith;
  uses_hi = omega arith;
}

defaults-ShowsCookie : ShowsCookie (cookie_host defaults) (base_url defaults)
unfolding local_host
defaults-ShowsCookie s cookie = refl

session_iteration-Succeeds_example :
    Succeeds (run (iteration (cookie_host defaults) defaults) (init, none))
session_iteration-Succeeds_example =
    session_iteration-Succeeds as_int some as_int-ReadsIntegers digest digest-IsDigest defaults 2
      defaults-IsVisitor init none (cookie_host defaults)
      (local_host-Delivers (base_url defaults) (serve as_int some digest) stored_cookie)
      defaults-ShowsCookie
