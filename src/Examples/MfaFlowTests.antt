-- ===== src/Examples/MfaFlowTests.antt =====
-- The MFA mode of engines/k6/target_apps_auth_session_mfa_flow.js against
-- target-apps/apps/auth_flow_api.py, and an application that has issued 20 challenges.
use p_loadtesting.Prelude.{
  ℕ, zero, suc, String, ◌≡◌, refl, true, false, Option, some, none, List, [], ◌∷◌, arith,
}
use p_loadtesting.Apps.Auth.{State, Challenge, init}
use p_loadtesting.Apps.Auth.Full.{served_all, mfa_login_start-full}
use p_loadtesting.Apps.Auth.Handlers.{mfa_login_start}
use p_loadtesting.Apps.Auth.Serve.{Client, serve}
use p_loadtesting.Apps.Http.{http_error}
use p_loadtesting.Env.{Env}
use p_loadtesting.Examples.Settings.{env_of, as_int, as_int-ReadsIntegers, digest, digest-IsDigest}
use p_loadtesting.Flows.{Succeeds}
use p_loadtesting.Flows.AuthMfa.{IsMember, mfa_iteration-Succeeds}
use p_loadtesting.Flows.Local.{local_host, local_host-Delivers}
use p_loadtesting.Js.Naturals.{naturals}
use p_loadtesting.Js.Text.{decimal}
use p_loadtesting.K6.{Host, Request, run, get_of}
use p_loadtesting.Scripts.AuthSessionMfa.{iteration}
use p_loadtesting.Scripts.Login.{base_url}

abbrev by_code : Env
by_code = env_of (("FLOW_MODE", "mfa") ∷ [])

by_code-IsMember : IsMember by_code
by_code-IsMember = record {
  mode = refl;
  issues = refl;
  name_lo = omega arith;
  name_hi = omega arith;
  name = omega arith;
  password = refl;
  channel = refl;
}

abbrev code_host : Host (Option ℕ) Client
code_host = local_host (base_url by_code) (serve as_int some digest) (λ url name c. false)

mfa_iteration-Succeeds_example : Succeeds (run (iteration code_host by_code) (init, none))
mfa_iteration-Succeeds_example =
    mfa_iteration-Succeeds as_int some as_int-ReadsIntegers digest digest-IsDigest by_code
      by_code-IsMember init none (omega arith) code_host
      (local_host-Delivers (base_url by_code) (serve as_int some digest) (λ url name c. false))

abbrev used_challenges : ℕ → List (String × Challenge)
used_challenges zero = []
used_challenges (suc n) =
    (
      decimal n,
      record { username = "demo"; channel = "sms"; expected_code = "000000"; used = true },
    )
    ∷ used_challenges n

abbrev full_state : State
full_state = record init { mfa_challenges = used_challenges 20 }

abbrev some_requests : List (Request (Option ℕ) × String)
some_requests = (get_of "", "/api/profile") ∷ []

mfa_login_start-full_example :
    mfa_login_start {Num = Option ℕ} some digest
      (record { username = "demo"; password = "demo-password"; channel = "sms" })
      (served_all as_int some digest some_requests (full_state, none)).0
    ≡ (
      http_error 422 "Too many active MFA challenges; cap is 20.",
      (served_all as_int some digest some_requests (full_state, none)).0,
    )
mfa_login_start-full_example =
    mfa_login_start-full as_int some digest some_requests (full_state, none)
      (record { username = "demo"; password = "demo-password"; channel = "sms" }) (omega arith) refl
