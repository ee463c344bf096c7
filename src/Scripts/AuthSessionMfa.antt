-- ===== src/Scripts/AuthSessionMfa.antt =====
-- engines/k6/target_apps_auth_session_mfa_flow.js
use Prim.Native.String.{◌++◌}
use p_loadtesting.Prelude.{ℕ, ◌+◌, ◌*◌, ◌%◌, String, List, [], ◌∷◌, some, str_eq, if◌then◌else◌}
use p_loadtesting.Env.{Env, setting}
use p_loadtesting.Js.Number.{JsNumber}
use p_loadtesting.Js.Outcome.{returned}
use p_loadtesting.Js.Text.{utf16, decimal, pad_start}
use p_loadtesting.Js.Value.{Value, text, number, object, fields}
use p_loadtesting.K6.{
  Host, M, pure, lift, send, check, has_cookie, get_of, post_of, no_payload, json_of, json_content,
  has_status, ◌>>=◌, ◌>>◌,
}
use p_loadtesting.Options.{Options, no_options}
use p_loadtesting.Scripts.Login.{base_url, username, password, bearer}

abbrev pub flow_mode : Env → String
flow_mode env = setting env "FLOW_MODE" "session"

abbrev pub mfa_channel : Env → String
mfa_channel env = setting env "MFA_CHANNEL" "sms"

abbrev pub mfa_issue_mode : Env → String
mfa_issue_mode env = setting env "MFA_ISSUE_MODE" "bearer"

-- The loop of `expectedMfaCode`: the sum of the character codes.
unfoldable pub sum_codes : ℕ → List ℕ → ℕ
sum_codes total [] = total
sum_codes total (c ∷ cs) = sum_codes (total + c) cs

unfoldable pub expected_mfa_code : (username channel : String) → String
unfolding sum_codes utf16 decimal pad_start
expected_mfa_code username channel =
    let total = sum_codes 0 (utf16 (username ++ "|" ++ channel)) in
    pad_start 6 "0" (decimal ((total * 137) % 1000000))

module _ {Num : Type 0} ⦃num : JsNumber Num⦄ where
  unfoldable pub options : Options Num
  options = record no_options {
    vus = some (num.of_ℕ 3);
    iterations = some (num.of_ℕ 4);
    thresholds = some (("http_req_duration", "p(95)<2500" ∷ []) ∷ []);
  }

  abbrev pub session_uses : Env → Num
  session_uses env = num.parse (setting env "SESSION_USES" "2")

  abbrev pub session_body : Env → Value Num
  session_body env = object (
      fields (
        ("username", text (username env))
        ∷ ("password", text (password env))
        ∷ ("session_uses", number (session_uses env))
        ∷ []))

  abbrev pub start_body : Env → Value Num
  start_body env = object (
      fields (
        ("username", text (username env))
        ∷ ("password", text (password env))
        ∷ ("channel", text (mfa_channel env))
        ∷ []))

  abbrev pub verify_body : Env → Value Num → Value Num
  verify_body env challenge_id = object (
      fields (
        ("challenge_id", challenge_id)
        ∷ ("code", text (expected_mfa_code (username env) (mfa_channel env)))
        ∷ ("issue_mode", text (mfa_issue_mode env))
        ∷ ("access_token_uses", number (num.of_ℕ 2))
        ∷ ("refresh_uses", number (num.of_ℕ 1))
        ∷ ("session_uses", number (num.of_ℕ 2))
        ∷ []))

module _ {Num World : Type 0} ⦃num : JsNumber Num⦄ (k6 : Host Num World) (env : Env) where
  -- the branch `FLOW_MODE === 'session'`
  unfoldable pub session_flow : M Num World (Unit {0})
  session_flow = do
    login ←
        send k6
          (post_of (base_url env ++ "/api/session/login") (json_of (session_body env)) json_content)
    has_session ← has_cookie k6 (base_url env) "ploadtesting_demo_session"
    check k6 (
        ("session login ok", has_status 200 login)
        ∷ ("session login set cookie", returned has_session)
        ∷ [])
    profile ← send k6 (get_of (base_url env ++ "/api/session/profile"))
    check k6 (("session profile ok", has_status 200 profile) ∷ [])
    logout ← send k6 (post_of (base_url env ++ "/api/session/logout") no_payload [])
    check k6 (("session logout ok", has_status 200 logout) ∷ [])
    revoked_profile ← send k6 (get_of (base_url env ++ "/api/session/profile"))
    check k6 (("revoked session rejected", has_status 401 revoked_profile) ∷ [])
    pure tt

  -- the end of the MFA flow with `MFA_ISSUE_MODE === 'session'`
  unfoldable pub mfa_session : M Num World (Unit {0})
  mfa_session = do
    session_profile ← send k6 (get_of (base_url env ++ "/api/session/profile"))
    check k6 (("mfa session profile ok", has_status 200 session_profile) ∷ [])
    pure tt

  unfoldable pub mfa_flow : M Num World (Unit {0})
  unfolding mfa_session
  mfa_flow = do
    start ←
        send k6
          (post_of (base_url env ++ "/api/mfa/login/start") (json_of (start_body env)) json_content)
    check k6 (("mfa start ok", has_status 200 start) ∷ [])
    challenge_id ← lift (start.json "challenge_id")
    verify ← send k6 (
        post_of (base_url env ++ "/api/mfa/login/verify") (json_of (verify_body env challenge_id))
          json_content)
    check k6 (("mfa verify ok", has_status 200 verify) ∷ [])
    if str_eq (mfa_issue_mode env) "session" then mfa_session else do
      access_token ← lift (verify.json "access_token")
      profile ←
          send k6
            (record (get_of (base_url env ++ "/api/profile")) { headers = bearer access_token })
      check k6 (("mfa bearer profile ok", has_status 200 profile) ∷ [])
      pure tt

  unfoldable pub iteration : M Num World (Unit {0})
  unfolding session_flow mfa_flow
  iteration = if str_eq (flow_mode env) "session" then session_flow else mfa_flow
