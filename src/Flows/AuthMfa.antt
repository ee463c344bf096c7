-- ===== src/Flows/AuthMfa.antt =====
-- One iteration of engines/k6/target_apps_auth_session_mfa_flow.js in its MFA mode against
-- target-apps/apps/auth_flow_api.py, which issues a bearer token.
pub mod Requests
use Prim.Native.String.{◌++◌, count}
use p_loadtesting.Prelude.{
  ℕ, ◌+◌, ◌*◌, ◌%◌, ◌≤◌, ◌<◌, String, ◌≡◌, refl, ap, ◌∙◌, true, false, Option, some, none, [], ◌∷◌,
  arith, length, lookup, insert, str_eq, eq_iff, eq_refl, leb, Bool-cases, inl, inr,
}
use p_loadtesting.Apps.Auth as Server
use p_loadtesting.Apps.Auth.{
  Token, State, Challenge, issue_mfa_challenge, issue_access_token, issue_refresh_token, token_of,
  fresh_token, sum_bytes,
}
use p_loadtesting.Apps.Auth.Handlers.{
  mfa_login_start, mfa_login_verify, mfa_issue, tokens_body, last_two,
}
use p_loadtesting.Apps.Auth.Laws.{spend, profile_of, lookup-insert_self}
use p_loadtesting.Apps.Auth.Requests.{MfaVerifyRequest, mfa_start_request, mfa_verify_request}
use p_loadtesting.Apps.Auth.Serve.{Client, serve, serve-handled, with_body-decoded}
use p_loadtesting.Apps.Auth.Served.{with_access, profile_served-live}
use p_loadtesting.Apps.Http.{Reply, reply}
use p_loadtesting.Env.{Env}
use p_loadtesting.Flows.{
  Delivers, ReadsIntegers, IsDigest, Succeeds, send-Delivers, status-Delivers, check-Delivers,
}
use p_loadtesting.Flows.AuthMfa.Requests.{
  count-expected_mfa_code, start_request-fits, verify_request-fits, mfa_login_verify-matches,
}
use p_loadtesting.Flows.MfaCode.{IsAscii, expected_mfa_code-IsAscii}
use p_loadtesting.Js.Number.{JsNumber}
use p_loadtesting.Js.Text.Reading.Width.{count-pad_start}
use p_loadtesting.Js.Text.{utf8}
use p_loadtesting.Js.Value.{Value, to_text, text, number, object, fields, field, end}
use p_loadtesting.K6.{Host, Request, run, post_of, get_of, json_of, json_content}
use p_loadtesting.Scripts.AuthSessionMfa as Script
use p_loadtesting.Scripts.AuthSessionMfa.{
  flow_mode, mfa_channel, mfa_issue_mode, start_body, verify_body, iteration, mfa_flow,
}
use p_loadtesting.Scripts.Login.{base_url, username, password}

-- The settings are those of a user who logs in with a code, for a bearer token.
pub record IsMember (env : Env) : Type 0 where
  pub mode : str_eq (flow_mode env) "session" ≡ false
  pub issues : mfa_issue_mode env ≡ "bearer"
  pub name_lo : 1 ≤ count (username env)
  pub name_hi : count (username env) ≤ 64
  pub name : IsAscii (username env)
  pub password : password env ≡ "demo-password"
  pub channel : mfa_channel env ≡ "sms"

module _ {Num : Type 0} ⦃num : JsNumber Num⦄ (as_int : Value Num → Option ℕ) (of_int : ℕ → Num)
    (ints : ReadsIntegers num as_int) (hash : String → String) (digest : IsDigest hash) (env : Env)
    (h : IsMember env) (s : State) (jar : Option String) (room : length s.mfa_challenges < 20) where
  abbrev user : String
  user = username env

  abbrev id : String
  id = token_of hash "demo-mfa" (user ++ "|" ++ "sms") s.token_counter

  abbrev challenge : Challenge
  challenge = record {
    username = user;
    channel = "sms";
    expected_code = Server.expected_mfa_code user "sms";
    used = false;
  }

  abbrev in_start : State
  in_start = record s {
    mfa_challenges = insert id challenge s.mfa_challenges;
    token_counter = s.token_counter + 1;
  }

  abbrev token : String
  token = token_of hash "demo-access" user in_start.token_counter

  abbrev refresh_token : String
  refresh_token = token_of hash "demo-refresh" user (in_start.token_counter + 1)

  abbrev in_verify : State
  in_verify = record in_start {
    mfa_challenges = insert id (record challenge { used = true }) in_start.mfa_challenges;
    access_tokens = insert token (fresh_token user 2) s.access_tokens;
    refresh_tokens = insert refresh_token (fresh_token user 1) s.refresh_tokens;
    token_counter = in_start.token_counter + 1 + 1;
  }

  abbrev start_reply : Reply Num
  start_reply = reply 200 (
      field "challenge_id" (text id) (
        field "channel" (text "sms") (
          field "demo_code_rule" (text "deterministic-sum-x137-mod-1000000") (
            field "code_hint_suffix" (text (last_two (Server.expected_mfa_code user "sms"))) end))))

  abbrev verify_reply : Reply Num
  verify_reply = reply 200 (
      field "issue_mode" (text "bearer")
        (tokens_body of_int token refresh_token 2 1 (field "channel" (text "sms") end)))

  start_handled :
      mfa_login_start of_int hash
        (record { username = user; password = "demo-password"; channel = "sms" })
        s
      ≡ (start_reply, in_start)
  unfolding mfa_login_start issue_mfa_challenge
  start_handled = ground arith

  code_matches :
      Script.expected_mfa_code user (mfa_channel env) ≡ Server.expected_mfa_code user "sms"
  code_matches =
      ap (Script.expected_mfa_code user) h.channel
      ∙ expected_mfa_code-IsAscii user "sms" h.name (omega arith, (omega arith, (omega arith, tt)))

  abbrev verification : MfaVerifyRequest
  verification = record {
    challenge_id = id;
    code = Server.expected_mfa_code user "sms";
    issue_mode = "bearer";
    access_token_uses = 2;
    refresh_uses = 1;
    session_uses = 2;
  }

  verify_handled : mfa_login_verify of_int hash verification in_start ≡ (verify_reply, in_verify)
  unfolding mfa_issue issue_access_token issue_refresh_token
  verify_handled =
      mfa_login_verify-matches of_int hash verification challenge in_start
        (lookup-insert_self id challenge s.mfa_challenges) refl refl

  abbrev start_request : Request Num
  start_request =
      post_of (base_url env ++ "/api/mfa/login/start") (json_of (start_body env)) json_content

  start_served :
      serve as_int of_int hash start_request "/api/mfa/login/start" (s, jar)
      ≡ (start_reply, (in_start, jar))
  start_served =
      serve-handled as_int of_int hash start_request "/api/mfa/login/start" s in_start jar
        start_reply
        (with_body-decoded (mfa_start_request as_int) (mfa_login_start of_int hash) (start_body env)
            _ s
            (start_request-fits as_int user (password env) (mfa_channel env) h.name_lo h.name_hi
              h.password h.channel)
          ∙ start_handled)

  verify_decoded : mfa_verify_request as_int (verify_body env (text id)) ≡ some verification
  verify_decoded =
      verify_request-fits as_int id (Script.expected_mfa_code user (mfa_channel env))
        (mfa_issue_mode env) (num.of_ℕ 2) (num.of_ℕ 1) (digest _)
        (ap count code_matches ∙ count-expected_mfa_code user "sms") h.issues
        (ints.as_int-of_ℕ 2 (omega arith)) (ints.as_int-of_ℕ 1 (omega arith))
      ∙ ap (λ code. some (record verification { code = code })) code_matches

  abbrev verify_request : Request Num
  verify_request =
      post_of (base_url env ++ "/api/mfa/login/verify") (json_of (verify_body env (text id)))
        json_content

  verify_served :
      serve as_int of_int hash verify_request "/api/mfa/login/verify" (in_start, jar)
      ≡ (verify_reply, (in_verify, jar))
  verify_served =
      serve-handled as_int of_int hash verify_request "/api/mfa/login/verify" in_start in_verify jar
        verify_reply
        (with_body-decoded (mfa_verify_request as_int) (mfa_login_verify of_int hash)
            (verify_body env (text id)) verification in_start verify_decoded
          ∙ verify_handled)

  abbrev profile_request : Request Num
  profile_request = record (get_of (base_url env ++ "/api/profile")) {
    headers = ("Authorization", "Bearer " ++ token) ∷ [];
  }

  abbrev profile_reply : Reply Num
  profile_reply = reply 200 (profile_of user)

  abbrev in_profile : State
  in_profile = with_access token (spend (fresh_token user 2)) in_verify

  profile_served :
      serve as_int of_int hash profile_request "/api/profile" (in_verify, jar)
      ≡ (profile_reply, (in_profile, jar))
  profile_served =
      profile_served-live as_int of_int hash (base_url env ++ "/api/profile") token []
        (fresh_token user 2) in_verify jar
        (lookup-insert_self token (fresh_token user 2) s.access_tokens) refl (omega arith)

  mfa_flow-Succeeds :
      (k6 : Host Num Client)
      → Delivers k6 (base_url env) (serve as_int of_int hash)
      → Succeeds (run (mfa_flow k6 env) (s, jar))
  unfolding mfa_flow to_text
  mfa_flow-Succeeds k6 d =
      rw
        (
          send-Delivers d start_request "/api/mfa/login/start" (s, jar) (in_start, jar) start_reply
              refl start_served,
          check-Delivers d "mfa start ok" 200 start_reply refl,
          d.json start_reply "challenge_id",
          send-Delivers d verify_request "/api/mfa/login/verify" (in_start, jar) (in_verify, jar)
              verify_reply refl verify_served,
          check-Delivers d "mfa verify ok" 200 verify_reply refl,
          h.issues,
          d.json verify_reply "access_token",
          send-Delivers d profile_request "/api/profile" (in_verify, jar) (in_profile, jar)
              profile_reply refl profile_served,
          check-Delivers d "mfa bearer profile ok" 200 profile_reply refl,
        )
        (
          (status-Delivers d 200 profile_reply refl, tt),
          (
            (status-Delivers d 200 verify_reply refl, tt),
            ((status-Delivers d 200 start_reply refl, tt), tt),
          ),
        )

  -- Against the auth application in any state with fewer than 20 MFA challenges, an iteration of the
  -- script in its MFA mode, for a bearer token and by text message, ends without an exception and
  -- all its checks pass, for a user name of 1 to 64 ASCII characters and the demo password.
  pub mfa_iteration-Succeeds :
      (k6 : Host Num Client)
      → Delivers k6 (base_url env) (serve as_int of_int hash)
      → Succeeds (run (iteration k6 env) (s, jar))
  unfolding iteration
  mfa_iteration-Succeeds k6 d = ground (arith, mfa_flow-Succeeds k6 d, h.mode)
