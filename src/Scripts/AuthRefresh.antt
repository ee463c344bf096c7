-- ===== src/Scripts/AuthRefresh.antt =====
-- engines/k6/target_apps_auth_refresh_flow.js
use Prim.Native.String.{◌++◌}
use p_loadtesting.Prelude.{String, Bool, false, [], ◌∷◌, Option, none, some, str_eq, if◌then◌else◌}
use p_loadtesting.Env.{Env, setting}
use p_loadtesting.Js.Number.{JsNumber}
use p_loadtesting.Js.Value.{Value, text, number, object, fields, to_text}
use p_loadtesting.K6.{
  Host, M, pure, lift, send, check, get_of, post_of, no_payload, json_of, json_content, has_status,
  ◌>>=◌, ◌>>◌,
}
use p_loadtesting.Options.{Options, no_options}
use p_loadtesting.Scripts.Login.{base_url, username, password, bearer}

abbrev is_one : Option String → Bool
is_one none = false
is_one (some s) = str_eq s "1"

abbrev pub assert_failure_branches : Env → Bool
assert_failure_branches env = is_one (env "ASSERT_FAILURE_BRANCHES")

module _ {Num : Type 0} ⦃num : JsNumber Num⦄ where
  unfoldable pub options : Options Num
  options = record no_options {
    vus = some (num.of_ℕ 3);
    iterations = some (num.of_ℕ 4);
    thresholds = some (("http_req_duration", "p(95)<2500" ∷ []) ∷ []);
  }

  abbrev pub access_token_uses : Env → Num
  access_token_uses env = num.parse (setting env "ACCESS_TOKEN_USES" "1")

  abbrev pub refresh_uses : Env → Num
  refresh_uses env = num.parse (setting env "REFRESH_USES" "2")

  abbrev pub login_body : Env → Value Num
  login_body env = object (
      fields (
        ("username", text (username env))
        ∷ ("password", text (password env))
        ∷ ("access_token_uses", number (access_token_uses env))
        ∷ ("refresh_uses", number (refresh_uses env))
        ∷ []))

  abbrev pub bad_login_body : Env → Value Num
  bad_login_body env =
      object (fields (("username", text (username env)) ∷ ("password", text "bad-password") ∷ []))

  abbrev pub refresh_body : Env → Value Num → Value Num
  refresh_body env refresh_token = object (
      fields (
        ("refresh_token", refresh_token)
        ∷ ("access_token_uses", number (num.add (access_token_uses env) (num.of_ℕ 1)))
        ∷ []))

module _ {Num World : Type 0} ⦃num : JsNumber Num⦄ (k6 : Host Num World) (env : Env) where
  -- `if (ASSERT_FAILURE_BRANCHES) { … }`
  unfoldable pub failure_branches : M Num World (Unit {0})
  failure_branches =
      if assert_failure_branches env
      then (do
        bad_login ←
            send k6
              (post_of (base_url env ++ "/api/login") (json_of (bad_login_body env)) json_content)
        check k6 (("bad login is rejected", has_status 401 bad_login) ∷ [])
        pure tt)
      else pure tt

  -- The default function from the refresh on.
  unfoldable pub after_expiry : Value Num → M Num World (Unit {0})
  after_expiry refresh_token = do
    refresh ← send k6 (
        post_of (base_url env ++ "/api/refresh") (json_of (refresh_body env refresh_token))
          json_content)
    check k6 (("refresh ok", has_status 200 refresh) ∷ [])
    refreshed_access_token ← lift (refresh.json "access_token")
    let refreshed_headers =
        ("Authorization", "Bearer " ++ to_text refreshed_access_token) ∷ json_content
    refreshed_profile ←
        send k6 (record (get_of (base_url env ++ "/api/profile")) { headers = refreshed_headers })
    check k6 (("refreshed profile ok", has_status 200 refreshed_profile) ∷ [])
    logout ←
        send k6 (post_of (base_url env ++ "/api/logout") no_payload (bearer refreshed_access_token))
    check k6 (("logout ok", has_status 200 logout) ∷ [])
    revoked_profile ← send k6 (record (get_of (base_url env ++ "/api/profile")) {
      headers = bearer refreshed_access_token;
    })
    check k6 (("revoked profile rejected", has_status 401 revoked_profile) ∷ [])
    pure tt

  -- The default function from the login on.
  unfoldable pub refresh_flow : M Num World (Unit {0})
  refresh_flow = do
    login ← send k6 (post_of (base_url env ++ "/api/login") (json_of (login_body env)) json_content)
    check k6 (("login ok", has_status 200 login) ∷ [])
    access_token ← lift (login.json "access_token")
    refresh_token ← lift (login.json "refresh_token")
    let auth_headers = bearer access_token
    first_profile ←
        send k6 (record (get_of (base_url env ++ "/api/profile")) { headers = auth_headers })
    check k6 (("initial profile ok", has_status 200 first_profile) ∷ [])
    expired_profile ←
        send k6 (record (get_of (base_url env ++ "/api/profile")) { headers = auth_headers })
    check k6 (("expired profile rejected", has_status 401 expired_profile) ∷ [])
    after_expiry refresh_token

  unfoldable pub iteration : M Num World (Unit {0})
  unfolding failure_branches refresh_flow
  iteration = do failure_branches; refresh_flow
