-- ===== src/Flows/AuthSession.antt =====
-- One iteration of engines/k6/target_apps_auth_session_mfa_flow.js with FLOW_MODE `session` against
-- target-apps/apps/auth_flow_api.py: the session lives in a cookie.
use Prim.Native.String.{◌++◌, count}
use p_loadtesting.Prelude.{
  ℕ, ◌+◌, ◌≤◌, ◌<◌, String, ◌≡◌, refl, ap, ◌∙◌, true, false, Option, some, none, [], ◌∷◌, arith,
  lookup, insert, str_eq, eq_iff,
}
use p_loadtesting.Apps.Auth.{
  Token, State, require_session, use_token, issue_session, token_of, fresh_token,
}
use p_loadtesting.Apps.Auth.Handlers.{session_login, session_profile, session_logout}
use p_loadtesting.Apps.Auth.Laws.{spend, lookup-insert_self}
use p_loadtesting.Apps.Auth.Requests.{session_login_request}
use p_loadtesting.Apps.Auth.Serve.{Client, serve, serve-handled, with_body-decoded}
use p_loadtesting.Apps.Auth.Served.{revoke}
use p_loadtesting.Apps.Http.{Reply, reply, http_error}
use p_loadtesting.Env.{Env, setting}
use p_loadtesting.Flows.{
  Delivers, ReadsIntegers, IsDigest, Succeeds, send-Delivers, status-Delivers, check-Delivers,
}
use p_loadtesting.Js.Number.{JsNumber}
use p_loadtesting.Js.Outcome.{returned}
use p_loadtesting.Js.Text.{decimal}
use p_loadtesting.Js.Value.{Value, text, number, object, fields, field, end, Fields}
use p_loadtesting.K6.{Host, run, has_status, post_of, get_of, no_payload, json_of, json_content}
use p_loadtesting.Scripts.AuthSessionMfa.{
  flow_mode, session_uses, session_body, iteration, session_flow,
}
use p_loadtesting.Scripts.Login.{base_url, username, password}

-- The settings are those of a user who may open a session of `m` uses.
pub record IsVisitor (env : Env) (m : ℕ) : Type 0 where
  pub mode : flow_mode env ≡ "session"
  pub name_lo : 1 ≤ count (username env)
  pub name_hi : count (username env) ≤ 64
  pub password : password env ≡ "demo-password"
  pub uses : setting env "SESSION_USES" "2" ≡ decimal m
  pub uses_lo : 1 ≤ m
  pub uses_hi : m ≤ 5

-- k6's cookie jar shows a stored session cookie to the script.
abbrev pub ShowsCookie : {Num : Type 0} → Host Num Client → String → Type 0
ShowsCookie k6 url =
    (s : State) (cookie : String)
    → k6.has_cookie url "ploadtesting_demo_session" (s, some cookie) ≡ true

session_request-fits :
    {Num : Type 0} (as_int : Value Num → Option ℕ) (name word : String) (x : Num) (m : ℕ)
    → 1 ≤ count name
    → count name ≤ 64
    → word ≡ "demo-password"
    → as_int (number x) ≡ some m
    → 1 ≤ m
    → m ≤ 5
    → session_login_request as_int (
        object (
          fields
            (("username", text name) ∷ ("password", text word) ∷ ("session_uses", number x) ∷ [])))
      ≡ some (record { username = name; password = "demo-password"; session_uses = m })
unfolding session_login_request
session_request-fits as_int name word x m lo hi same ex mlo mhi = rw same (ground arith)

count-nil : (s : String) → s ≡ "" → count s ≡ 0
count-nil s e = ap count e

digest-ne-nil : (s : String) → count s ≡ 64 → str_eq s "" ≡ false
digest-ne-nil s long = ground (arith, eq_iff s "", count-nil s)

abbrev session_profile_of : {Num : Type 0} → String → Fields Num
session_profile_of user =
    field "username" (text user)
      (field "session_mode" (text "cookie") (field "tenant" (text "demo") end))

abbrev with_session : String → Token → State → State
with_session id t s = record s { sessions = insert id t s.sessions }

module _ {Num : Type 0} (id : String) (t : Token) (s : State) (real : str_eq id "" ≡ false)
    (found : lookup id s.sessions ≡ some t) where
  session_profile-live :
      t.revoked ≡ false
      → 0 < t.uses_left
      → session_profile (some id) s
        ≡ (reply {Num = Num} 200 (session_profile_of t.username), with_session id (spend t) s)
  unfolding session_profile require_session use_token
  session_profile-live live left = ground arith

  session_logout-known : session_logout (some id) s ≡ (
    record (reply {Num = Num} 200 (field "status" (text "session_logged_out") end)) {
      cookie = some none;
    },
    with_session id (revoke t) s,
  )
  unfolding session_logout
  session_logout-known = ground arith

module _ {Num : Type 0} (s : State) where
  session_profile-missing :
      session_profile {Num = Num} none s ≡ (http_error 401 "Missing session cookie.", s)
  unfolding session_profile require_session
  session_profile-missing = refl

module _ {Num : Type 0} ⦃num : JsNumber Num⦄ (as_int : Value Num → Option ℕ) (of_int : ℕ → Num)
    (ints : ReadsIntegers num as_int) (hash : String → String) (digest : IsDigest hash) (env : Env)
    (m : ℕ) (h : IsVisitor env m) (s : State) (jar : Option String) where
  abbrev user : String
  user = username env

  abbrev id : String
  id = token_of hash "demo-session" user s.token_counter

  abbrev session : Token
  session = fresh_token user m

  abbrev in_login : State
  in_login = record s {
    sessions = insert id session s.sessions;
    token_counter = s.token_counter + 1;
  }

  abbrev in_profile : State
  in_profile = with_session id (spend session) in_login

  abbrev in_logout : State
  in_logout = with_session id (revoke (spend session)) in_profile

  abbrev login_reply : Reply Num
  login_reply =
      record (reply 200 (
        field "session_mode" (text "cookie") (
          field "session_uses_left" (number (of_int m))
            (field "cookie_name" (text "ploadtesting_demo_session") end)))) {
              cookie = some (some id);
            }

  abbrev profile_reply : Reply Num
  profile_reply = reply 200 (session_profile_of user)

  abbrev logout_reply : Reply Num
  logout_reply = record (reply 200 (field "status" (text "session_logged_out") end)) {
    cookie = some none;
  }

  abbrev missing_reply : Reply Num
  missing_reply = http_error 401 "Missing session cookie."

  uses_eq : as_int (number (session_uses env)) ≡ some m
  uses_eq =
      ap (λ x. as_int (number (num.parse x))) h.uses
      ∙ ap (λ x. as_int (number x)) (num.parse-decimal m (omega (arith, h.uses_hi)))
      ∙ ints.as_int-of_ℕ m (omega (arith, h.uses_hi))

  real : str_eq id "" ≡ false
  real = digest-ne-nil id (digest _)

  session_login-in_login :
      session_login of_int hash
        (record { username = user; password = "demo-password"; session_uses = m })
        s
      ≡ (login_reply, in_login)
  unfolding session_login issue_session
  session_login-in_login = refl

  login_served :
      serve as_int of_int hash
        (post_of (base_url env ++ "/api/session/login") (json_of (session_body env)) json_content)
        "/api/session/login"
        (s, jar)
      ≡ (login_reply, (in_login, some id))
  login_served =
      serve-handled as_int of_int hash
        (post_of (base_url env ++ "/api/session/login") (json_of (session_body env)) json_content)
        "/api/session/login" s in_login jar login_reply
        (with_body-decoded (session_login_request as_int) (session_login of_int hash)
            (session_body env) _ s
            (session_request-fits as_int user (password env) (session_uses env) m h.name_lo
              h.name_hi h.password uses_eq h.uses_lo h.uses_hi)
          ∙ session_login-in_login)

  profile_served :
      serve as_int of_int hash
        (get_of (base_url env ++ "/api/session/profile"))
        "/api/session/profile"
        (in_login, some id)
      ≡ (profile_reply, (in_profile, some id))
  profile_served =
      serve-handled as_int of_int hash (get_of (base_url env ++ "/api/session/profile"))
        "/api/session/profile" in_login in_profile (some id) profile_reply
        (session_profile-live id session in_login real (lookup-insert_self id session s.sessions)
          refl h.uses_lo)

  logout_served :
      serve as_int of_int hash
        (post_of (base_url env ++ "/api/session/logout") no_payload [])
        "/api/session/logout"
        (in_profile, some id)
      ≡ (logout_reply, (in_logout, none))
  logout_served =
      serve-handled as_int of_int hash
        (post_of (base_url env ++ "/api/session/logout") no_payload []) "/api/session/logout"
        in_profile in_logout (some id) logout_reply
        (session_logout-known id (spend session) in_profile real
          (lookup-insert_self id (spend session) in_login.sessions))

  missing_served :
      serve as_int of_int hash
        (get_of (base_url env ++ "/api/session/profile"))
        "/api/session/profile"
        (in_logout, none)
      ≡ (missing_reply, (in_logout, none))
  missing_served =
      serve-handled as_int of_int hash (get_of (base_url env ++ "/api/session/profile"))
        "/api/session/profile" in_logout in_logout none missing_reply
        (session_profile-missing in_logout)

  session_flow-Succeeds :
      (k6 : Host Num Client)
      → Delivers k6 (base_url env) (serve as_int of_int hash)
      → ShowsCookie k6 (base_url env)
      → Succeeds (run (session_flow k6 env) (s, jar))
  unfolding session_flow
  session_flow-Succeeds k6 d shows =
      rw
        (
          send-Delivers d _ "/api/session/login" (s, jar) _ login_reply refl login_served,
          shows in_login id,
          d.passes
              (("session login ok", has_status 200 (d.response login_reply))
                ∷ ("session login set cookie", returned true)
                ∷ [])
              (status-Delivers d 200 login_reply refl, (refl, tt)),
          send-Delivers d _ "/api/session/profile" (in_login, some id) _ profile_reply refl
              profile_served,
          check-Delivers d "session profile ok" 200 profile_reply refl,
          send-Delivers d _ "/api/session/logout" (in_profile, some id) _ logout_reply refl
              logout_served,
          check-Delivers d "session logout ok" 200 logout_reply refl,
          send-Delivers d _ "/api/session/profile" (in_logout, none) _ missing_reply refl
              missing_served,
          check-Delivers d "revoked session rejected" 401 missing_reply refl,
        )
        (
          (status-Delivers d 401 missing_reply refl, tt),
          (
            (status-Delivers d 200 logout_reply refl, tt),
            (
              (status-Delivers d 200 profile_reply refl, tt),
              ((status-Delivers d 200 login_reply refl, (refl, tt)), tt),
            ),
          ),
        )

  -- Against the auth application in any state, and with a cookie jar that shows the session cookie
  -- where one is stored, an iteration with FLOW_MODE `session` ends without an exception and all its
  -- checks pass, for a user name of 1 to 64 characters, the demo password and one to five uses of a
  -- session.
  pub session_iteration-Succeeds :
      (k6 : Host Num Client)
      → Delivers k6 (base_url env) (serve as_int of_int hash)
      → ShowsCookie k6 (base_url env)
      → Succeeds (run (iteration k6 env) (s, jar))
  unfolding iteration
  session_iteration-Succeeds k6 d shows =
      ground (arith, session_flow-Succeeds k6 d shows, h.mode, eq_iff (flow_mode env) "session")
