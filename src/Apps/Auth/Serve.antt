-- ===== src/Apps/Auth/Serve.antt =====
-- The routes of target-apps/apps/auth_flow_api.py: which handler answers which request
-- (GET /api/orders/{order_id}, which no script calls, is left out). `as_int` is pydantic's reading of
-- a JSON value as an integer, and `of_int` the writing of one.
use p_loadtesting.Prelude.{
  ℕ, String, ◌≡◌, ap, arith, Option, none, some, lookup, str_eq, if◌then◌else◌,
}
use p_loadtesting.Apps.Auth.{State}
use p_loadtesting.Apps.Auth.Handlers.{
  login, session_login, refresh, mfa_login_start, mfa_login_verify, profile, session_profile,
  logout, session_logout, checkout,
}
use p_loadtesting.Apps.Auth.Requests.{
  login_request, refresh_request, session_login_request, mfa_start_request, mfa_verify_request,
  checkout_request,
}
use p_loadtesting.Apps.Http.{Reply, reply, http_error, unprocessable}
use p_loadtesting.Js.Value.{Value, text, field, end}
use p_loadtesting.K6.{Request, Payload, no_payload, json_of, raw, Method, get, post}

module _ {Num : Type 0} where
  abbrev pub health : Reply Num
  health = reply 200 (field "status" (text "ok") (field "target_app_id" (text "auth-flow-api") end))

  -- Run a handler on the decoded body, or refuse the body.
  abbrev pub with_body :
      {R S : Type 0}
      → (Value Num → Option R)
      → (R → S → Reply Num × S)
      → Payload Num
      → S
      → Reply Num × S
  with_body decode handler (json_of v) s = elim (decode v) [
    | none ↦ (unprocessable, s)
    | some r ↦ handler r s
  ]
  with_body decode handler no_payload s = (unprocessable, s)
  with_body decode handler (raw b) s = (unprocessable, s)

-- The cookie jar of a virtual user holds the session cookie: it is sent with every request, and
-- set or deleted by a reply.
abbrev pub Client : Type 0
Client = State × Option String

abbrev pub stored : Option (Option String) → Option String → Option String
stored none jar = jar
stored (some cookie) jar = cookie

module _ {Num : Type 0} (as_int : Value Num → Option ℕ) (of_int : ℕ → Num)
    (hash : String → String) where
  abbrev authorization : Request Num → Option String
  authorization req = lookup "Authorization" req.headers

  abbrev pub serve_post : Request Num → String → Option String → State → Reply Num × State
  serve_post req path cookie =
      if str_eq path "/api/login"
      then with_body (login_request as_int) (login of_int hash) req.payload
      else if str_eq path "/api/session/login"
      then with_body (session_login_request as_int) (session_login of_int hash) req.payload
      else if str_eq path "/api/refresh"
      then with_body (refresh_request as_int) (refresh of_int hash) req.payload
      else if str_eq path "/api/mfa/login/start"
      then with_body (mfa_start_request as_int) (mfa_login_start of_int hash) req.payload
      else if str_eq path "/api/mfa/login/verify"
      then with_body (mfa_verify_request as_int) (mfa_login_verify of_int hash) req.payload
      else if str_eq path "/api/checkout"
      then with_body (checkout_request as_int) (λ b. checkout of_int b (authorization req))
          req.payload
      else if str_eq path "/api/logout"
      then logout (authorization req)
      else if str_eq path "/api/session/logout"
      then session_logout cookie
      else λ s. (http_error 404 "Not Found", s)

  abbrev pub serve_get : Request Num → String → Option String → State → Reply Num × State
  serve_get req path cookie =
      if str_eq path "/health"
      then (λ s. (health, s))
      else if str_eq path "/api/profile"
      then profile (authorization req)
      else if str_eq path "/api/session/profile"
      then session_profile cookie
      else λ s. (http_error 404 "Not Found", s)

  abbrev pub serve_method :
      Method → Request Num → String → Option String → State → Reply Num × State
  serve_method get = serve_get
  serve_method post = serve_post

  unfoldable pub serve : Request Num → String → Client → Reply Num × Client
  serve req path (s, jar) =
      let (rep, s₁) = serve_method req.method req path jar s in (rep, (s₁, stored rep.cookie jar))

  -- The reply of a handler is the reply of the application.
  pub serve-handled :
      (req : Request Num) (path : String) (s s' : State) (jar : Option String) (rep : Reply Num)
      → serve_method req.method req path jar s ≡ (rep, s')
      → serve req path (s, jar) ≡ (rep, (s', stored rep.cookie jar))
  unfolding serve
  serve-handled req path s s' jar rep e = ap (λ p. (p.0, (p.1, stored p.0.cookie jar))) e

module _ {Num R S : Type 0} (decode : Value Num → Option R) (handler : R → S → Reply Num × S) where
  pub with_body-decoded :
      (v : Value Num) (r : R) (s : S)
      → decode v ≡ some r
      → with_body decode handler (json_of v) s ≡ handler r s
  with_body-decoded v r s e = ground arith
