-- ===== src/Apps/Auth/Handlers.antt =====
-- The route handlers of target-apps/apps/auth_flow_api.py that change or read its state.
use Prim.Native.String.{◌++◌, slice, len}
use p_loadtesting.Prelude.{
  ℕ, ◌+◌, ◌-◌, String, true, Option, none, some, List, [], ◌∷◌, lookup, insert, str_eq, ◌==◌,
  if◌then◌else◌,
}
use p_loadtesting.Apps.Auth.{
  Challenge, Order, State, denied, granted, expected_mfa_code, issue_access_token,
  issue_refresh_token, issue_session, issue_mfa_challenge, bearer_token, require_user,
  require_session,
}
use p_loadtesting.Apps.Auth.Requests.{
  LoginRequest, RefreshRequest, SessionLoginRequest, MfaStartRequest, MfaVerifyRequest,
  CheckoutRequest,
}
use p_loadtesting.Apps.Http.{Reply, reply, http_error}
use p_loadtesting.Js.Text.{decimal}
use p_loadtesting.Js.Value.{number, text, array, cons, nil, Fields, end, field}

abbrev pub valid_password : String
valid_password = "demo-password"

-- `code[-2:]`
abbrev pub last_two : String → String
last_two code = slice code (len code - 2) (len code)

abbrev pub not_found : ℕ → String
not_found order_id = "Order " ++ decimal order_id ++ " not found."

abbrev pub find_order : ℕ → List (ℕ × Order) → Option Order
find_order k [] = none
find_order k ((j, o) ∷ os) = if j == k then some o else find_order k os

module _ {Num : Type 0} (of_int : ℕ → Num) where
  abbrev pub tokens_body : String → String → ℕ → ℕ → Fields Num → Fields Num
  tokens_body access refresh access_uses refresh_uses rest = field "access_token" (text access) (
      field "refresh_token" (text refresh) (
        field "token_type" (text "bearer") (
          field "access_uses_left" (number (of_int access_uses))
            (field "refresh_uses_left" (number (of_int refresh_uses)) rest))))

  abbrev pub order_body : Order → Fields Num
  order_body o = field "order_id" (number (of_int o.order_id)) (
      field "username" (text o.username) (
        field "sku" (text o.sku)
          (field "quantity" (number (of_int o.quantity)) (field "status" (text "confirmed") end))))

module _ {Num : Type 0} (of_int : ℕ → Num) (hash : String → String) where
  unfoldable pub login : LoginRequest → State → Reply Num × State
  login body s =
      if str_eq body.password valid_password
      then (let (access, s₁) = issue_access_token hash body.username body.access_token_uses s in
          let (refresh, s₂) = issue_refresh_token hash body.username body.refresh_uses s₁ in
          (
            reply 200
                (tokens_body of_int access refresh body.access_token_uses body.refresh_uses end),
            s₂,
          ))
      else (http_error 401 "Invalid demo credentials.", s)

  unfoldable pub session_login : SessionLoginRequest → State → Reply Num × State
  session_login body s =
      if str_eq body.password valid_password
      then (let (session_id, s₁) = issue_session hash body.username body.session_uses s in
          (
            record (reply 200 (
                field "session_mode" (text "cookie") (
                  field "session_uses_left" (number (of_int body.session_uses))
                    (field "cookie_name" (text "ploadtesting_demo_session") end)))) {
                      cookie = some (some session_id);
                    },
            s₁,
          ))
      else (http_error 401 "Invalid demo credentials.", s)

  unfoldable pub refresh : RefreshRequest → State → Reply Num × State
  refresh body s = elim (lookup body.refresh_token s.refresh_tokens) [
    | none ↦ (http_error 401 "Invalid refresh token.", s)
    | some t ↦
        if t.revoked
        then (http_error 401 "Revoked refresh token.", s)
        else if t.uses_left == 0
        then (http_error 401 "Expired refresh token.", s)
        else (let used = record t { uses_left = t.uses_left - 1 } in
            let s₁ = record s {
              refresh_tokens = insert body.refresh_token used s.refresh_tokens;
            } in
            let (access, s₂) = issue_access_token hash t.username body.access_token_uses s₁ in
            (
              reply 200 (
                  field "access_token" (text access) (
                    field "token_type" (text "bearer") (
                      field "access_uses_left" (number (of_int body.access_token_uses))
                        (field "refresh_uses_left" (number (of_int used.uses_left)) end)))),
              s₂,
            ))
  ]

  unfoldable pub mfa_login_start : MfaStartRequest → State → Reply Num × State
  mfa_login_start body s =
      if str_eq body.password valid_password
      then (elim (issue_mfa_challenge hash body.username body.channel s) [
        | none ↦ (http_error 422 "Too many active MFA challenges; cap is 20.", s)
        | some (challenge_id, s₁) ↦ (
          reply 200 (
              field "challenge_id" (text challenge_id) (
                field "channel" (text body.channel) (
                  field "demo_code_rule" (text "deterministic-sum-x137-mod-1000000") (
                    field "code_hint_suffix"
                      (text (last_two (expected_mfa_code body.username body.channel))) end)))),
          s₁,
        )
      ])
      else (http_error 401 "Invalid demo credentials.", s)

  -- What a correct code is answered with, once the challenge is marked as used.
  unfoldable pub mfa_issue : MfaVerifyRequest → Challenge → State → Reply Num × State
  mfa_issue body challenge s =
      if str_eq body.issue_mode "session"
      then (let (session_id, s₁) = issue_session hash challenge.username body.session_uses s in
          (
            record (reply 200 (
                field "issue_mode" (text "session") (
                  field "cookie_name" (text "ploadtesting_demo_session") (
                    field "session_uses_left" (number (of_int body.session_uses))
                      (field "channel" (text challenge.channel) end))))) {
                        cookie = some (some session_id);
                      },
            s₁,
          ))
      else (let (access, s₁) =
            issue_access_token hash challenge.username body.access_token_uses s in
          let (refresh_token, s₂) =
            issue_refresh_token hash challenge.username body.refresh_uses s₁ in
          (
            reply 200 (
                field "issue_mode" (text "bearer") (
                  tokens_body of_int access refresh_token body.access_token_uses body.refresh_uses
                    (field "channel" (text challenge.channel) end))),
            s₂,
          ))

  unfoldable pub mfa_login_verify : MfaVerifyRequest → State → Reply Num × State
  unfolding mfa_issue
  mfa_login_verify body s = elim (lookup body.challenge_id s.mfa_challenges) [
    | none ↦ (http_error 401 "Invalid MFA challenge.", s)
    | some c ↦
        if c.used
        then (http_error 401 "Used MFA challenge.", s)
        else if str_eq c.expected_code body.code
        then mfa_issue body c (record s {
          mfa_challenges = insert body.challenge_id (record c { used = true }) s.mfa_challenges;
        })
        else (http_error 401 "Invalid MFA code.", s)
  ]

module _ {Num : Type 0} where
  unfoldable pub profile : Option String → State → Reply Num × State
  profile authorization s = elim (require_user authorization s) [
    | denied detail ↦ (http_error 401 detail, s)
    | granted (username, s₁) ↦ (
      reply 200 (
          field "username" (text username)
            (field "roles" (array (cons (text "tester") nil)) (field "tenant" (text "demo") end))),
      s₁,
    )
  ]

  unfoldable pub session_profile : Option String → State → Reply Num × State
  session_profile cookie s = elim (require_session cookie s) [
    | denied detail ↦ (http_error 401 detail, s)
    | granted (username, s₁) ↦ (
      reply 200 (
          field "username" (text username)
            (field "session_mode" (text "cookie") (field "tenant" (text "demo") end))),
      s₁,
    )
  ]

  -- A token is revoked whatever its state.
  unfoldable pub logout : Option String → State → Reply Num × State
  logout authorization s = elim (bearer_token authorization) [
    | none ↦ (http_error 401 "Missing bearer token.", s)
    | some token ↦ elim (lookup token s.access_tokens) [
      | none ↦ (http_error 401 "Invalid bearer token.", s)
      | some t ↦ (
        reply 200 (field "status" (text "logged_out") end),
        record s { access_tokens = insert token (record t { revoked = true }) s.access_tokens },
      )
    ]
  ]

  unfoldable pub session_logout : Option String → State → Reply Num × State
  session_logout none s = (http_error 401 "Missing session cookie.", s)
  session_logout (some session_id) s =
      if str_eq session_id ""
      then (http_error 401 "Missing session cookie.", s)
      else elim (lookup session_id s.sessions) [
        | none ↦ (http_error 401 "Invalid session cookie.", s)
        | some t ↦ (
          record (reply 200 (field "status" (text "session_logged_out") end)) {
            cookie = some none;
          },
          record s { sessions = insert session_id (record t { revoked = true }) s.sessions },
        )
      ]

module _ {Num : Type 0} (of_int : ℕ → Num) where
  unfoldable pub checkout : CheckoutRequest → Option String → State → Reply Num × State
  checkout body authorization s = elim (require_user authorization s) [
    | denied detail ↦ (http_error 401 detail, s)
    | granted (username, s₁) ↦
        let order : Order = record {
          order_id = s₁.order_counter;
          username = username;
          sku = body.sku;
          quantity = body.quantity;
        } in
        (
          reply 200 (order_body of_int order),
          record s₁ {
            orders = (order.order_id, order) ∷ s₁.orders;
            order_counter = s₁.order_counter + 1;
          },
        )
  ]

  unfoldable pub get_order : ℕ → Option String → State → Reply Num × State
  get_order order_id authorization s = elim (require_user authorization s) [
    | denied detail ↦ (http_error 401 detail, s)
    | granted (username, s₁) ↦ elim (find_order order_id s₁.orders) [
      | none ↦ (http_error 404 (not_found order_id), s₁)
      | some o ↦
          if str_eq o.username username
          then (reply 200 (order_body of_int o), s₁)
          else (http_error 404 (not_found order_id), s₁)
    ]
  ]
