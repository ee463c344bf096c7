-- ===== src/Apps/Auth/Requests.antt =====
-- The request models of target-apps/apps/auth_flow_api.py, as pydantic reads them from a JSON body:
-- `none` is a body that does not fit.
use p_loadtesting.Prelude.{ℕ, String, Option, none, some, str_eq, ◌||◌, if◌then◌else◌}
use p_loadtesting.Apps.Http.{body_field, str_field, int_field, ◌>>=◌}
use p_loadtesting.Js.Value.{Value, undefined, text}

abbrev pub max_access_uses : ℕ
max_access_uses = 5

abbrev pub max_refresh_uses : ℕ
max_refresh_uses = 3

abbrev pub max_session_uses : ℕ
max_session_uses = 5

pub record LoginRequest : Type 0 where
  pub username : String
  pub password : String
  pub access_token_uses : ℕ
  pub refresh_uses : ℕ

pub record RefreshRequest : Type 0 where
  pub refresh_token : String
  pub access_token_uses : ℕ

pub record SessionLoginRequest : Type 0 where
  pub username : String
  pub password : String
  pub session_uses : ℕ

pub record MfaStartRequest : Type 0 where
  pub username : String
  pub password : String
  pub channel : String

pub record MfaVerifyRequest : Type 0 where
  pub challenge_id : String
  pub code : String
  pub issue_mode : String
  pub access_token_uses : ℕ
  pub refresh_uses : ℕ
  pub session_uses : ℕ

pub record CheckoutRequest : Type 0 where
  pub sku : String
  pub quantity : ℕ

module _ {Num : Type 0} where
  -- `Field(default="sms", pattern="^(sms|email|authenticator)$")`
  abbrev pub channel_field : Value Num → Option String
  channel_field undefined = some "sms"
  channel_field (text s) =
      if str_eq s "sms" || (str_eq s "email" || str_eq s "authenticator") then some s else none
  channel_field _ = none

  -- `Field(default="bearer", pattern="^(bearer|session)$")`
  abbrev pub issue_mode_field : Value Num → Option String
  issue_mode_field undefined = some "bearer"
  issue_mode_field (text s) = if str_eq s "bearer" || str_eq s "session" then some s else none
  issue_mode_field _ = none

module _ {Num : Type 0} (as_int : Value Num → Option ℕ) where
  unfoldable pub login_request : Value Num → Option LoginRequest
  login_request body = do
    username ← str_field 1 64 (body_field "username" body)
    password ← str_field 1 64 (body_field "password" body)
    access_token_uses ← int_field as_int 3 1 max_access_uses (body_field "access_token_uses" body)
    refresh_uses ← int_field as_int 2 1 max_refresh_uses (body_field "refresh_uses" body)
    some (record {
      username = username;
      password = password;
      access_token_uses = access_token_uses;
      refresh_uses = refresh_uses;
    })

  unfoldable pub refresh_request : Value Num → Option RefreshRequest
  refresh_request body = do
    refresh_token ← str_field 1 128 (body_field "refresh_token" body)
    access_token_uses ← int_field as_int 3 1 max_access_uses (body_field "access_token_uses" body)
    some (record { refresh_token = refresh_token; access_token_uses = access_token_uses })

  unfoldable pub session_login_request : Value Num → Option SessionLoginRequest
  session_login_request body = do
    username ← str_field 1 64 (body_field "username" body)
    password ← str_field 1 64 (body_field "password" body)
    session_uses ← int_field as_int 3 1 max_session_uses (body_field "session_uses" body)
    some (record { username = username; password = password; session_uses = session_uses })

  unfoldable pub mfa_start_request : Value Num → Option MfaStartRequest
  mfa_start_request body = do
    username ← str_field 1 64 (body_field "username" body)
    password ← str_field 1 64 (body_field "password" body)
    channel ← channel_field (body_field "channel" body)
    some (record { username = username; password = password; channel = channel })

  unfoldable pub mfa_verify_request : Value Num → Option MfaVerifyRequest
  mfa_verify_request body = do
    challenge_id ← str_field 1 128 (body_field "challenge_id" body)
    code ← str_field 6 6 (body_field "code" body)
    issue_mode ← issue_mode_field (body_field "issue_mode" body)
    access_token_uses ← int_field as_int 3 1 max_access_uses (body_field "access_token_uses" body)
    refresh_uses ← int_field as_int 2 1 max_refresh_uses (body_field "refresh_uses" body)
    session_uses ← int_field as_int 3 1 max_session_uses (body_field "session_uses" body)
    some (record {
      challenge_id = challenge_id;
      code = code;
      issue_mode = issue_mode;
      access_token_uses = access_token_uses;
      refresh_uses = refresh_uses;
      session_uses = session_uses;
    })

  unfoldable pub checkout_request : Value Num → Option CheckoutRequest
  checkout_request body = do
    sku ← str_field 1 64 (body_field "sku" body)
    quantity ← int_field as_int 1 1 10 (body_field "quantity" body)
    some (record { sku = sku; quantity = quantity })
