-- ===== src/Flows/AuthRefresh/States.antt =====
-- The states that target-apps/apps/auth_flow_api.py goes through in one iteration of
-- target_apps_auth_refresh_flow.js from a state `s`, for a user with `m` uses of an access token and
-- `n` of a refresh token, and its replies.
use p_loadtesting.Prelude.{ℕ, ◌+◌, ◌-◌, ◌<◌, String, ◌≡◌, refl, some, lookup}
use p_loadtesting.Apps.Auth.{
  Token, State, issue_access_token, issue_refresh_token, fresh_token, token_of,
}
use p_loadtesting.Apps.Auth.Handlers.{login, refresh, tokens_body}
use p_loadtesting.Apps.Auth.Laws.{lookup-insert_self, refresh-live, refreshed, spend}
use p_loadtesting.Apps.Auth.Served.{with_access, revoke}
use p_loadtesting.Apps.Http.{Reply, reply}
use p_loadtesting.Js.Value.{text, number, field, end}

module _ (hash : String → String) (user : String) (m n : ℕ) (s : State) where
  abbrev pub first_access : String
  first_access = token_of hash "demo-access" user s.token_counter

  abbrev pub first_refresh : String
  first_refresh = token_of hash "demo-refresh" user (s.token_counter + 1)

  abbrev pub first_token : Token
  first_token = fresh_token user m

  -- after the login
  unfoldable pub in_login : State
  unfolding issue_access_token issue_refresh_token
  in_login = (issue_refresh_token hash user n (issue_access_token hash user m s).1).1

  pub in_login-access : lookup first_access in_login.access_tokens ≡ some first_token
  unfolding in_login
  in_login-access = lookup-insert_self first_access first_token s.access_tokens

  pub in_login-refresh : lookup first_refresh in_login.refresh_tokens ≡ some (fresh_token user n)
  unfolding in_login
  in_login-refresh = lookup-insert_self first_refresh (fresh_token user n) s.refresh_tokens

  -- after the first use of the access token
  unfoldable pub in_profile : State
  in_profile = with_access first_access (spend first_token) in_login

  pub in_profile-access : lookup first_access in_profile.access_tokens ≡ some (spend first_token)
  unfolding in_profile
  in_profile-access = lookup-insert_self first_access (spend first_token) in_login.access_tokens

  abbrev pub second_access : String
  second_access = token_of hash "demo-access" user in_profile.token_counter

  abbrev pub second_token : Token
  second_token = fresh_token user (m + 1)

  -- after the refresh
  unfoldable pub in_refresh : State
  in_refresh = refreshed hash first_refresh (m + 1) (fresh_token user n) in_profile

  pub in_refresh-access : lookup second_access in_refresh.access_tokens ≡ some second_token
  unfolding in_refresh issue_access_token
  in_refresh-access = lookup-insert_self second_access second_token in_profile.access_tokens

  -- after the use of the refreshed access token
  unfoldable pub in_second : State
  in_second = with_access second_access (spend second_token) in_refresh

  pub in_second-access : lookup second_access in_second.access_tokens ≡ some (spend second_token)
  unfolding in_second
  in_second-access = lookup-insert_self second_access (spend second_token) in_refresh.access_tokens

  -- after the logout
  unfoldable pub in_logout : State
  in_logout = with_access second_access (revoke (spend second_token)) in_second

  pub in_logout-access :
      lookup second_access in_logout.access_tokens ≡ some (revoke (spend second_token))
  unfolding in_logout
  in_logout-access =
      lookup-insert_self second_access (revoke (spend second_token)) in_second.access_tokens

module _ {Num : Type 0} (of_int : ℕ → Num) (hash : String → String) (user : String) (m n : ℕ)
    (s : State) where
  abbrev pub login_reply : Reply Num
  login_reply =
      reply 200
        (tokens_body of_int (first_access hash user m n s) (first_refresh hash user m n s) m n end)

  abbrev pub refresh_reply : Reply Num
  refresh_reply = reply 200 (
      field "access_token" (text (second_access hash user m n s)) (
        field "token_type" (text "bearer") (
          field "access_uses_left" (number (of_int (m + 1)))
            (field "refresh_uses_left" (number (of_int (n - 1))) end))))

  pub login-in_login :
      login of_int hash
        (record {
          username = user;
          password = "demo-password";
          access_token_uses = m;
          refresh_uses = n;
        })
        s
      ≡ (login_reply, in_login hash user m n s)
  unfolding login in_login
  login-in_login = refl

  pub refresh-in_refresh :
      0 < n
      → refresh of_int hash
          (record { refresh_token = first_refresh hash user m n s; access_token_uses = m + 1 })
          (in_profile hash user m n s)
        ≡ (refresh_reply, in_refresh hash user m n s)
  unfolding in_profile in_refresh
  refresh-in_refresh left =
      refresh-live of_int hash (first_refresh hash user m n s) (m + 1) (fresh_token user n)
        (in_profile hash user m n s) (in_login-refresh hash user m n s) refl left
