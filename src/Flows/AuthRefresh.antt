-- ===== src/Flows/AuthRefresh.antt =====
-- engines/k6/target_apps_auth_refresh_flow.js against target-apps/apps/auth_flow_api.py.
pub mod Requests
pub mod States
use Prim.Native.String.{◌++◌}
use p_loadtesting.Prelude.{
  ℕ, ◌+◌, ◌≤◌, String, ◌≡◌, refl, ap, ◌∙◌, Option, true, false, [], ◌∷◌, some, List, arith,
  Bool-cases, inl, inr,
}
use p_loadtesting.Apps.Auth.{State}
use p_loadtesting.Apps.Auth.Handlers.{login, refresh}
use p_loadtesting.Apps.Auth.Laws.{spend, profile_of}
use p_loadtesting.Apps.Auth.Requests.{login_request, refresh_request}
use p_loadtesting.Apps.Auth.Serve.{Client, serve, serve-handled, with_body-decoded}
use p_loadtesting.Apps.Auth.Served.{
  with_access, revoke, profile_served-live, profile_served-spent, profile_served-revoked,
  logout_served,
}
use p_loadtesting.Apps.Http.{Reply, reply, http_error}
use p_loadtesting.Env.{Env}
use p_loadtesting.Flows.{
  Delivers, ReadsIntegers, IsDigest, Succeeds, send-Delivers, check-Delivers, status-Delivers,
  wrong_status-Delivers,
}
use p_loadtesting.Flows.AuthRefresh.Requests.{
  IsUser, small, login_request-bad, refresh_request-fits, uses_eq, login_request-login_body,
}
use p_loadtesting.Flows.AuthRefresh.States.{
  first_access, first_refresh, first_token, second_access, second_token, in_login, in_login-access,
  in_profile, in_profile-access, in_refresh, in_refresh-access, in_second, in_second-access,
  in_logout, in_logout-access, login_reply, refresh_reply, login-in_login, refresh-in_refresh,
}
use p_loadtesting.Flows.Extends.{Extends, extends_rules, check-fails}
use p_loadtesting.Js.Number.{JsNumber}
use p_loadtesting.Js.Value.{number, Value, text, field, end, to_text}
use p_loadtesting.K6.{
  Host, Session, Event, Request, AllPass, run, post_of, get_of, no_payload, json_of, json_content,
}
use p_loadtesting.Scripts.AuthRefresh.{
  after_expiry, access_token_uses, login_body, bad_login_body, refresh_body, refresh_flow,
  iteration, failure_branches, assert_failure_branches,
}
use p_loadtesting.Scripts.Login.{base_url, username}

module _ {Num : Type 0} ⦃num : JsNumber Num⦄ (as_int : Value Num → Option ℕ) (of_int : ℕ → Num)
    (ints : ReadsIntegers num as_int) (hash : String → String) (digest : IsDigest hash) (env : Env)
    (m n : ℕ) (h : IsUser env m n) (s : State) (jar : Option String) where
  abbrev user : String
  user = username env

  pub login_served :
      serve as_int of_int hash
        (post_of (base_url env ++ "/api/login") (json_of (login_body env)) json_content)
        "/api/login"
        (s, jar)
      ≡ (login_reply of_int hash user m n s, (in_login hash user m n s, jar))
  login_served =
      serve-handled as_int of_int hash
        (post_of (base_url env ++ "/api/login") (json_of (login_body env)) json_content)
        "/api/login" s (in_login hash user m n s) jar (login_reply of_int hash user m n s)
        (with_body-decoded (login_request as_int) (login of_int hash) (login_body env) _ s
            (login_request-login_body as_int ints hash digest env m n h)
          ∙ login-in_login of_int hash user m n s)

  refresh_request-refresh_body :
      m + 1 ≤ 5
      → refresh_request as_int (refresh_body env (text (first_refresh hash user m n s)))
        ≡ some (record { refresh_token = first_refresh hash user m n s; access_token_uses = m + 1 })
  refresh_request-refresh_body room =
      refresh_request-fits as_int (first_refresh hash user m n s)
        (num.add (access_token_uses env) (num.of_ℕ 1)) (m + 1) (digest _)
        (ap (λ x. as_int (number (num.add x (num.of_ℕ 1))))
            (uses_eq as_int ints hash digest env m n h)
          ∙ ap (λ x. as_int (number x)) (num.add-of_ℕ m 1 (small (m + 1) room))
          ∙ ints.as_int-of_ℕ (m + 1) (small (m + 1) room))
        (omega arith) room

  refresh_served :
      m + 1 ≤ 5
      → serve as_int of_int hash
          (post_of
            (base_url env ++ "/api/refresh")
            (json_of (refresh_body env (text (first_refresh hash user m n s))))
            json_content)
          "/api/refresh"
          (in_profile hash user m n s, jar)
        ≡ (refresh_reply of_int hash user m n s, (in_refresh hash user m n s, jar))
  refresh_served room =
      serve-handled as_int of_int hash
        (post_of (base_url env ++ "/api/refresh")
          (json_of (refresh_body env (text (first_refresh hash user m n s)))) json_content)
        "/api/refresh" (in_profile hash user m n s) (in_refresh hash user m n s) jar
        (refresh_reply of_int hash user m n s)
        (with_body-decoded (refresh_request as_int) (refresh of_int hash)
            (refresh_body env (text (first_refresh hash user m n s))) _ (in_profile hash user m n s)
            (refresh_request-refresh_body room)
          ∙ refresh-in_refresh of_int hash user m n s h.refreshes_lo)

  abbrev profile_reply : Reply Num
  profile_reply = reply 200 (profile_of user)

  abbrev expired_reply : Reply Num
  expired_reply = http_error 401 "Expired bearer token."

  abbrev logout_reply : Reply Num
  logout_reply = reply 200 (field "status" (text "logged_out") end)

  abbrev revoked_reply : Reply Num
  revoked_reply = http_error 401 "Revoked bearer token."

  abbrev profile_url : String
  profile_url = base_url env ++ "/api/profile"

  abbrev profile_request : String → List (String × String) → Request Num
  profile_request token more = record (get_of profile_url) {
    headers = ("Authorization", "Bearer " ++ token) ∷ more;
  }

  pub first_profile :
      serve as_int of_int hash
        (profile_request (first_access hash user m n s) [])
        "/api/profile"
        (in_login hash user m n s, jar)
      ≡ (profile_reply, (in_profile hash user m n s, jar))
  unfolding in_profile
  first_profile =
      profile_served-live as_int of_int hash profile_url (first_access hash user m n s) []
        (first_token hash user m n s) (in_login hash user m n s) jar
        (in_login-access hash user m n s) refl h.uses_lo

  expired_profile :
      m ≡ 1
      → serve as_int of_int hash
          (profile_request (first_access hash user m n s) [])
          "/api/profile"
          (in_profile hash user m n s, jar)
        ≡ (expired_reply, (in_profile hash user m n s, jar))
  expired_profile one =
      profile_served-spent as_int of_int hash profile_url (first_access hash user m n s) []
        (spend (first_token hash user m n s)) (in_profile hash user m n s) jar
        (in_profile-access hash user m n s) refl (omega arith)

  refreshed_profile :
      serve as_int of_int hash
        (profile_request (second_access hash user m n s) json_content)
        "/api/profile"
        (in_refresh hash user m n s, jar)
      ≡ (profile_reply, (in_second hash user m n s, jar))
  unfolding in_second
  refreshed_profile =
      profile_served-live as_int of_int hash profile_url (second_access hash user m n s)
        json_content (second_token hash user m n s) (in_refresh hash user m n s) jar
        (in_refresh-access hash user m n s) refl (omega arith)

  logout_served_second :
      serve as_int of_int hash
        (post_of
          (base_url env ++ "/api/logout")
          no_payload
          (("Authorization", "Bearer " ++ second_access hash user m n s) ∷ []))
        "/api/logout"
        (in_second hash user m n s, jar)
      ≡ (logout_reply, (in_logout hash user m n s, jar))
  unfolding in_logout
  logout_served_second =
      logout_served as_int of_int hash (base_url env ++ "/api/logout")
        (second_access hash user m n s) [] (spend (second_token hash user m n s))
        (in_second hash user m n s) jar (in_second-access hash user m n s)

  revoked_profile :
      serve as_int of_int hash
        (profile_request (second_access hash user m n s) [])
        "/api/profile"
        (in_logout hash user m n s, jar)
      ≡ (revoked_reply, (in_logout hash user m n s, jar))
  revoked_profile =
      profile_served-revoked as_int of_int hash profile_url (second_access hash user m n s) []
        (revoke (spend (second_token hash user m n s))) (in_logout hash user m n s) jar
        (in_logout-access hash user m n s) refl

  refresh_flow-Succeeds :
      (k6 : Host Num Client) (es : List (Event Num))
      → Delivers k6 (base_url env) (serve as_int of_int hash)
      → m ≡ 1
      → AllPass es
      → Succeeds (refresh_flow k6 env (record { world = (s, jar); events = es }))
  unfolding refresh_flow after_expiry to_text
  refresh_flow-Succeeds k6 es d one before =
      let login = login_reply of_int hash user m n s in
      let refresh = refresh_reply of_int hash user m n s in
      let token = second_access hash user m n s in
      rw
        (
          send-Delivers d _ "/api/login" (s, jar) _ login refl login_served,
          check-Delivers d "login ok" 200 login refl,
          d.json login "access_token",
          d.json login "refresh_token",
          send-Delivers d _ "/api/profile" (in_login hash user m n s, jar) _ profile_reply refl
              first_profile,
          check-Delivers d "initial profile ok" 200 profile_reply refl,
          send-Delivers d _ "/api/profile" (in_profile hash user m n s, jar) _ expired_reply refl
              (expired_profile one),
          check-Delivers d "expired profile rejected" 401 expired_reply refl,
          send-Delivers d _ "/api/refresh" (in_profile hash user m n s, jar) _ refresh refl
              (refresh_served (omega arith)),
          check-Delivers d "refresh ok" 200 refresh refl,
          d.json refresh "access_token",
          send-Delivers d _ "/api/profile" (in_refresh hash user m n s, jar) _ profile_reply refl
              refreshed_profile,
          check-Delivers d "refreshed profile ok" 200 profile_reply refl,
          send-Delivers d _ "/api/logout" (in_second hash user m n s, jar) _ logout_reply refl
              logout_served_second,
          check-Delivers d "logout ok" 200 logout_reply refl,
          send-Delivers d _ "/api/profile" (in_logout hash user m n s, jar) _ revoked_reply refl
              revoked_profile,
          check-Delivers d "revoked profile rejected" 401 revoked_reply refl,
        )
        (
          (status-Delivers d 401 revoked_reply refl, tt),
          (
            (status-Delivers d 200 logout_reply refl, tt),
            (
              (status-Delivers d 200 profile_reply refl, tt),
              (
                (status-Delivers d 200 refresh refl, tt),
                (
                  (status-Delivers d 401 expired_reply refl, tt),
                  (
                    (status-Delivers d 200 profile_reply refl, tt),
                    ((status-Delivers d 200 login refl, tt), before),
                  ),
                ),
              ),
            ),
          ),
        )

  abbrev bad_reply : Reply Num
  bad_reply = http_error 401 "Invalid demo credentials."

  pub bad_login_served :
      serve as_int of_int hash
        (post_of (base_url env ++ "/api/login") (json_of (bad_login_body env)) json_content)
        "/api/login"
        (s, jar)
      ≡ (bad_reply, (s, jar))
  unfolding login
  bad_login_served =
      serve-handled as_int of_int hash
        (post_of (base_url env ++ "/api/login") (json_of (bad_login_body env)) json_content)
        "/api/login" s s jar bad_reply
        (with_body-decoded (login_request as_int) (login of_int hash) (bad_login_body env) _ s
          (login_request-bad as_int user h.name_lo h.name_hi))

  -- Against the auth application in any state, an iteration ends without an exception and all its
  -- checks pass, with or without the failure branches, for a user name of 1 to 64 characters, the
  -- demo password, one use for an access token, and one to three for a refresh token.
  pub refresh_iteration-Succeeds :
      (k6 : Host Num Client)
      → Delivers k6 (base_url env) (serve as_int of_int hash)
      → m ≡ 1
      → Succeeds (run (iteration k6 env) (s, jar))
  unfolding iteration
  refresh_iteration-Succeeds k6 d one = elim (Bool-cases (assert_failure_branches env)) [
    | inl on ↦
        rw
          (
            on,
            send-Delivers d _ "/api/login" (s, jar) (s, jar) bad_reply refl bad_login_served,
            check-Delivers d "bad login is rejected" 401 bad_reply refl,
          )
          (refresh_flow-Succeeds k6 _ d one ((status-Delivers d 401 bad_reply refl, tt), tt))
    | inr off ↦ rw off (refresh_flow-Succeeds k6 [] d one tt)
  ]
