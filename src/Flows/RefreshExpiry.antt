-- ===== src/Flows/RefreshExpiry.antt =====
-- engines/k6/target_apps_auth_refresh_flow.js with access tokens of several uses.
use Prim.Native.String.{◌++◌}
use p_loadtesting.Prelude.{
  ℕ, ◌≤◌, String, ◌≡◌, refl, Option, [], ◌∷◌, List, arith, Bool-cases, inl, inr,
}
use p_loadtesting.Apps.Auth.{State}
use p_loadtesting.Apps.Auth.Laws.{spend, profile_of}
use p_loadtesting.Apps.Auth.Serve.{Client, serve}
use p_loadtesting.Apps.Auth.Served.{with_access, profile_served-live}
use p_loadtesting.Apps.Http.{Reply, reply, http_error}
use p_loadtesting.Env.{Env}
use p_loadtesting.Flows.{
  Delivers, ReadsIntegers, IsDigest, Succeeds, send-Delivers, check-Delivers, wrong_status-Delivers,
}
use p_loadtesting.Flows.AuthRefresh.Requests.{IsUser}
use p_loadtesting.Flows.AuthRefresh.States.{
  first_access, first_refresh, first_token, in_login, in_profile, in_profile-access, login_reply,
}
use p_loadtesting.Flows.AuthRefresh.{login_served, first_profile, bad_login_served}
use p_loadtesting.Flows.Extends.{Extends, extends_rules, check-fails}
use p_loadtesting.Js.Number.{JsNumber}
use p_loadtesting.Js.Value.{Value, text, to_text}
use p_loadtesting.K6.{Host, Event, Request, run, get_of}
use p_loadtesting.Scripts.AuthRefresh.{
  after_expiry, refresh_flow, iteration, assert_failure_branches,
}
use p_loadtesting.Scripts.Login.{base_url, username}

module _ {Num : Type 0} ⦃num : JsNumber Num⦄ (as_int : Value Num → Option ℕ) (of_int : ℕ → Num)
    (ints : ReadsIntegers num as_int) (hash : String → String) (digest : IsDigest hash) (env : Env)
    (m n : ℕ) (h : IsUser env m n) (s : State) (jar : Option String) where
  abbrev user : String
  user = username env

  abbrev profile_reply : Reply Num
  profile_reply = reply 200 (profile_of user)

  abbrev bad_reply : Reply Num
  bad_reply = http_error 401 "Invalid demo credentials."

  abbrev profile_url : String
  profile_url = base_url env ++ "/api/profile"

  abbrev profile_request : String → List (String × String) → Request Num
  profile_request token more = record (get_of profile_url) {
    headers = ("Authorization", "Bearer " ++ token) ∷ more;
  }

  live_profile :
      2 ≤ m
      → serve as_int of_int hash
          (profile_request (first_access hash user m n s) [])
          "/api/profile"
          (in_profile hash user m n s, jar)
        ≡ (
          profile_reply,
          (
            with_access
                (first_access hash user m n s)
                (spend (spend (first_token hash user m n s)))
                (in_profile hash user m n s),
            jar,
          ),
        )
  live_profile many =
      profile_served-live as_int of_int hash profile_url (first_access hash user m n s) []
        (spend (first_token hash user m n s)) (in_profile hash user m n s) jar
        (in_profile-access hash user m n s) refl (omega arith)

  after_expiry-Extends :
      (k6 : Host Num Client) (token : Value Num) → Extends (after_expiry k6 env token)
  unfolding after_expiry
  after_expiry-Extends k6 token = search extends_rules depth 40

  refresh_flow-fails :
      (k6 : Host Num Client) (es : List (Event Num))
      → Delivers k6 (base_url env) (serve as_int of_int hash)
      → 2 ≤ m
      → ¬ Succeeds (refresh_flow k6 env (record { world = (s, jar); events = es }))
  unfolding refresh_flow to_text
  refresh_flow-fails k6 es d many =
      let login = login_reply of_int hash user m n s in
      rw
        (
          send-Delivers d _ "/api/login" (s, jar) _ login refl
              (login_served as_int of_int ints hash digest env m n h s jar),
          check-Delivers d "login ok" 200 login refl,
          d.json login "access_token",
          d.json login "refresh_token",
          send-Delivers d _ "/api/profile" (in_login hash user m n s, jar) _ profile_reply refl
              (first_profile as_int of_int ints hash digest env m n h s jar),
          check-Delivers d "initial profile ok" 200 profile_reply refl,
          send-Delivers d _ "/api/profile" (in_profile hash user m n s, jar) _ profile_reply refl
              (live_profile many),
        )
        (check-fails k6 _ (λ b. after_expiry k6 env (text (first_refresh hash user m n s))) _
          (λ b. after_expiry-Extends k6 _)
          (wrong_status-Delivers d "expired profile rejected" 401 profile_reply
            (λ e. absurd (omega arith))))

  -- Against the auth application in any state, for a user name of 1 to 64 characters, the demo
  -- password, two to five uses for an access token and one to three for a refresh token, an
  -- iteration never succeeds: the script uses the first token only once before it expects the token
  -- to have expired.
  pub refresh_iteration-fails :
      (k6 : Host Num Client)
      → Delivers k6 (base_url env) (serve as_int of_int hash)
      → 2 ≤ m
      → ¬ Succeeds (run (iteration k6 env) (s, jar))
  unfolding iteration
  refresh_iteration-fails k6 d many = elim (Bool-cases (assert_failure_branches env)) [
    | inl on ↦
        rw
          (
            on,
            send-Delivers d _ "/api/login" (s, jar) (s, jar) bad_reply refl
                (bad_login_served as_int of_int ints hash digest env m n h s jar),
            check-Delivers d "bad login is rejected" 401 bad_reply refl,
          )
          (refresh_flow-fails k6 _ d many)
    | inr off ↦ rw off (refresh_flow-fails k6 [] d many)
  ]
