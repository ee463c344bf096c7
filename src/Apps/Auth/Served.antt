-- ===== src/Apps/Auth/Served.antt =====
-- The replies of target-apps/apps/auth_flow_api.py to requests with a bearer token.
use Prim.Native.String.{◌++◌}
use p_loadtesting.Prelude.{
  ℕ, ◌<◌, String, ◌≡◌, true, false, Option, some, List, ◌∷◌, lookup, insert,
}
use p_loadtesting.Apps.Auth.{Token, State}
use p_loadtesting.Apps.Auth.Laws.{
  spend, profile_of, profile-live, profile-spent, profile-revoked, logout-known,
}
use p_loadtesting.Apps.Auth.Serve.{serve}
use p_loadtesting.Apps.Http.{reply, http_error}
use p_loadtesting.Js.Value.{Value, field, text, end}
use p_loadtesting.K6.{get_of, post_of, no_payload}

-- The state with a token of the access table set anew.
abbrev pub with_access : String → Token → State → State
with_access token t s = record s { access_tokens = insert token t s.access_tokens }

abbrev pub revoke : Token → Token
revoke t = record t { revoked = true }

module _ {Num : Type 0} (as_int : Value Num → Option ℕ) (of_int : ℕ → Num) (hash : String → String)
    (url token : String) (more : List (String × String)) (t : Token) (s : State)
    (jar : Option String) (found : lookup token s.access_tokens ≡ some t) where
  pub profile_served-live :
      t.revoked ≡ false
      → 0 < t.uses_left
      → serve as_int of_int hash
          (record (get_of url) { headers = ("Authorization", "Bearer " ++ token) ∷ more })
          "/api/profile"
          (s, jar)
        ≡ (reply 200 (profile_of t.username), (with_access token (spend t) s, jar))
  unfolding serve
  profile_served-live live left = rw (profile-live token t s found live left)

  pub profile_served-spent :
      t.revoked ≡ false
      → t.uses_left ≡ 0
      → serve as_int of_int hash
          (record (get_of url) { headers = ("Authorization", "Bearer " ++ token) ∷ more })
          "/api/profile"
          (s, jar)
        ≡ (http_error 401 "Expired bearer token.", (s, jar))
  unfolding serve
  profile_served-spent live spent = rw (profile-spent token t s found live spent)

  pub profile_served-revoked :
      t.revoked ≡ true
      → serve as_int of_int hash
          (record (get_of url) { headers = ("Authorization", "Bearer " ++ token) ∷ more })
          "/api/profile"
          (s, jar)
        ≡ (http_error 401 "Revoked bearer token.", (s, jar))
  unfolding serve
  profile_served-revoked revoked = rw (profile-revoked token t s found revoked)

  pub logout_served :
      serve as_int of_int hash
        (post_of url no_payload (("Authorization", "Bearer " ++ token) ∷ more))
        "/api/logout"
        (s, jar)
      ≡ (reply 200 (field "status" (text "logged_out") end), (with_access token (revoke t) s, jar))
  unfolding serve
  logout_served = rw (logout-known token t s found)
