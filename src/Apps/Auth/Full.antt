-- ===== src/Apps/Auth/Full.antt =====
-- target-apps/apps/auth_flow_api.py never forgets an MFA challenge.
use Prim.Native.String.{◌++◌}
use p_loadtesting.Prelude.{
  ℕ, ◌≤◌, String, ◌≡◌, refl, Bool, true, false, if◌then◌else◌, Option, none, some, List, [], ◌∷◌,
  length, insert, lookup, str_eq, arith, Option-cases, inl, inr, le→leb,
}
use p_loadtesting.Apps.Auth.{
  State, require_user, require_session, use_token, issue_access_token, issue_refresh_token,
  issue_session, issue_mfa_challenge, Challenge, token_of, expected_mfa_code,
}
use p_loadtesting.Apps.Auth.Handlers.{
  login, session_login, refresh, mfa_login_start, mfa_login_verify, mfa_issue, profile,
  session_profile, logout, session_logout, checkout,
}
use p_loadtesting.Apps.Auth.Requests.{
  LoginRequest, SessionLoginRequest, RefreshRequest, MfaStartRequest, MfaVerifyRequest,
  CheckoutRequest, login_request, session_login_request, refresh_request, mfa_start_request,
  mfa_verify_request, checkout_request,
}
use p_loadtesting.Apps.Auth.Serve.{Client, health, serve, serve_method, with_body}
use p_loadtesting.Apps.Http.{Reply, http_error}
use p_loadtesting.Js.Value.{Value}
use p_loadtesting.K6.{Request, Method, get, post, Payload, no_payload, json_of, raw}

length-insert :
    {Entry : Type 0} (key : String) (x : Entry) (dict : List (String × Entry))
    → length dict ≤ length (insert key x dict)
length-insert key x [] = omega arith
length-insert key x (y ∷ dict) = ground (arith, length-insert key x dict)

-- The handler keeps at least as many challenges as there are.
record KeepsChallenges {Num : Type 0} (handler : State → Reply Num × State) : Type 0 where
  at : (s : State) → length s.mfa_challenges ≤ length (handler s).1.mfa_challenges

module _ {Num : Type 0} (of_int : ℕ → Num) (hash : String → String) where
  login-keeps : (body : LoginRequest) → KeepsChallenges (login of_int hash body)
  unfolding login issue_access_token issue_refresh_token
  login-keeps body = record { at = λ s. ground arith }

  session_login-keeps :
      (body : SessionLoginRequest) → KeepsChallenges (session_login of_int hash body)
  unfolding session_login issue_session
  session_login-keeps body = record { at = λ s. ground arith }

  refresh-keeps : (body : RefreshRequest) → KeepsChallenges (refresh of_int hash body)
  unfolding refresh issue_access_token
  refresh-keeps body = record { at = λ s. ground arith }

  mfa_start-keeps : (body : MfaStartRequest) → KeepsChallenges (mfa_login_start of_int hash body)
  unfolding mfa_login_start issue_mfa_challenge
  mfa_start-keeps body = record {
    at = λ s.
        let id = token_of hash "demo-mfa" (body.username ++ "|" ++ body.channel) s.token_counter in
        let challenge : Challenge = record {
          username = body.username;
          channel = body.channel;
          expected_code = expected_mfa_code body.username body.channel;
          used = false;
        } in
        let grown = length-insert id challenge s.mfa_challenges in ground arith;
  }

  mfa_issue-keeps :
      (body : MfaVerifyRequest) (c : Challenge) → KeepsChallenges (mfa_issue of_int hash body c)
  unfolding mfa_issue issue_session issue_access_token issue_refresh_token
  mfa_issue-keeps body c = record { at = λ s. ground arith }

  mfa_verify-keeps : (body : MfaVerifyRequest) → KeepsChallenges (mfa_login_verify of_int hash body)
  unfolding mfa_login_verify
  mfa_verify-keeps body = record {
    at = λ s. elim (Option-cases (lookup body.challenge_id s.mfa_challenges)) [
      | inl gone ↦ rw (mfa_login_verify, gone) (omega arith)
      | inr (c, found) ↦
          let marked = insert body.challenge_id (record c { used = true }) s.mfa_challenges in
          let kept = (mfa_issue-keeps body c).at (record s { mfa_challenges = marked }) in
          let grown = length-insert body.challenge_id (record c { used = true }) s.mfa_challenges in
          rw (mfa_login_verify, found) (ground arith)
    ];
  }

  checkout-keeps :
      (body : CheckoutRequest) (a : Option String) → KeepsChallenges (checkout of_int body a)
  unfolding checkout require_user use_token
  checkout-keeps body a = record { at = λ s. ground arith }

module _ (Num : Type 0) where
  profile-keeps : (a : Option String) → KeepsChallenges (profile {Num = Num} a)
  unfolding profile require_user use_token
  profile-keeps a = record { at = λ s. ground arith }

  session_profile-keeps : (a : Option String) → KeepsChallenges (session_profile {Num = Num} a)
  unfolding session_profile require_session use_token
  session_profile-keeps none = record { at = λ s. omega arith }
  session_profile-keeps (some a) = record { at = λ s. ground arith }

  constant-keeps : (rep : Reply Num) → KeepsChallenges {Num = Num} (λ s. (rep, s))
  constant-keeps rep = record { at = λ s. omega arith }

  logout-keeps : (a : Option String) → KeepsChallenges (logout {Num = Num} a)
  unfolding logout
  logout-keeps a = record { at = λ s. ground arith }

  session_logout-keeps : (a : Option String) → KeepsChallenges (session_logout {Num = Num} a)
  unfolding session_logout
  session_logout-keeps none = record { at = λ s. omega arith }
  session_logout-keeps (some a) = record { at = λ s. ground arith }

module _ {Num : Type 0} where
  if-keeps :
      (test : Bool) (f g : State → Reply Num × State)
      → KeepsChallenges f
      → KeepsChallenges g
      → KeepsChallenges (if test then f else g)
  if-keeps true f g kf kg = kf
  if-keeps false f g kf kg = kg

  with_body-keeps :
      {R : Type 0} (decode : Value Num → Option R) (handler : R → State → Reply Num × State)
      (payload : Payload Num)
      → ((r : R) → KeepsChallenges (handler r))
      → KeepsChallenges (with_body decode handler payload)
  with_body-keeps decode handler no_payload k = record { at = λ s. omega arith }
  with_body-keeps decode handler (raw b) k = record { at = λ s. omega arith }
  with_body-keeps decode handler (json_of v) k = record {
    at = λ s. elim (Option-cases (decode v)) [
      | inl bad ↦ rw (with_body, bad) (omega arith)
      | inr (r, e) ↦ rw (with_body, e) ((k r).at s)
    ];
  }

module _ {Num : Type 0} (as_int : Value Num → Option ℕ) (of_int : ℕ → Num)
    (hash : String → String) where
  served-keeps :
      (method : Method) (req : Request Num) (path : String) (cookie : Option String)
      → KeepsChallenges (serve_method as_int of_int hash method req path cookie)
  served-keeps get req path cookie = if-keeps _ _ _ (constant-keeps Num health) (
      if-keeps _ _ _ (profile-keeps Num _) (
        if-keeps _ _ _ (session_profile-keeps Num cookie)
          (constant-keeps Num (http_error 404 "Not Found"))))
  served-keeps post req path cookie =
      let decoded =
        λ (R : Type 0) (decode : Value Num → Option R) (handler : R → State → Reply Num × State)
            (k : (r : R) → KeepsChallenges (handler r)).
          with_body-keeps decode handler req.payload k in
      let at_path =
        λ (route : String) (f g : State → Reply Num × State) (kf : KeepsChallenges f)
            (kg : KeepsChallenges g).
          if-keeps (str_eq path route) f g kf kg in
      at_path "/api/login" _ _ (decoded _ (login_request as_int) _ (login-keeps of_int hash)) (
        at_path "/api/session/login" _ _
          (decoded _ (session_login_request as_int) _ (session_login-keeps of_int hash))
          (at_path "/api/refresh" _ _
            (decoded _ (refresh_request as_int) _ (refresh-keeps of_int hash))
            (at_path "/api/mfa/login/start" _ _
              (decoded _ (mfa_start_request as_int) _ (mfa_start-keeps of_int hash))
              (at_path "/api/mfa/login/verify" _ _
                (decoded _ (mfa_verify_request as_int) _ (mfa_verify-keeps of_int hash))
                (at_path "/api/checkout" _ _
                  (decoded _ (checkout_request as_int) _
                    (λ body. checkout-keeps of_int hash body (lookup "Authorization" req.headers)))
                  (at_path "/api/logout" _ _ (logout-keeps Num (lookup "Authorization" req.headers))
                    (at_path "/api/session/logout" _ _ (session_logout-keeps Num cookie)
                      (constant-keeps Num (http_error 404 "Not Found")))))))))

  -- The application after requests that it serves one after another, each given with its path.
  unfoldable pub served_all : List (Request Num × String) → Client → Client
  unfolding serve
  served_all [] c = c
  served_all ((req, path) ∷ reqs) c = served_all reqs (serve as_int of_int hash req path c).1

  served_all-keeps :
      (reqs : List (Request Num × String)) (c : Client)
      → length c.0.mfa_challenges ≤ length (served_all reqs c).0.mfa_challenges
  unfolding served_all serve
  served_all-keeps [] c = omega arith
  served_all-keeps ((req, path) ∷ reqs) c =
      let first = (served-keeps req.method req path c.1).at c.0 in
      let later = served_all-keeps reqs (serve as_int of_int hash req path c).1 in omega arith

  full-refused :
      (body : MfaStartRequest) (s : State)
      → body.password ≡ "demo-password"
      → 20 ≤ length s.mfa_challenges
      → mfa_login_start of_int hash body s
        ≡ (http_error 422 "Too many active MFA challenges; cap is 20.", s)
  unfolding mfa_login_start issue_mfa_challenge
  full-refused body s same full = rw (same, le→leb 20 (length s.mfa_challenges) full) refl

  -- Once 20 MFA challenges have been issued, and whatever requests the application serves then, every
  -- start of an MFA login with the demo password is refused with status 422: a challenge that was
  -- used stays counted.
  pub mfa_login_start-full :
      (reqs : List (Request Num × String)) (c : Client) (body : MfaStartRequest)
      → 20 ≤ length c.0.mfa_challenges
      → body.password ≡ "demo-password"
      → mfa_login_start of_int hash body (served_all reqs c).0
        ≡ (http_error 422 "Too many active MFA challenges; cap is 20.", (served_all reqs c).0)
  mfa_login_start-full reqs c body full same =
      let kept = served_all-keeps reqs c in
      full-refused body (served_all reqs c).0 same (omega arith)
