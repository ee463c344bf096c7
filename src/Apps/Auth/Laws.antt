-- ===== src/Apps/Auth/Laws.antt =====
-- The life of a token in target-apps/apps/auth_flow_api.py.
use Prim.Native.String.{◌++◌}
use p_loadtesting.Prelude.{
  ℕ, ◌-◌, ◌<◌, String, ◌≡◌, true, false, some, arith, lookup, insert, lookup-insert, eq_refl, List,
}
use p_loadtesting.Apps.Auth.{
  Token, State, issue_access_token, token_of, bearer_token, use_token, require_user,
}
use p_loadtesting.Apps.Auth.Handlers.{profile, logout, refresh}
use p_loadtesting.Apps.Http.{reply, http_error}
use p_loadtesting.Js.Text.Prefix.{strip_prefix-append}
use p_loadtesting.Js.Value.{text, number, array, cons, nil, end, field, Fields}

pub lookup-insert_self {ℓ} :
    {Entry : Type ℓ} (key : String) (value : Entry) (dict : List (String × Entry))
    → lookup key (insert key value dict) ≡ some value
lookup-insert_self key value dict = simp (lookup-insert, eq_refl)

pub bearer_token-append : (token : String) → bearer_token (some ("Bearer " ++ token)) ≡ some token
unfolding bearer_token
bearer_token-append token = strip_prefix-append "Bearer " token

abbrev pub spend : Token → Token
spend t = record t { uses_left = t.uses_left - 1 }

abbrev pub profile_of : {Num : Type 0} → String → Fields Num
profile_of username =
    field "username" (text username)
      (field "roles" (array (cons (text "tester") nil)) (field "tenant" (text "demo") end))

module _ {Num : Type 0} (token : String) (t : Token) (s : State)
    (found : lookup token s.access_tokens ≡ some t) where
  -- A token that is neither revoked nor spent gives the profile, and loses one use.
  pub profile-live :
      t.revoked ≡ false
      → 0 < t.uses_left
      → profile (some ("Bearer " ++ token)) s ≡ (
        reply {Num = Num} 200 (profile_of t.username),
        record s { access_tokens = insert token (spend t) s.access_tokens },
      )
  unfolding profile require_user use_token
  profile-live live left = ground (arith, bearer_token-append token)

  -- A spent token is refused, and nothing changes.
  pub profile-spent :
      t.revoked ≡ false
      → t.uses_left ≡ 0
      → profile {Num = Num} (some ("Bearer " ++ token)) s
        ≡ (http_error 401 "Expired bearer token.", s)
  unfolding profile require_user use_token
  profile-spent live spent = ground (arith, bearer_token-append token)

  -- A revoked token is refused whatever uses it has left, and nothing changes.
  pub profile-revoked :
      t.revoked ≡ true
      → profile {Num = Num} (some ("Bearer " ++ token)) s
        ≡ (http_error 401 "Revoked bearer token.", s)
  unfolding profile require_user use_token
  profile-revoked revoked = ground (arith, bearer_token-append token)

  pub logout-known : logout {Num = Num} (some ("Bearer " ++ token)) s ≡ (
    reply 200 (field "status" (text "logged_out") end),
    record s { access_tokens = insert token (record t { revoked = true }) s.access_tokens },
  )
  unfolding logout
  logout-known = ground (arith, bearer_token-append token)

-- A refresh with a live refresh token spends one of its uses and issues an access token for its
-- user.
abbrev pub refreshed : (String → String) → String → ℕ → Token → State → State
refreshed hash token uses t s =
    let s₁ : State = record s { refresh_tokens = insert token (spend t) s.refresh_tokens } in
    (issue_access_token hash t.username uses s₁).1

module _ {Num : Type 0} (of_int : ℕ → Num) (hash : String → String) (token : String) (uses : ℕ)
    (t : Token) (s : State) (found : lookup token s.refresh_tokens ≡ some t) where
  pub refresh-live :
      t.revoked ≡ false
      → 0 < t.uses_left
      → refresh of_int hash (record { refresh_token = token; access_token_uses = uses }) s ≡ (
        reply 200 (
            field "access_token" (text (token_of hash "demo-access" t.username s.token_counter)) (
              field "token_type" (text "bearer") (
                field "access_uses_left"
                  (number (of_int uses))
                  (field "refresh_uses_left" (number (of_int (t.uses_left - 1))) end)))),
        refreshed hash token uses t s,
      )
  unfolding refresh issue_access_token
  refresh-live live left = ground arith
