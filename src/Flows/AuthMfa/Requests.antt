-- ===== src/Flows/AuthMfa/Requests.antt =====
-- The requests of an MFA login, as target-apps/apps/auth_flow_api.py reads them.
use Prim.Native.String.{◌++◌, count}
use p_loadtesting.Prelude.{
  ℕ, ◌*◌, ◌%◌, ◌≤◌, String, ◌≡◌, true, false, Option, some, [], ◌∷◌, arith, lookup, insert, eq_iff,
  eq_refl,
}
use p_loadtesting.Apps.Auth as Server
use p_loadtesting.Apps.Auth.{
  Token, State, Challenge, issue_mfa_challenge, issue_access_token, issue_refresh_token, token_of,
  fresh_token, sum_bytes,
}
use p_loadtesting.Apps.Auth.Handlers.{mfa_login_verify, mfa_issue}
use p_loadtesting.Apps.Auth.Requests.{MfaVerifyRequest, mfa_start_request, mfa_verify_request}
use p_loadtesting.Js.Text.Reading.Width.{count-pad_start}
use p_loadtesting.Js.Text.{utf8}
use p_loadtesting.Js.Value.{Value, text, number, object, fields}

pub count-expected_mfa_code :
    (name channel : String) → count (Server.expected_mfa_code name channel) ≡ 6
unfolding Server.expected_mfa_code
count-expected_mfa_code name channel =
    count-pad_start ((sum_bytes (utf8 (name ++ "|" ++ channel)) * 137) % 1_000_000) (omega arith)

pub start_request-fits :
    {Num : Type 0} (as_int : Value Num → Option ℕ) (name word channel : String)
    → 1 ≤ count name
    → count name ≤ 64
    → word ≡ "demo-password"
    → channel ≡ "sms"
    → mfa_start_request as_int (
        object (
          fields
            (("username", text name) ∷ ("password", text word) ∷ ("channel", text channel) ∷ [])))
      ≡ some (record { username = name; password = "demo-password"; channel = "sms" })
unfolding mfa_start_request
start_request-fits as_int name word channel lo hi same sms = rw (same, sms) (ground arith)

pub verify_request-fits :
    {Num : Type 0} (as_int : Value Num → Option ℕ) (id code mode : String) (x y : Num)
    → count id ≡ 64
    → count code ≡ 6
    → mode ≡ "bearer"
    → as_int (number x) ≡ some 2
    → as_int (number y) ≡ some 1
    → mfa_verify_request as_int (
        object (
          fields (
            ("challenge_id", text id)
            ∷ ("code", text code)
            ∷ ("issue_mode", text mode)
            ∷ ("access_token_uses", number x)
            ∷ ("refresh_uses", number y)
            ∷ ("session_uses", number x)
            ∷ [])))
      ≡ some (record {
        challenge_id = id;
        code = code;
        issue_mode = "bearer";
        access_token_uses = 2;
        refresh_uses = 1;
        session_uses = 2;
      })
unfolding mfa_verify_request
verify_request-fits as_int id code mode x y long six bearer ex ey = rw bearer (ground arith)

-- The right code for a challenge that is not used.
pub mfa_login_verify-matches :
    {Num : Type 0} (of_int : ℕ → Num) (hash : String → String) (body : MfaVerifyRequest)
    (c : Challenge) (s : State)
    → lookup body.challenge_id s.mfa_challenges ≡ some c
    → c.used ≡ false
    → c.expected_code ≡ body.code
    → mfa_login_verify of_int hash body s
      ≡ mfa_issue of_int hash body c (record s {
        mfa_challenges = insert body.challenge_id (record c { used = true }) s.mfa_challenges;
      })
unfolding mfa_login_verify
mfa_login_verify-matches of_int hash body c s found fresh same =
    ground (arith, eq_refl body.code, eq_iff c.expected_code body.code)
