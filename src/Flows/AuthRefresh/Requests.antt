-- ===== src/Flows/AuthRefresh/Requests.antt =====
-- The request bodies of target_apps_auth_refresh_flow.js, as target-apps/apps/auth_flow_api.py reads
-- them.
use Prim.Native.String.{count}
use p_loadtesting.Prelude.{ℕ, ◌≤◌, ◌<◌, String, ◌≡◌, ap, ◌∙◌, Option, some, [], ◌∷◌, arith}
use p_loadtesting.Env.{Env, setting}
use p_loadtesting.Apps.Auth.Requests.{login_request, refresh_request}
use p_loadtesting.Flows.{ReadsIntegers, IsDigest}
use p_loadtesting.Js.Number.{JsNumber, safe}
use p_loadtesting.Js.Text.{decimal}
use p_loadtesting.Js.Value.{Value, object, fields, text, number}
use p_loadtesting.Scripts.AuthRefresh.{access_token_uses, refresh_uses, login_body}
use p_loadtesting.Scripts.Login.{username, password}

-- The settings are those of a user who may log in.
pub record IsUser (env : Env) (m n : ℕ) : Type 0 where
  pub name_lo : 1 ≤ count (username env)
  pub name_hi : count (username env) ≤ 64
  pub password : password env ≡ "demo-password"
  pub uses : setting env "ACCESS_TOKEN_USES" "1" ≡ decimal m
  pub refreshes : setting env "REFRESH_USES" "2" ≡ decimal n
  pub uses_lo : 1 ≤ m
  pub uses_hi : m ≤ 5
  pub refreshes_lo : 1 ≤ n
  pub refreshes_hi : n ≤ 3

pub refresh_request-fits :
    {Num : Type 0} (as_int : Value Num → Option ℕ) (token : String) (x : Num) (m : ℕ)
    → count token ≡ 64
    → as_int (number x) ≡ some (m)
    → 1 ≤ m
    → m ≤ 5
    → refresh_request as_int
        (object (fields (("refresh_token", text token) ∷ ("access_token_uses", number x) ∷ [])))
      ≡ some (record { refresh_token = token; access_token_uses = m })
unfolding refresh_request
refresh_request-fits as_int token x m long ex lo hi = ground arith

-- The login of the failure branches fits, with the defaults of the numbers that it leaves out.
pub login_request-bad :
    {Num : Type 0} (as_int : Value Num → Option ℕ) (name : String)
    → 1 ≤ count name
    → count name ≤ 64
    → login_request as_int
        (object (fields (("username", text name) ∷ ("password", text "bad-password") ∷ [])))
      ≡ some (record {
        username = name;
        password = "bad-password";
        access_token_uses = 3;
        refresh_uses = 2;
      })
unfolding login_request
login_request-bad as_int name lo hi = ground arith

pub small : (n : ℕ) → n ≤ 5 → n < safe
small n h = omega arith

pub login_request-fits :
    {Num : Type 0} (as_int : Value Num → Option ℕ) (name word : String) (x y : Num) (m n : ℕ)
    → 1 ≤ count name
    → count name ≤ 64
    → word ≡ "demo-password"
    → as_int (number x) ≡ some m
    → as_int (number y) ≡ some n
    → (1 ≤ m) × (m ≤ 5)
    → (1 ≤ n) × (n ≤ 3)
    → login_request as_int (
        object (
          fields (
            ("username", text name)
            ∷ ("password", text word)
            ∷ ("access_token_uses", number x)
            ∷ ("refresh_uses", number y)
            ∷ [])))
      ≡ some (record {
        username = name;
        password = "demo-password";
        access_token_uses = m;
        refresh_uses = n;
      })
unfolding login_request
login_request-fits as_int name word x y m n lo hi same ex ey bm bn = rw same (ground arith)

module _ {Num : Type 0} ⦃num : JsNumber Num⦄ (as_int : Value Num → Option ℕ)
    (ints : ReadsIntegers num as_int) (hash : String → String) (digest : IsDigest hash)
    (env : Env) where
  pub uses_eq :
      (uses refreshes : ℕ) → IsUser env uses refreshes → access_token_uses env ≡ num.of_ℕ uses
  uses_eq uses refreshes h = ap num.parse h.uses ∙ num.parse-decimal uses (small uses h.uses_hi)

  pub refreshes_eq :
      (uses refreshes : ℕ) → IsUser env uses refreshes → refresh_uses env ≡ num.of_ℕ refreshes
  refreshes_eq uses refreshes h =
      ap num.parse h.refreshes ∙ num.parse-decimal refreshes (small refreshes (omega arith))

  pub login_request-login_body :
      (uses refreshes : ℕ)
      → IsUser env uses refreshes
      → login_request as_int (login_body env)
        ≡ some (record {
          username = username env;
          password = "demo-password";
          access_token_uses = uses;
          refresh_uses = refreshes;
        })
  unfolding login_request
  login_request-login_body uses refreshes h =
      login_request-fits as_int (username env) (password env) (access_token_uses env)
        (refresh_uses env) uses refreshes h.name_lo h.name_hi h.password
        (ap (λ x. as_int (number x)) (uses_eq uses refreshes h)
          ∙ ints.as_int-of_ℕ uses (small uses h.uses_hi))
        (ap (λ x. as_int (number x)) (refreshes_eq uses refreshes h)
          ∙ ints.as_int-of_ℕ refreshes (small refreshes (omega arith)))
        (h.uses_lo, h.uses_hi) (h.refreshes_lo, h.refreshes_hi)
