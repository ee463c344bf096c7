-- ===== src/Scripts/AuthCheckout.antt =====
-- engines/k6/target_apps_auth_checkout.js
use Prim.Native.String.{◌++◌}
use p_loadtesting.Prelude.{String, List, [], ◌∷◌, none, some}
use p_loadtesting.Env.{Env, setting}
use p_loadtesting.Execution.{Defaults, execution_options}
use p_loadtesting.Js.Number.{JsNumber}
use p_loadtesting.Js.Value.{Value, text, number, object, fields, to_text}
use p_loadtesting.K6.{
  Host, M, pure, lift, send, check, get_of, post_of, json_of, json_content, has_status, ◌>>=◌, ◌>>◌,
}
use p_loadtesting.Options.{Options}
use p_loadtesting.Scripts.Login.{base_url, username, password}

abbrev pub sku : Env → String
sku env = setting env "DEMO_SKU" "sku-1"

module _ {Num : Type 0} ⦃num : JsNumber Num⦄ where
  abbrev pub defaults : Defaults Num
  defaults = record {
    vus = some (num.of_ℕ 5);
    duration_seconds = some (num.of_ℕ 20);
    ramp_up_seconds = none;
    ramp_down_seconds = none;
    graceful_stop_seconds = none;
    iterations = none;
    data_policy = none;
    thresholds =
        some (("http_req_failed", "rate==0" ∷ []) ∷ ("http_req_duration", "p(95)<2000" ∷ []) ∷ []);
  }

  unfoldable pub options : Env → Options Num
  options env = execution_options env defaults

  abbrev pub quantity : Env → Num
  quantity env = num.parse (setting env "DEMO_QUANTITY" "1")

  abbrev pub login_body : Env → Value Num
  login_body env =
      object (fields (("username", text (username env)) ∷ ("password", text (password env)) ∷ []))

  abbrev pub checkout_body : Env → Value Num
  checkout_body env =
      object (fields (("sku", text (sku env)) ∷ ("quantity", number (quantity env)) ∷ []))

  abbrev pub auth_headers : Value Num → List (String × String)
  auth_headers token =
      ("Authorization", "Bearer " ++ to_text token) ∷ ("Content-Type", "application/json") ∷ []

module _ {Num World : Type 0} ⦃num : JsNumber Num⦄ (k6 : Host Num World) (env : Env) where
  unfoldable pub iteration : M Num World (Unit {0})
  iteration = do
    login ← send k6 (post_of (base_url env ++ "/api/login") (json_of (login_body env)) json_content)
    check k6 (("login ok", has_status 200 login) ∷ [])
    token ← lift (login.json "access_token")
    profile ←
        send k6 (record (get_of (base_url env ++ "/api/profile")) { headers = auth_headers token })
    check k6 (("profile ok", has_status 200 profile) ∷ [])
    checkout ← send k6 (
        post_of (base_url env ++ "/api/checkout") (json_of (checkout_body env))
          (auth_headers token))
    check k6 (("checkout ok", has_status 200 checkout) ∷ [])
    pure tt
