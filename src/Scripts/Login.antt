-- ===== src/Scripts/Login.antt =====
-- The settings that the scripts for the auth target share: target_apps_auth_refresh_flow.js,
-- target_apps_auth_checkout.js and target_apps_auth_session_mfa_flow.js of engines/k6 declare the
-- same constants.
use Prim.Native.String.{◌++◌}
use p_loadtesting.Prelude.{String, List, [], ◌∷◌}
use p_loadtesting.Env.{Env, setting}
use p_loadtesting.Js.Number.{JsNumber}
use p_loadtesting.Js.Value.{Value, to_text}

abbrev pub base_url : Env → String
base_url env = setting env "TARGET_URL" "http://127.0.0.1:18086"

abbrev pub username : Env → String
username env = setting env "DEMO_USERNAME" "alice"

abbrev pub password : Env → String
password env = setting env "DEMO_PASSWORD" "demo-password"

-- `{ Authorization: `Bearer ${token}` }`
abbrev pub bearer : {Num : Type 0} ⦃num : JsNumber Num⦄ → Value Num → List (String × String)
bearer token = ("Authorization", "Bearer " ++ to_text token) ∷ []
