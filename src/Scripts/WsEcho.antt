-- ===== src/Scripts/WsEcho.antt =====
-- engines/k6/target_apps_ws_echo_smoke.js
use Prim.Native.String.{◌++◌}
use p_loadtesting.Prelude.{String, Bool, true, ◌&&◌, some, List, [], ◌∷◌, if◌then◌else◌}
use p_loadtesting.Env.{Env, setting}
use p_loadtesting.Js.Number.{JsNumber}
use p_loadtesting.Js.Outcome.{returned}
use p_loadtesting.Js.Text.{includes}
use p_loadtesting.K6.{Checks, Host, M}
use p_loadtesting.Options.{Options, no_options}
use p_loadtesting.Scripts.Sockets.{Command, say, hang_up, Seen, SocketHost, ws_url, exchange}

abbrev pub ws_path : Env → String
ws_path env = setting env "WS_PATH" "/ws/echo"

abbrev pub ws_message : Env → String
ws_message env = setting env "WS_MESSAGE" "smoke-echo"

module _ {Num : Type 0} ⦃num : JsNumber Num⦄ where
  unfoldable pub options : Options Num
  options = record no_options { vus = some (num.of_ℕ 1); iterations = some (num.of_ℕ 2) }

-- `message.includes(`"message":"${WS_MESSAGE}"`) && message.includes('"sequence":1')`
unfoldable pub is_answer : Env → String → Bool
unfolding includes
is_answer env message =
    includes message ("\"message\":\"" ++ ws_message env ++ "\"")
    && includes message "\"sequence\":1"

unfoldable pub on_message : Env → String → Seen → Seen × List Command
unfolding is_answer
on_message env message seen =
    if includes message "\"event\":\"welcome\""
    then (record seen { welcome = true }, say (ws_message env) ∷ [])
    else if includes message "\"event\":\"echo\""
    then (record seen { answer = is_answer env message }, hang_up ∷ [])
    else (seen, [])

abbrev pub on_close : Seen → Checks
on_close seen =
    ("ws echo welcome received", returned seen.welcome)
    ∷ ("ws echo response received", returned seen.answer)
    ∷ []

module _ {Num World : Type 0} (k6 : Host Num World) (ws : SocketHost World) (env : Env) where
  unfoldable pub iteration : M Num World (Unit {0})
  unfolding exchange on_message ws_url
  iteration =
      exchange k6 ws (ws_url env ++ ws_path env ++ "?deterministic=true")
        "ws echo handshake status is 101" (on_message env) on_close
