-- ===== src/Scripts/WsBroadcast.antt =====
-- engines/k6/target_apps_ws_broadcast_smoke.js
use Prim.Native.String.{◌++◌}
use p_loadtesting.Prelude.{String, Bool, true, ◌&&◌, some, List, [], ◌∷◌, if◌then◌else◌}
use p_loadtesting.Env.{Env, setting}
use p_loadtesting.Js.Number.{JsNumber}
use p_loadtesting.Js.Outcome.{returned}
use p_loadtesting.Js.Text.{includes}
use p_loadtesting.K6.{Checks, Host, M}
use p_loadtesting.Options.{Options, no_options}
use p_loadtesting.Scripts.Sockets.{Command, say, hang_up, Seen, SocketHost, ws_url, exchange}

abbrev pub room : Env → String
room env = setting env "WS_ROOM" "smoke-room"

abbrev pub message : Env → String
message env = setting env "WS_MESSAGE" "smoke-broadcast"

module _ {Num : Type 0} ⦃num : JsNumber Num⦄ where
  unfoldable pub options : Options Num
  options = record no_options { vus = some (num.of_ℕ 1); iterations = some (num.of_ℕ 2) }

-- `message.includes(`"message":"${MESSAGE}"`) && message.includes(`"room":"${ROOM}"`)`
unfoldable pub is_broadcast : Env → String → Bool
unfolding includes
is_broadcast env text =
    includes text ("\"message\":\"" ++ message env ++ "\"")
    && includes text ("\"room\":\"" ++ room env ++ "\"")

unfoldable pub on_message : Env → String → Seen → Seen × List Command
unfolding is_broadcast
on_message env text seen =
    if includes text "\"event\":\"welcome\""
    then (record seen { welcome = true }, say (message env) ∷ [])
    else if includes text "\"event\":\"broadcast\""
    then (record seen { answer = is_broadcast env text }, hang_up ∷ [])
    else (seen, [])

abbrev pub on_close : Seen → Checks
on_close seen =
    ("ws broadcast welcome received", returned seen.welcome)
    ∷ ("ws broadcast message received", returned seen.answer)
    ∷ []

module _ {Num World : Type 0} (k6 : Host Num World) (ws : SocketHost World) (env : Env) where
  unfoldable pub iteration : M Num World (Unit {0})
  unfolding exchange on_message ws_url
  iteration =
      exchange k6 ws
        (ws_url env ++ "/ws/broadcast/" ++ room env ++ "?client_id=publisher&deterministic=true")
        "ws broadcast handshake status is 101" (on_message env) on_close
