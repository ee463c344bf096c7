-- ===== src/Examples/SocketTests.antt =====
-- The WebSocket scripts of engines/k6 on concrete events.
use p_loadtesting.Prelude.{refl, ◌≡◌, true, List, [], ◌∷◌}
use p_loadtesting.Env.{Env}
use p_loadtesting.Examples.Settings.{env_of}
use p_loadtesting.Flows.Sockets.{
  is_welcome, IsGreeting, ws_echo-IsGreeting, ws_broadcast-IsGreeting,
}
use p_loadtesting.Scripts.Sockets.{
  SocketEvent, received, timer_fired, closed, say, hang_up, nothing_seen, converse,
}
use p_loadtesting.Scripts.WsEcho as Echo
use p_loadtesting.Scripts.WsBroadcast as Broadcast

abbrev defaults : Env
defaults = env_of []

abbrev echo_events : List SocketEvent
echo_events =
    received "{\"event\":\"welcome\",\"sequence\":0}"
    ∷ received "{\"event\":\"echo\",\"message\":\"smoke-echo\",\"sequence\":1}"
    ∷ closed
    ∷ timer_fired
    ∷ []

abbrev broadcast_events : List SocketEvent
broadcast_events =
    received "{\"event\":\"welcome\",\"room\":\"smoke-room\"}" ∷ timer_fired ∷ closed ∷ []

echo_commands :
    (converse (Echo.on_message defaults) Echo.on_close echo_events nothing_seen).commands
    ≡ say "smoke-echo" ∷ hang_up ∷ []
unfolding converse Echo.on_message
echo_commands = refl

echo_answered :
    (converse (Echo.on_message defaults) Echo.on_close echo_events nothing_seen).seen.answer ≡ true
unfolding converse Echo.on_message
echo_answered = refl

ws_echo-IsGreeting_example :
    IsGreeting is_welcome "smoke-echo" echo_events nothing_seen
      (converse (Echo.on_message defaults) Echo.on_close echo_events nothing_seen)
ws_echo-IsGreeting_example = ws_echo-IsGreeting defaults echo_events nothing_seen

ws_broadcast-IsGreeting_example :
    IsGreeting is_welcome "smoke-broadcast" broadcast_events nothing_seen
      (converse (Broadcast.on_message defaults) Broadcast.on_close broadcast_events nothing_seen)
ws_broadcast-IsGreeting_example = ws_broadcast-IsGreeting defaults broadcast_events nothing_seen
