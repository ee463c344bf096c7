-- ===== src/Scripts/Sockets.antt =====
-- What target_apps_ws_echo_smoke.js and target_apps_ws_broadcast_smoke.js of engines/k6 share: the
-- address, and a WebSocket as k6 drives it. `ws.connect` runs the script's handlers on the events
-- of the socket, one after the other, and returns once the socket is closed.
use Prim.Native.String.{◌++◌}
use p_loadtesting.Prelude.{
  ℕ, String, Bool, false, Option, none, some, List, [], ◌∷◌, ◌==◌, ◌++◌ as append,
}
use p_loadtesting.Env.{Env, setting}
use p_loadtesting.Js.Outcome.{returned}
use p_loadtesting.Js.Text.{strip_prefix}
use p_loadtesting.K6.{Checks, Host, M, pure, check, ◌>>=◌, ◌>>◌}

-- `received message`, the timer of `setTimeout`, and `close`
pub data SocketEvent : Type 0 where
  received : String → SocketEvent
  timer_fired : SocketEvent
  closed : SocketEvent

-- `socket.send(message)` and `socket.close()`
pub data Command : Type 0 where
  say : String → Command
  hang_up : Command

-- The two variables of the script: whether it saw the welcome, and the answer that it waits for.
pub record Seen : Type 0 where
  pub welcome : Bool
  pub answer : Bool

abbrev pub nothing_seen : Seen
nothing_seen = record { welcome = false; answer = false }

-- What the events of a socket lead to: the variables, the commands in their order, and the checks
-- that the handler of `close` asks for.
pub record Conversation : Type 0 where
  pub seen : Seen
  pub commands : List Command
  pub checks : List Checks

abbrev pub base_url : Env → String
base_url env = setting env "TARGET_URL" "http://127.0.0.1:18088"

-- `BASE_URL.replace(/^http/, 'ws')`
unfoldable pub ws_url : Env → String
unfolding strip_prefix
ws_url env = elim (strip_prefix "http" (base_url env)) [
  | none ↦ base_url env
  | some rest ↦ "ws" ++ rest
]

-- `r && r.status === 101`; `none` is a response that is null.
abbrev pub is_switched : Option ℕ → Bool
is_switched none = false
is_switched (some status) = status == 101

-- A script's handlers, on the events of a socket.
module _ (on_message : String → Seen → Seen × List Command) (on_close : Seen → Checks) where
  abbrev pub handle : SocketEvent → Seen → Conversation
  handle (received message) seen =
      let (seen', commands) = on_message message seen in
      record { seen = seen'; commands = commands; checks = [] }
  handle timer_fired seen = record { seen = seen; commands = hang_up ∷ []; checks = [] }
  handle closed seen = record { seen = seen; commands = []; checks = on_close seen ∷ [] }

  -- The handlers on the events in their order; the socket is gone once it is closed.
  unfoldable pub converse : List SocketEvent → Seen → Conversation
  converse [] seen = record { seen = seen; commands = []; checks = [] }
  converse (closed ∷ events) seen = handle closed seen
  converse (event ∷ events) seen =
      let now = handle event seen in
      let later = converse events now.seen in
      record {
        seen = later.seen;
        commands = append now.commands later.commands;
        checks = append now.checks later.checks;
      }

-- k6's WebSocket client: the status of the response, if it is one, and the events that the socket
-- delivers while it is open.
pub record SocketHost (World : Type 0) : Type 0 where
  pub connect : (url : String) → World → (Option ℕ × List SocketEvent) × World

module _ {Num World : Type 0} where
  abbrev pub connect : SocketHost World → String → M Num World (Option ℕ × List SocketEvent)
  connect ws url s =
      let (answer, w) = ws.connect url s.world in (returned answer, record s { world = w })

  abbrev pub check_all : Host Num World → List Checks → M Num World (Unit {0})
  check_all k6 [] = pure tt
  check_all k6 (cs ∷ css) = do check k6 cs; check_all k6 css

  -- The default function of both scripts: connect, run the handlers, check the handshake.
  unfoldable pub exchange :
      Host Num World
      → SocketHost World
      → (url handshake : String) → (String → Seen → Seen × List Command)
      → (Seen → Checks)
      → M Num World (Unit {0})
  unfolding converse
  exchange k6 ws url handshake on_message on_close = do
    (status, events) ← connect ws url
    check_all k6 (converse on_message on_close events nothing_seen).checks
    check k6 ((handshake, returned (is_switched status)) ∷ [])
    pure tt
