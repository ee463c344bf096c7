-- ===== src/Flows/Sockets.antt =====
-- What the WebSocket scripts of engines/k6 send and see, on every sequence of events of a socket.
use p_loadtesting.Prelude.{
  ℕ, suc, ◌+◌, String, ◌≡◌, refl, Bool, true, false, ◌||◌, List, [], ◌∷◌, ◌++◌ as append, All,
  All-append, arith, ltb, length, Bool-cases, inl, inr, if◌then◌else◌,
}
use p_loadtesting.Env.{Env}
use p_loadtesting.Js.Text.{includes}
use p_loadtesting.K6.{Checks}
use p_loadtesting.Scripts.Sockets.{
  SocketEvent, received, timer_fired, closed, Command, say, hang_up, Seen, Conversation, converse,
}
use p_loadtesting.Scripts.WsEcho as Echo
use p_loadtesting.Scripts.WsBroadcast as Broadcast

-- The number of messages sent among the commands.
abbrev pub says : List Command → ℕ
says [] = 0
says (say _ ∷ cs) = suc (says cs)
says (hang_up ∷ cs) = says cs

-- The number of messages before the close that pass a test.
abbrev pub heard : (String → Bool) → List SocketEvent → ℕ
heard p [] = 0
heard p (received m ∷ es) = let later = heard p es in if p m then suc later else later
heard p (timer_fired ∷ es) = heard p es
heard p (closed ∷ es) = 0

-- Whether the socket is closed at some point.
abbrev pub closings : List SocketEvent → ℕ
closings [] = 0
closings (received m ∷ es) = closings es
closings (timer_fired ∷ es) = closings es
closings (closed ∷ es) = 1

says-append : (cs ds : List Command) → says (append cs ds) ≡ says cs + says ds
says-append [] ds = omega arith
says-append (say m ∷ cs) ds = omega (arith, says-append cs ds)
says-append (hang_up ∷ cs) ds = says-append cs ds

-- A command that sends this message, or hangs up.
abbrev pub Sends : String → Command → Type 0
Sends text (say m) = m ≡ text
Sends text hang_up = Unit

-- The handler answers a welcome with the message of the script, and nothing else with a message.
pub record Greets (on_message : String → Seen → Seen × List Command) (is_welcome : String → Bool)
    (text : String) : Type 0 where
  pub welcome :
      (m : String) (seen : Seen)
      → is_welcome m ≡ true
      → on_message m seen ≡ (record seen { welcome = true }, say text ∷ [])
  pub other_seen :
      (m : String) (seen : Seen)
      → is_welcome m ≡ false
      → (on_message m seen).0.welcome ≡ seen.welcome
  pub other_says :
      (m : String) (seen : Seen) → is_welcome m ≡ false → says (on_message m seen).1 ≡ 0
  pub other_sends :
      (m : String) (seen : Seen) → is_welcome m ≡ false → All (Sends text) (on_message m seen).1

-- What holds of a conversation from the variables `seen`, for the events of a socket: the script
-- sends its message as often as it is welcomed, and nothing else; it knows of a welcome exactly if
-- one came; and the checks are asked for once the socket is closed, and only then.
pub record IsGreeting (is_welcome : String → Bool) (text : String) (events : List SocketEvent)
    (seen : Seen) (c : Conversation) : Type 0 where
  pub answers : says c.commands ≡ heard is_welcome events
  pub sends : All (Sends text) c.commands
  pub welcome : c.seen.welcome ≡ (seen.welcome || ltb 0 (heard is_welcome events))
  pub checks : length c.checks ≡ closings events

module _ (on_message : String → Seen → Seen × List Command) (on_close : Seen → Checks)
    (is_welcome : String → Bool) (text : String) (greets : Greets on_message is_welcome text) where
  converse-IsGreeting :
      (events : List SocketEvent) (seen : Seen)
      → IsGreeting is_welcome text events seen (converse on_message on_close events seen)
  unfolding converse
  converse-IsGreeting [] seen = record {
    answers = refl;
    sends = tt;
    welcome = ground arith;
    checks = refl;
  }
  converse-IsGreeting (closed ∷ es) seen = record {
    answers = refl;
    sends = tt;
    welcome = ground arith;
    checks = refl;
  }
  converse-IsGreeting (timer_fired ∷ es) seen =
      let later = converse-IsGreeting es seen in
      record {
        answers = later.answers;
        sends = (tt, later.sends);
        welcome = later.welcome;
        checks = later.checks;
      }
  converse-IsGreeting (received m ∷ es) seen = elim (Bool-cases (is_welcome m)) [
    | inl hit ↦
        let later = converse-IsGreeting es (record seen { welcome = true }) in
        rw (greets.welcome m seen hit) (record {
          answers = ground (arith, later.answers);
          sends = (refl, later.sends);
          welcome = ground (arith, later.welcome);
          checks = later.checks;
        })
    | inr other ↦
        let later = converse-IsGreeting es (on_message m seen).0 in
        record {
          answers = ground (
            arith,
            later.answers,
            greets.other_says m seen other,
            says-append (on_message m seen).1
                (converse on_message on_close es (on_message m seen).0).commands,
          );
          sends =
              All-append (Sends text) (on_message m seen).1 _ (greets.other_sends m seen other)
                later.sends;
          welcome = ground (arith, later.welcome, greets.other_seen m seen other);
          checks = later.checks;
        }
  ]

abbrev pub is_welcome : String → Bool
is_welcome message = includes message "\"event\":\"welcome\""

echo-Greets : (env : Env) → Greets (Echo.on_message env) is_welcome (Echo.ws_message env)
unfolding Echo.on_message
echo-Greets env = record {
  welcome = λ m seen hit. ground arith;
  other_seen = λ m seen other. ground arith;
  other_says = λ m seen other. ground arith;
  other_sends = λ m seen other. ground arith;
}

broadcast-Greets :
    (env : Env) → Greets (Broadcast.on_message env) is_welcome (Broadcast.message env)
unfolding Broadcast.on_message
broadcast-Greets env = record {
  welcome = λ m seen hit. ground arith;
  other_seen = λ m seen other. ground arith;
  other_says = λ m seen other. ground arith;
  other_sends = λ m seen other. ground arith;
}

-- On every sequence of events, the echo script sends its message as often as it is welcomed before
-- the close, and nothing else; it has seen a welcome exactly if one came before the close; and it
-- asks for its checks once if the socket is closed, and not otherwise.
pub ws_echo-IsGreeting :
    (env : Env) (events : List SocketEvent) (seen : Seen)
    → IsGreeting is_welcome
        (Echo.ws_message env)
        events
        seen
        (converse (Echo.on_message env) Echo.on_close events seen)
ws_echo-IsGreeting env =
    converse-IsGreeting (Echo.on_message env) Echo.on_close is_welcome (Echo.ws_message env)
      (echo-Greets env)

-- On every sequence of events, the broadcast script sends its message as often as it is welcomed
-- before the close, and nothing else; it has seen a welcome exactly if one came before the close;
-- and it asks for its checks once if the socket is closed, and not otherwise.
pub ws_broadcast-IsGreeting :
    (env : Env) (events : List SocketEvent) (seen : Seen)
    → IsGreeting is_welcome
        (Broadcast.message env)
        events
        seen
        (converse (Broadcast.on_message env) Broadcast.on_close events seen)
ws_broadcast-IsGreeting env =
    converse-IsGreeting (Broadcast.on_message env) Broadcast.on_close is_welcome
      (Broadcast.message env) (broadcast-Greets env)
