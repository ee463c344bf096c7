-- ===== src/Apps/Ws.antt =====
-- target-apps/apps/ws_api.py: the connections, the rooms, and what each handler does from one `await`
-- to the next. Starlette is no part of the repository: what it hands over is an event here. A message
-- is sent, or the awaited call raises.
pub mod Handlers
pub mod Bounds
pub mod Limits
pub mod Ends
pub mod Leak
pub mod Rooms
use Prim.Native.String.{count}
use p_loadtesting.Prelude.{
  ℕ, ◌+◌, ◌-◌, String, Bool, Option, none, some, List, [], ◌∷◌, length, leb, ltb, ◌==◌, lookup,
  insert, erase, find, put, drop, keep, not, if◌then◌else◌,
}
use p_loadtesting.Js.Value.{Value, number, text, boolean, object, Fields, end, field}

abbrev pub max_message_size : ℕ
max_message_size = 1_024

abbrev pub max_messages_per_connection : ℕ
max_messages_per_connection = 10

abbrev pub max_concurrent_connections : ℕ
max_concurrent_connections = 20

abbrev pub max_room_size : ℕ
max_room_size = 5

-- Where a handler stands: before `accept` has returned, before it has the lock of the rooms, before
-- the next message with so many seen, between the peers that it still sends to, before the lock in
-- `finally`, and before the release of the connection.
pub data Phase (Num : Type 0) : Type 0 where
  accepting : Phase Num
  joining : Phase Num
  waiting : ℕ → Phase Num
  sending : List ℕ → Value Num → ℕ → Phase Num
  leaving : Phase Num
  releasing : Phase Num

-- `room` is `none` for /ws/echo.
pub record Connection (Num : Type 0) : Type 0 where
  pub room : Option String
  pub client_id : String
  pub deterministic : Bool
  pub seed : Num
  pub phase : Phase Num

-- The module's variables, and the handlers that run, each under a number for its WebSocket.
pub record Server (Num : Type 0) : Type 0 where
  pub active_connections : ℕ
  pub rooms : List (String × List ℕ)
  pub room_sequences : List (String × ℕ)
  pub running : List (ℕ × Connection Num)

abbrev pub idle_server : {Num : Type 0} → Server Num
idle_server = record { active_connections = 0; rooms = []; room_sequences = []; running = [] }

-- What a WebSocket is sent: a JSON text, or the closing of the connection.
pub data Frame (Num : Type 0) : Type 0 where
  json_text : Value Num → Frame Num
  close : ℕ → Frame Num

abbrev pub Frames : Type 0 → Type 0
Frames Num = List (ℕ × Frame Num)

-- A client connects with a number that no handler has; a handler goes on behind its `await`; a
-- message arrives; `wait_for` gives up; or what is awaited raises another exception.
pub data Event (Num : Type 0) : Type 0 where
  connect : ℕ → Connection Num → Event Num
  proceed : ℕ → Event Num
  receive : ℕ → String → Event Num
  timeout : ℕ → Event Num
  fail : ℕ → Event Num

abbrev pub members : {Entry : Type 0} → String → List (String × List Entry) → List Entry
members room rooms = elim (lookup room rooms) [ none ↦ [] | some peers ↦ peers ]

abbrev pub sequence_of : String → List (String × ℕ) → ℕ
sequence_of room sequences = elim (lookup room sequences) [ none ↦ 0 | some n ↦ n ]

-- `peers.discard(websocket)`
abbrev pub discard : ℕ → List ℕ → List ℕ
discard c peers = keep (λ d. not (d == c)) peers

module _ {Num : Type 0} where
  abbrev pub at_phase : ℕ → Connection Num → Phase Num → Server Num → Server Num
  at_phase c conn phase s = record s { running = put c (record conn { phase = phase }) s.running }

  -- Where a handler goes on when its `try` ends.
  abbrev pub finally_phase : Option String → Phase Num
  finally_phase none = releasing
  finally_phase (some room) = leaving

  abbrev pub finish : ℕ → Connection Num → Frames Num → Server Num → Server Num × Frames Num
  finish c conn frames s = (at_phase c conn (finally_phase conn.room) s, frames)

  -- `_try_acquire_connection`, and what the handlers do with its answer
  unfoldable pub try_connect : ℕ → Connection Num → Server Num → Server Num × Frames Num
  try_connect c conn s = elim (find c s.running) [
    | some other ↦ (s, [])
    | none ↦
        if leb max_concurrent_connections s.active_connections then (s, (c, close 1013) ∷ []) else (
          at_phase c conn accepting (record s { active_connections = s.active_connections + 1 }),
          [],
        )
  ]

  -- `_release_connection`, after which the handler is gone
  unfoldable pub release_connection : ℕ → Server Num → Server Num
  release_connection c s = record s {
    active_connections = s.active_connections - 1;
    running = drop c s.running;
  }

  -- What `finally` does in a room.
  unfoldable pub leave_room : ℕ → String → Server Num → Server Num
  leave_room c room s = elim (lookup room s.rooms) [
    | none ↦ s
    | some peers ↦ elim (discard c peers) [
      | [] ↦ record s { rooms = erase room s.rooms; room_sequences = erase room s.room_sequences }
      | p ∷ ps ↦ record s { rooms = insert room (p ∷ ps) s.rooms }
    ]
  ]
