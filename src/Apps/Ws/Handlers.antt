-- ===== src/Apps/Ws/Handlers.antt =====
-- The handlers of target-apps/apps/ws_api.py, from one `await` to the next, and what they send. The
-- members of a room are listed with the newest first, where Python's order of a set is not fixed.
use Prim.Native.String.{count}
use p_loadtesting.Prelude.{
  ℕ, ◌+◌, String, Option, none, some, List, [], ◌∷◌, length, leb, ltb, insert, find, drop,
  if◌then◌else◌,
}
use p_loadtesting.Js.Value.{Value, number, text, boolean, object, Fields, end, field}
use p_loadtesting.Apps.Ws.{
  Phase, accepting, joining, waiting, sending, leaving, releasing, Connection, Server, json_text,
  close, Frames, Event, connect, proceed, receive, timeout, fail, members, sequence_of, discard,
  at_phase, finish, try_connect, release_connection, leave_room, max_message_size,
  max_messages_per_connection, max_room_size,
}

module _ {Num : Type 0} where
  unfoldable pub times_out : ℕ → Connection Num → Phase Num → Server Num → Server Num × Frames Num
  times_out c conn (waiting seen) s = finish c conn ((c, close 1001) ∷ []) s
  times_out c conn _ s = (s, [])

  -- An exception: `accept` is called outside of the `try`, and the locks raise none.
  unfoldable pub raises : ℕ → Connection Num → Phase Num → Server Num → Server Num × Frames Num
  raises c conn accepting s = (record s { running = drop c s.running }, [])
  raises c conn joining s = (at_phase c conn releasing s, [])
  raises c conn (waiting seen) s = finish c conn [] s
  raises c conn (sending peers payload seen) s = finish c conn [] s
  raises c conn leaving s = (s, [])
  raises c conn releasing s = (s, [])

module _ {Num : Type 0} (of_int : ℕ → Num) where
  abbrev mode_fields : Connection Num → Fields Num → Fields Num
  mode_fields conn rest =
      field "deterministic" (boolean conn.deterministic) (field "seed" (number conn.seed) rest)

  abbrev pub echo_welcome : Connection Num → Value Num
  echo_welcome conn = object (
      field "event" (text "welcome") (
        field "mode" (text "echo") (
          mode_fields conn
            (field "max_messages" (number (of_int max_messages_per_connection)) end))))

  abbrev pub broadcast_welcome : Connection Num → String → ℕ → Value Num
  broadcast_welcome conn room room_size = object (
      field "event" (text "welcome") (
        field "mode" (text "broadcast") (
          field "room" (text room) (
            field "client_id" (text conn.client_id)
              (field "room_size" (number (of_int room_size)) (mode_fields conn end))))))

  abbrev pub echo_message : Connection Num → ℕ → String → Value Num
  echo_message conn seen message = object (
      field "event" (text "echo") (
        field "sequence" (number (of_int seen))
          (field "message" (text message) (mode_fields conn end))))

  abbrev pub broadcast_message : Connection Num → String → ℕ → String → Value Num
  broadcast_message conn room sequence message = object (
      field "event" (text "broadcast") (
        field "room" (text room) (
          field "sender" (text conn.client_id) (
            field "sequence" (number (of_int sequence))
              (field "message" (text message) (mode_fields conn end))))))

  abbrev pub limit_reached : ℕ → Value Num
  limit_reached seen =
      object (field "event" (text "limit-reached") (field "sequence" (number (of_int seen)) end))

  -- `accept` has returned: /ws/echo sends its welcome.
  unfoldable pub accepted :
      ℕ → Connection Num → Option String → Server Num → Server Num × Frames Num
  accepted c conn none s = (at_phase c conn (waiting 0) s, (c, json_text (echo_welcome conn)) ∷ [])
  accepted c conn (some room) s = (at_phase c conn joining s, [])

  -- The block on `_room_lock`, and the welcome behind it.
  unfoldable pub join_room : ℕ → Connection Num → String → Server Num → Server Num × Frames Num
  join_room c conn room s =
      let peers = members room s.rooms in
      let joined = c ∷ discard c peers in
      if leb max_room_size (length peers)
      then (at_phase c conn releasing s, (c, close 1013) ∷ [])
      else (
        at_phase c conn (waiting 0) (record s { rooms = insert room joined s.rooms }),
        (c, json_text (broadcast_welcome conn room (length joined))) ∷ [],
      )

  -- The bounded message has been received.
  unfoldable pub handle_message :
      ℕ → Connection Num → Option String → ℕ → String → Server Num → Server Num × Frames Num
  handle_message c conn none seen message s =
      (at_phase c conn (sending (c ∷ []) (echo_message conn seen message) seen) s, [])
  handle_message c conn (some room) seen message s =
      let sequence = sequence_of room s.room_sequences + 1 in
      (
        at_phase c conn
            (sending (members room s.rooms) (broadcast_message conn room sequence message) seen)
            (record s { room_sequences = insert room sequence s.room_sequences }),
        [],
      )

  -- `_receive_bounded_text` with a message that arrived
  unfoldable pub receive_text :
      ℕ → Connection Num → ℕ → String → Server Num → Server Num × Frames Num
  unfolding handle_message
  receive_text c conn seen message s =
      if ltb max_message_size (count message)
      then finish c conn ((c, close 1009) ∷ []) s
      else handle_message c conn conn.room (seen + 1) message s

  -- The next peer of a message, or the test of the loop once all have it.
  unfoldable pub send_next :
      ℕ → Connection Num → List ℕ → Value Num → ℕ → Server Num → Server Num × Frames Num
  send_next c conn (peer ∷ peers) payload seen s =
      (at_phase c conn (sending peers payload seen) s, (peer, json_text payload) ∷ [])
  send_next c conn [] payload seen s =
      if ltb seen max_messages_per_connection
      then (at_phase c conn (waiting seen) s, [])
      else finish c conn ((c, json_text (limit_reached seen)) ∷ (c, close 1000) ∷ []) s

  abbrev pub leave : ℕ → Connection Num → Option String → Server Num → Server Num × Frames Num
  leave c conn none s = (at_phase c conn releasing s, [])
  leave c conn (some room) s = (at_phase c conn releasing (leave_room c room s), [])

  abbrev pub join : ℕ → Connection Num → Option String → Server Num → Server Num × Frames Num
  join c conn none s = (s, [])
  join c conn (some room) s = join_room c conn room s

  -- A handler that goes on; a handler that waits for a message does not.
  unfoldable pub go_on : ℕ → Connection Num → Phase Num → Server Num → Server Num × Frames Num
  unfolding accepted join_room send_next leave_room release_connection
  go_on c conn accepting s = accepted c conn conn.room s
  go_on c conn joining s = join c conn conn.room s
  go_on c conn (waiting seen) s = (s, [])
  go_on c conn (sending peers payload seen) s = send_next c conn peers payload seen s
  go_on c conn leaving s = leave c conn conn.room s
  go_on c conn releasing s = (release_connection c s, [])

  unfoldable pub message_arrives :
      ℕ → Connection Num → Phase Num → String → Server Num → Server Num × Frames Num
  unfolding receive_text
  message_arrives c conn (waiting seen) message s = receive_text c conn seen message s
  message_arrives c conn _ message s = (s, [])

  abbrev pub on_running :
      (ℕ → Connection Num → Phase Num → Server Num → Server Num × Frames Num)
      → ℕ
      → Server Num
      → Server Num × Frames Num
  on_running act c s = elim (find c s.running) [
    | none ↦ (s, [])
    | some conn ↦ act c conn conn.phase s
  ]

  -- What happens to the server, and what it sends, on one event.
  unfoldable pub step : Event Num → Server Num → Server Num × Frames Num
  unfolding try_connect go_on message_arrives times_out raises
  step (connect c conn) s = try_connect c conn s
  step (proceed c) s = on_running go_on c s
  step (receive c message) s = on_running (λ d conn phase. message_arrives d conn phase message) c s
  step (timeout c) s = on_running times_out c s
  step (fail c) s = on_running raises c s

  -- The server after events in their order.
  unfoldable pub after : List (Event Num) → Server Num → Server Num
  unfolding step
  after [] s = s
  after (e ∷ es) s = after es (step e s).0
