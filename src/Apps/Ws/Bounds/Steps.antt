-- ===== src/Apps/Ws/Bounds/Steps.antt =====
-- Every event keeps the limits of target-apps/apps/ws_api.py.
use Prim.Native.String.{count}
use p_loadtesting.Prelude.{
  ℕ, ◌+◌, ◌≤◌, ◌<◌, String, ◌≡◌, Option, none, some, List, [], ◌∷◌, length, leb, ltb, insert, find,
  arith, insert-Every, Bool-cases, inl, inr, ltb→lt,
}
use p_loadtesting.Apps.Ws.{
  Phase, accepting, joining, waiting, sending, leaving, releasing, Connection, Server, members,
  sequence_of, discard, at_phase,
}
use p_loadtesting.Apps.Ws.Handlers.{
  accepted, echo_message, broadcast_message, join_room, handle_message, receive_text, send_next,
  go_on, message_arrives, times_out, raises, join, leave,
}
use p_loadtesting.Js.Value.{Value}
use p_loadtesting.Apps.Ws.Bounds.{
  IsSeen, IsRoom, IsBounded, length-discard, length-members, with_rooms-IsBounded, left-IsBounded,
  at_phase-IsBounded, finally-IsBounded, release_connection-IsBounded, lost-IsBounded,
}

pub +-zero : (n : ℕ) → n + 0 ≡ n
+-zero n = omega arith

-- An exception of `accept` leaves the connection counted, since `finally` is not reached.
abbrev pub lost_in : {Num : Type 0} → Phase Num → ℕ
lost_in accepting = 1
lost_in _ = 0

module _ {Num : Type 0} {lost : ℕ} where
  module _ (c : ℕ) (conn old : Connection Num) (s : Server Num)
      (held : find c s.running ≡ some old) where
    abbrev keeps_phase :
        (phase : Phase Num)
        → IsBounded lost s
        → IsSeen phase
        → IsBounded lost (at_phase c conn phase s)
    keeps_phase = at_phase-IsBounded c conn old s held

    module _ (of_int : ℕ → Num) where
      join_room-IsBounded :
          (room : String) → IsBounded lost s → IsBounded lost (join_room of_int c conn room s).0
      unfolding join_room
      join_room-IsBounded room b = elim (Bool-cases (leb 5 (length (members room s.rooms)))) [
        | inl full ↦ rw full (keeps_phase releasing b tt)
        | inr free ↦
            let less = length-discard c (members room s.rooms) in
            rw free (
              with_rooms-IsBounded (insert room (c ∷ discard c (members room s.rooms)) s.rooms)
                s.room_sequences (at_phase c conn (waiting 0) s)
                (keeps_phase (waiting 0) b (omega arith))
                (insert-Every IsRoom room (c ∷ discard c (members room s.rooms)) s.rooms b.rooms_hi
                  (omega arith, ground arith)))
      ]

      handle_message-IsBounded :
          (room : Option String) (seen : ℕ) (message : String)
          → seen ≤ 10
          → IsBounded lost s
          → IsBounded lost (handle_message of_int c conn room seen message s).0
      unfolding handle_message
      handle_message-IsBounded none seen message few b =
          keeps_phase (sending (c ∷ []) (echo_message of_int conn seen message) seen) b
            (omega arith, few)
      handle_message-IsBounded (some room) seen message few b =
          let sequence = sequence_of room s.room_sequences + 1 in
          let sent =
            sending (members room s.rooms) (broadcast_message of_int conn room sequence message)
              seen in
          with_rooms-IsBounded s.rooms (insert room sequence s.room_sequences)
            (at_phase c conn sent s) (keeps_phase sent b (length-members room s b, few)) b.rooms_hi

      receive_text-IsBounded :
          (seen : ℕ) (message : String)
          → seen < 10
          → IsBounded lost s
          → IsBounded lost (receive_text of_int c conn seen message s).0
      unfolding receive_text
      receive_text-IsBounded seen message few b = elim (Bool-cases (ltb 1024 (count message))) [
        | inl long ↦ rw long (finally-IsBounded c conn old s held b)
        | inr fits ↦ rw fits (handle_message-IsBounded conn.room (seen + 1) message (omega arith) b)
      ]

      send_next-IsBounded :
          (peers : List ℕ) (payload : Value Num) (seen : ℕ)
          → (length peers ≤ 5) × (seen ≤ 10)
          → IsBounded lost s
          → IsBounded lost (send_next of_int c conn peers payload seen s).0
      unfolding send_next
      send_next-IsBounded (peer ∷ peers) payload seen h b =
          keeps_phase (sending peers payload seen) b (omega arith, h.1)
      send_next-IsBounded [] payload seen h b = elim (Bool-cases (ltb seen 10)) [
        | inl more ↦ rw more (keeps_phase (waiting seen) b (ltb→lt seen 10 more))
        | inr full ↦ rw full (finally-IsBounded c conn old s held b)
      ]

      accepted-IsBounded :
          (room : Option String)
          → IsBounded lost s
          → IsBounded lost (accepted of_int c conn room s).0
      unfolding accepted
      accepted-IsBounded none b = keeps_phase (waiting 0) b (omega arith)
      accepted-IsBounded (some room) b = keeps_phase joining b tt

      join-IsBounded :
          (room : Option String) → IsBounded lost s → IsBounded lost (join of_int c conn room s).0
      join-IsBounded none b = b
      join-IsBounded (some room) b = join_room-IsBounded room b

      leave-IsBounded :
          (room : Option String) → IsBounded lost s → IsBounded lost (leave of_int c conn room s).0
      leave-IsBounded none b = keeps_phase releasing b tt
      leave-IsBounded (some room) b = left-IsBounded c conn old room s held b

      pub go_on-IsBounded :
          (phase : Phase Num)
          → IsSeen phase
          → IsBounded lost s
          → IsBounded lost (go_on of_int c conn phase s).0
      unfolding go_on
      go_on-IsBounded accepting h b = accepted-IsBounded conn.room b
      go_on-IsBounded joining h b = join-IsBounded conn.room b
      go_on-IsBounded (waiting seen) h b = b
      go_on-IsBounded (sending peers payload seen) h b = send_next-IsBounded peers payload seen h b
      go_on-IsBounded leaving h b = leave-IsBounded conn.room b
      go_on-IsBounded releasing h b = release_connection-IsBounded c conn old s held b

      pub message_arrives-IsBounded :
          (phase : Phase Num) (message : String)
          → IsSeen phase
          → IsBounded lost s
          → IsBounded lost (message_arrives of_int c conn phase message s).0
      unfolding message_arrives
      message_arrives-IsBounded (waiting seen) message h b = receive_text-IsBounded seen message h b
      message_arrives-IsBounded _ message h b = b

    pub times_out-IsBounded :
        (phase : Phase Num) → IsBounded lost s → IsBounded lost (times_out c conn phase s).0
    unfolding times_out
    times_out-IsBounded (waiting seen) b = finally-IsBounded c conn old s held b
    times_out-IsBounded _ b = b

    pub raises-IsBounded :
        (phase : Phase Num)
        → IsBounded lost s
        → IsBounded (lost + lost_in phase) (raises c conn phase s).0
    unfolding raises
    raises-IsBounded accepting b = lost-IsBounded c conn old s held b
    raises-IsBounded joining b = rw (+-zero lost) (keeps_phase releasing b tt)
    raises-IsBounded (waiting seen) b = rw (+-zero lost) (finally-IsBounded c conn old s held b)
    raises-IsBounded (sending peers payload seen) b =
        rw (+-zero lost) (finally-IsBounded c conn old s held b)
    raises-IsBounded leaving b = rw (+-zero lost) b
    raises-IsBounded releasing b = rw (+-zero lost) b
