-- ===== src/Apps/Ws/Rooms/Steps.antt =====
-- The rooms of target-apps/apps/ws_api.py on any sequence of events.
use Prim.Native.String.{count}
use p_loadtesting.Prelude.{
  ℕ, ◌+◌, ◌-◌, String, ◌≡◌, refl, ap, ◌∙◌, eq_iff, Option, none, some, List, [], ◌∷◌, length, leb,
  ltb, lookup, insert, erase, find, arith, Option-cases, Bool-cases, inl, inr,
}
use p_loadtesting.Apps.Ws.{
  Phase, accepting, joining, waiting, sending, leaving, releasing, Connection, Server, Event,
  connect, proceed, receive, timeout, fail, members, sequence_of, discard, at_phase,
  release_connection, leave_room, idle_server,
}
use p_loadtesting.Apps.Ws.Handlers.{
  accepted, echo_message, broadcast_message, join_room, handle_message, receive_text, send_next,
  go_on, message_arrives, times_out, raises, step, after, join, leave, on_running,
}
use p_loadtesting.Js.Value.{Value}
use p_loadtesting.Apps.Ws.Bounds.{remaining, leave_room-remaining}
use p_loadtesting.Apps.Ws.Rooms.{
  at_phase-IsPresent, is_in, IsPresent, members-insert, members-erase, try_connect-IsPresent,
}
use p_loadtesting.Apps.Ws.Rooms.Moves.{
  stays-IsPresent, gone-IsPresent, finally-IsPresent, joined-IsPresent, emptied-IsPresent,
}

module _ {Num : Type 0} where
  module _ (c : ℕ) (conn : Connection Num) (s : Server Num) (p : IsPresent s)
      (held : find c s.running ≡ some conn) where
    times_out-IsPresent :
        (phase : Phase Num) → conn.phase ≡ phase → IsPresent (times_out c conn phase s).0
    unfolding times_out
    times_out-IsPresent (waiting seen) e = finally-IsPresent c conn s p held (rw e refl)
    times_out-IsPresent _ e = p

    raises-IsPresent :
        (phase : Phase Num) → conn.phase ≡ phase → IsPresent (raises c conn phase s).0
    unfolding raises
    raises-IsPresent accepting e = gone-IsPresent c conn s p held s.active_connections (rw e refl)
    raises-IsPresent joining e =
        stays-IsPresent c conn s p held releasing s.room_sequences (rw e refl)
    raises-IsPresent (waiting seen) e = finally-IsPresent c conn s p held (rw e refl)
    raises-IsPresent (sending peers payload seen) e = finally-IsPresent c conn s p held (rw e refl)
    raises-IsPresent leaving e = p
    raises-IsPresent releasing e = p

    remaining-IsPresent :
        (own : String) (rest : List ℕ)
        → conn.room ≡ some own
        → rest ≡ discard c (members own s.rooms)
        → IsPresent (at_phase c conn releasing (remaining own rest s))
    remaining-IsPresent own [] mine same =
        emptied-IsPresent c conn s p held own (erase own s.rooms) (erase own s.room_sequences) mine
          (λ room. rw (← same) (members-erase room own s.rooms))
    remaining-IsPresent own (d ∷ ds) mine same =
        emptied-IsPresent c conn s p held own (insert own (d ∷ ds) s.rooms) s.room_sequences mine
          (λ room. rw (← same) (members-insert room own (d ∷ ds) s.rooms))

    left-IsPresent :
        (own : String)
        → conn.room ≡ some own
        → IsPresent (at_phase c conn releasing (leave_room c own s))
    unfolding leave_room
    left-IsPresent own mine = elim (Option-cases (lookup own s.rooms)) [
      | inl gone ↦
          rw (leave_room, gone)
            (emptied-IsPresent c conn s p held own s.rooms s.room_sequences mine
              (λ room. ground (arith, eq_iff own room)))
      | inr (peers, e) ↦
          rw (leave_room-remaining c own peers s e)
            (remaining-IsPresent own (discard c peers) mine (rw (members, e) refl))
    ]

    module _ (of_int : ℕ → Num) where
      accepted-IsPresent :
          (room : Option String)
          → conn.room ≡ room
          → conn.phase ≡ accepting
          → IsPresent (accepted of_int c conn room s).0
      unfolding accepted
      accepted-IsPresent none mine e =
          at_phase-IsPresent c conn s p (waiting 0) s.active_connections s.room_sequences
            (λ r. ap (is_in r) held ∙ rw mine refl)
      accepted-IsPresent (some room) mine e =
          stays-IsPresent c conn s p held joining s.room_sequences (rw e refl)

      join-IsPresent :
          (room : Option String)
          → conn.room ≡ room
          → conn.phase ≡ joining
          → IsPresent (join of_int c conn room s).0
      unfolding join_room
      join-IsPresent none mine e = p
      join-IsPresent (some room) mine e =
          elim (Bool-cases (leb 5 (length (members room s.rooms)))) [
            | inl full ↦
                rw full (stays-IsPresent c conn s p held releasing s.room_sequences (rw e refl))
            | inr free ↦ rw free (joined-IsPresent c conn s p held room mine e)
          ]

      leave-IsPresent :
          (room : Option String)
          → conn.room ≡ room
          → conn.phase ≡ leaving
          → IsPresent (leave of_int c conn room s).0
      leave-IsPresent none mine e =
          at_phase-IsPresent c conn s p releasing s.active_connections s.room_sequences
            (λ r. ap (is_in r) held ∙ rw mine refl)
      leave-IsPresent (some room) mine e = left-IsPresent room mine

      send_next-IsPresent :
          (peers : List ℕ) (payload : Value Num) (seen : ℕ)
          → conn.phase ≡ sending peers payload seen
          → IsPresent (send_next of_int c conn peers payload seen s).0
      unfolding send_next
      send_next-IsPresent (peer ∷ peers) payload seen e =
          stays-IsPresent c conn s p held (sending peers payload seen) s.room_sequences (rw e refl)
      send_next-IsPresent [] payload seen e = elim (Bool-cases (ltb seen 10)) [
        | inl more ↦
            rw more (stays-IsPresent c conn s p held (waiting seen) s.room_sequences (rw e refl))
        | inr full ↦ rw full (finally-IsPresent c conn s p held (rw e refl))
      ]

      go_on-IsPresent :
          (phase : Phase Num) → conn.phase ≡ phase → IsPresent (go_on of_int c conn phase s).0
      unfolding go_on release_connection
      go_on-IsPresent accepting e = accepted-IsPresent conn.room refl e
      go_on-IsPresent joining e = join-IsPresent conn.room refl e
      go_on-IsPresent (waiting seen) e = p
      go_on-IsPresent (sending peers payload seen) e = send_next-IsPresent peers payload seen e
      go_on-IsPresent leaving e = leave-IsPresent conn.room refl e
      go_on-IsPresent releasing e =
          gone-IsPresent c conn s p held (s.active_connections - 1) (rw e refl)

      handle_message-IsPresent :
          (room : Option String) (seen before : ℕ) (message : String)
          → conn.phase ≡ waiting before
          → IsPresent (handle_message of_int c conn room seen message s).0
      unfolding handle_message
      handle_message-IsPresent none seen before message e =
          stays-IsPresent c conn s p held
            (sending (c ∷ []) (echo_message of_int conn seen message) seen) s.room_sequences
            (rw e refl)
      handle_message-IsPresent (some room) seen before message e =
          let sequence = sequence_of room s.room_sequences + 1 in
          stays-IsPresent c conn s p held
            (sending (members room s.rooms) (broadcast_message of_int conn room sequence message)
              seen)
            (insert room sequence s.room_sequences) (rw e refl)

      message_arrives-IsPresent :
          (phase : Phase Num) (message : String)
          → conn.phase ≡ phase
          → IsPresent (message_arrives of_int c conn phase message s).0
      unfolding message_arrives receive_text
      message_arrives-IsPresent (waiting seen) message e =
          elim (Bool-cases (ltb 1024 (count message))) [
            | inl long ↦ rw long (finally-IsPresent c conn s p held (rw e refl))
            | inr fits ↦ rw fits (handle_message-IsPresent conn.room (seen + 1) seen message e)
          ]
      message_arrives-IsPresent _ message e = p

module _ {Num : Type 0} (of_int : ℕ → Num) where
  step-IsPresent : (e : Event Num) (s : Server Num) → IsPresent s → IsPresent (step of_int e s).0
  unfolding step
  step-IsPresent (connect c conn) s p = try_connect-IsPresent c conn s p
  step-IsPresent (proceed c) s p = elim (Option-cases (find c s.running)) [
    | inl gone ↦ rw (on_running, gone) p
    | inr (conn, e) ↦ rw (on_running, e) (go_on-IsPresent c conn s p e of_int conn.phase refl)
  ]
  step-IsPresent (receive c message) s p = elim (Option-cases (find c s.running)) [
    | inl gone ↦ rw (on_running, gone) p
    | inr (conn, e) ↦
        rw (on_running, e) (message_arrives-IsPresent c conn s p e of_int conn.phase message refl)
  ]
  step-IsPresent (timeout c) s p = elim (Option-cases (find c s.running)) [
    | inl gone ↦ rw (on_running, gone) p
    | inr (conn, e) ↦ rw (on_running, e) (times_out-IsPresent c conn s p e conn.phase refl)
  ]
  step-IsPresent (fail c) s p = elim (Option-cases (find c s.running)) [
    | inl gone ↦ rw (on_running, gone) p
    | inr (conn, e) ↦ rw (on_running, e) (raises-IsPresent c conn s p e conn.phase refl)
  ]

  after-IsPresent :
      (es : List (Event Num)) (s : Server Num) → IsPresent s → IsPresent (after of_int es s)
  unfolding after
  after-IsPresent [] s p = p
  after-IsPresent (e ∷ es) s p = after-IsPresent es (step of_int e s).0 (step-IsPresent e s p)

  -- After any events, no two handlers have the same number, and the members of a room are the
  -- connections whose handlers are between joining it and leaving it.
  pub server-IsPresent : (es : List (Event Num)) → IsPresent (after of_int es idle_server)
  server-IsPresent es =
      after-IsPresent es idle_server (record { unique = tt; present = λ room c. refl })
