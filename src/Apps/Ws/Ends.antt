-- ===== src/Apps/Ws/Ends.antt =====
-- Every handler of target-apps/apps/ws_api.py comes to an end.
pub mod Count
use Prim.Native.String.{count}
use p_loadtesting.Prelude.{
  ℕ, suc, ◌+◌, ◌-◌, ◌≤◌, ◌<◌, String, ◌≡◌, refl, subst, ◌≢◌, ◌*◌, ◌⊎◌, Option, none, some, List, [],
  ◌∷◌, length, leb, ltb, ◌==◌, lookup, insert, erase, find, put, drop, keep, not, arith, All, Each,
  put-Each, drop-Each, find-Each, Every, insert-Every, erase-Every, lookup-Every, length-put,
  length-put_new, length-drop, sum, sum-put, sum-drop, length-put, Option-cases, Bool-cases, inl,
  inr, leb→le, ltb→lt, if◌then◌else◌,
}
use p_loadtesting.Apps.Ws.{
  Phase, accepting, joining, waiting, sending, leaving, releasing, Connection, Server, Frames,
  Event, connect, proceed, receive, timeout, fail, members, sequence_of, discard, at_phase,
  finally_phase, try_connect, release_connection, leave_room, idle_server,
}
use p_loadtesting.Apps.Ws.Handlers.{
  accepted, echo_message, broadcast_message, join_room, handle_message, receive_text, send_next,
  go_on, message_arrives, times_out, raises, step, after, join, leave, on_running,
}
use p_loadtesting.Js.Value.{Value}
use p_loadtesting.Apps.Ws.Bounds.{
  IsSeen, IsRoom, IsBounded, length-discard, length-members, with_rooms-IsBounded,
  leave_room-running, left-IsBounded, at_phase-IsBounded, finally-IsBounded,
  release_connection-IsBounded, lost-IsBounded,
}
use p_loadtesting.Apps.Ws.Bounds.Steps.{
  +-zero, lost_in, go_on-IsBounded, message_arrives-IsBounded, times_out-IsBounded,
  raises-IsBounded,
}
use p_loadtesting.Apps.Ws.Limits.{step-IsBounded, lost_by, idle-IsBounded}

module _ {Num : Type 0} where
  -- How many changes of its phase a handler can have before it at most.
  abbrev pub steps_left : Phase Num → ℕ
  steps_left accepting = 84
  steps_left joining = 83
  steps_left (waiting seen) = 2 + (10 - seen) * 8
  steps_left (sending peers payload seen) = 3 + (10 - seen) * 8 + length peers
  steps_left leaving = 2
  steps_left releasing = 1

  abbrev pub all_left : Server Num → ℕ
  all_left s = sum (λ conn. steps_left conn.phase) s.running

  -- Nothing changes, or the handlers have fewer steps left.
  abbrev pub Advances : Server Num → Server Num → Type 0
  Advances s later = (later ≡ s) ⊎ (all_left later < all_left s)

  module _ (c : ℕ) (conn : Connection Num) (s : Server Num)
      (held : find c s.running ≡ some conn) where
    at_phase-less :
        (phase : Phase Num)
        → steps_left phase < steps_left conn.phase
        → all_left (at_phase c conn phase s) < all_left s
    at_phase-less phase less =
        let moved =
          sum-put (λ k. steps_left k.phase) c (record conn { phase = phase }) conn s.running held in
        omega arith

    finally-less :
        2 < steps_left conn.phase
        → all_left (at_phase c conn (finally_phase conn.room) s) < all_left s
    finally-less more = at_phase-less (finally_phase conn.room) (at_most conn.room more)
      where
        at_most :
            (room : Option String)
            → 2 < steps_left conn.phase
            → steps_left (finally_phase {Num = Num} room) < steps_left conn.phase
        at_most none h = omega arith
        at_most (some room) h = omega arith

    gone-less :
        0 < steps_left conn.phase → sum (λ k. steps_left k.phase) (drop c s.running) < all_left s
    gone-less more =
        let moved = sum-drop (λ k. steps_left k.phase) c conn s.running held in omega arith

    pub times_out-Advances :
        (phase : Phase Num)
        → conn.phase ≡ phase
        → IsSeen phase
        → Advances s (times_out c conn phase s).0
    unfolding times_out
    times_out-Advances (waiting seen) e h = inr (finally-less (rw e (omega arith)))
    times_out-Advances _ e h = inl refl

    pub raises-Advances :
        (phase : Phase Num)
        → conn.phase ≡ phase
        → IsSeen phase
        → Advances s (raises c conn phase s).0
    unfolding raises
    raises-Advances accepting e h = inr (gone-less (rw e (omega arith)))
    raises-Advances joining e h = inr (at_phase-less releasing (rw e (omega arith)))
    raises-Advances (waiting seen) e h = inr (finally-less (rw e (omega arith)))
    raises-Advances (sending peers payload seen) e h = inr (finally-less (rw e (omega arith)))
    raises-Advances leaving e h = inl refl
    raises-Advances releasing e h = inl refl

    module _ (of_int : ℕ → Num) where
      accepted-less :
          (room : Option String)
          → conn.phase ≡ accepting
          → all_left (accepted of_int c conn room s).0 < all_left s
      unfolding accepted
      accepted-less none e = at_phase-less (waiting 0) (rw e (omega arith))
      accepted-less (some room) e = at_phase-less joining (rw e (omega arith))

      join-Advances :
          (room : Option String) → conn.phase ≡ joining → Advances s (join of_int c conn room s).0
      unfolding join_room
      join-Advances none e = inl refl
      join-Advances (some room) e = elim (Bool-cases (leb 5 (length (members room s.rooms)))) [
        | inl full ↦ rw full (inr (at_phase-less releasing (rw e (omega arith))))
        | inr free ↦ rw free (inr (at_phase-less (waiting 0) (rw e (omega arith))))
      ]

      leave-less :
          (room : Option String)
          → conn.phase ≡ leaving
          → all_left (leave of_int c conn room s).0 < all_left s
      leave-less none e = at_phase-less releasing (rw e (omega arith))
      leave-less (some room) e =
          rw (leave_room-running c room s) (at_phase-less releasing (rw e (omega arith)))

      send_next-less :
          (peers : List ℕ) (payload : Value Num) (seen : ℕ)
          → conn.phase ≡ sending peers payload seen
          → all_left (send_next of_int c conn peers payload seen s).0 < all_left s
      unfolding send_next
      send_next-less (peer ∷ peers) payload seen e =
          at_phase-less (sending peers payload seen) (rw e (omega arith))
      send_next-less [] payload seen e = elim (Bool-cases (ltb seen 10)) [
        | inl more ↦ rw more (at_phase-less (waiting seen) (rw e (omega arith)))
        | inr full ↦ rw full (finally-less (rw e (omega arith)))
      ]

      pub go_on-Advances :
          (phase : Phase Num) → conn.phase ≡ phase → Advances s (go_on of_int c conn phase s).0
      unfolding go_on
      go_on-Advances accepting e = inr (accepted-less conn.room e)
      go_on-Advances joining e = join-Advances conn.room e
      go_on-Advances (waiting seen) e = inl refl
      go_on-Advances (sending peers payload seen) e = inr (send_next-less peers payload seen e)
      go_on-Advances leaving e = inr (leave-less conn.room e)
      go_on-Advances releasing e = inr (gone-less (rw e (omega arith)))

      handle_message-less :
          (room : Option String) (seen : ℕ) (message : String) (lost : ℕ)
          → IsBounded lost s
          → seen < 10
          → conn.phase ≡ waiting seen
          → all_left (handle_message of_int c conn room (seen + 1) message s).0 < all_left s
      unfolding handle_message
      handle_message-less none seen message lost b few e =
          at_phase-less (sending (c ∷ []) (echo_message of_int conn (seen + 1) message) (seen + 1))
            (rw e (omega arith))
      handle_message-less (some room) seen message lost b few e =
          let sequence = sequence_of room s.room_sequences + 1 in
          let small = length-members room s b in
          at_phase-less
            (sending (members room s.rooms) (broadcast_message of_int conn room sequence message)
              (seen + 1))
            (rw e (omega arith))

      pub message_arrives-Advances :
          (phase : Phase Num) (message : String) (lost : ℕ)
          → IsBounded lost s
          → IsSeen phase
          → conn.phase ≡ phase
          → Advances s (message_arrives of_int c conn phase message s).0
      unfolding message_arrives receive_text
      message_arrives-Advances (waiting seen) message lost b few e =
          elim (Bool-cases (ltb 1024 (count message))) [
            | inl long ↦ rw long (inr (finally-less (rw e (omega arith))))
            | inr fits ↦ rw fits (inr (handle_message-less conn.room seen message lost b few e))
          ]
      message_arrives-Advances _ message lost b few e = inl refl
