-- ===== src/Apps/Ws/Bounds.antt =====
-- The limits of target-apps/apps/ws_api.py: on connections, on members of a room, and on messages.
pub mod Steps
use Prim.Native.String.{count}
use p_loadtesting.Prelude.{
  ℕ, suc, ◌+◌, ◌-◌, ◌≤◌, ◌<◌, String, ◌≡◌, refl, ap, ◌∙◌, Option, none, some, List, [], ◌∷◌, length,
  leb, ltb, ◌==◌, lookup, insert, erase, find, put, drop, keep, not, arith, All, Each, put-Each,
  drop-Each, find-Each, Every, insert-Every, erase-Every, lookup-Every, length-put, length-put_new,
  length-drop, Option-cases, Bool-cases, inl, inr, leb→le, ltb→lt, if◌then◌else◌,
}
use p_loadtesting.Apps.Ws.{
  Phase, accepting, joining, waiting, sending, leaving, releasing, Connection, Server, Frames,
  Event, connect, proceed, receive, timeout, fail, members, sequence_of, discard, at_phase,
  finally_phase, try_connect, release_connection, leave_room, idle_server,
}
use p_loadtesting.Apps.Ws.Handlers.{
  accepted, echo_message, broadcast_message, join_room, handle_message, receive_text, send_next,
  go_on, message_arrives, times_out, raises, step, after, join, leave,
}
use p_loadtesting.Js.Value.{Value}

abbrev pub IsRoom : List ℕ → Type 0
IsRoom peers = (1 ≤ length peers) × (length peers ≤ 5)

module _ {Num : Type 0} where
  -- A handler waits with fewer than 10 messages seen, and sends the 10th at most to five peers.
  abbrev pub IsSeen : Phase Num → Type 0
  IsSeen (waiting seen) = seen < 10
  IsSeen (sending peers payload seen) = (length peers ≤ 5) × (seen ≤ 10)
  IsSeen _ = Unit

  pub record IsBounded (lost : ℕ) (s : Server Num) : Type 0 where
    pub active_hi : s.active_connections ≤ 20
    pub accounted : length s.running + lost ≡ s.active_connections
    pub rooms_hi : Every IsRoom s.rooms
    pub seen_hi : Each (λ conn. IsSeen conn.phase) s.running

pub length-discard : (c : ℕ) (peers : List ℕ) → length (discard c peers) ≤ length peers
length-discard c [] = omega arith
length-discard c (d ∷ peers) = ground (arith, length-discard c peers)

finally-IsSeen : (Num : Type 0) (room : Option String) → IsSeen (finally_phase {Num = Num} room)
finally-IsSeen Num none = tt
finally-IsSeen Num (some room) = tt

module _ {Num : Type 0} where
  -- The room without the one that leaves.
  abbrev pub remaining : String → List ℕ → Server Num → Server Num
  remaining room [] s = record s {
    rooms = erase room s.rooms;
    room_sequences = erase room s.room_sequences;
  }
  remaining room (p ∷ ps) s = record s { rooms = insert room (p ∷ ps) s.rooms }

  remaining-running :
      (room : String) (rest : List ℕ) (s : Server Num) → (remaining room rest s).running ≡ s.running
  remaining-running room [] s = refl
  remaining-running room (p ∷ ps) s = refl

  pub leave_room-remaining :
      (c : ℕ) (room : String) (peers : List ℕ) (s : Server Num)
      → lookup room s.rooms ≡ some peers
      → leave_room c room s ≡ remaining room (discard c peers) s
  unfolding leave_room
  leave_room-remaining c room peers s e = ground arith

  pub leave_room-running :
      (c : ℕ) (room : String) (s : Server Num) → (leave_room c room s).running ≡ s.running
  unfolding leave_room
  leave_room-running c room s = elim (Option-cases (lookup room s.rooms)) [
    | inl gone ↦ rw (leave_room, gone) refl
    | inr (peers, e) ↦
        rw (leave_room-remaining c room peers s e) (remaining-running room (discard c peers) s)
  ]

module _ {Num : Type 0} {lost : ℕ} where
  pub length-members :
      (room : String) (s : Server Num) → IsBounded lost s → length (members room s.rooms) ≤ 5
  length-members room s b = elim (Option-cases (lookup room s.rooms)) [
    | inl gone ↦ rw (members, gone) (omega arith)
    | inr (peers, e) ↦ rw (members, e) (lookup-Every IsRoom room peers s.rooms b.rooms_hi e).1
  ]

  pub with_rooms-IsBounded :
      (rooms : List (String × List ℕ)) (sequences : List (String × ℕ)) (s : Server Num)
      → IsBounded lost s
      → Every IsRoom rooms
      → IsBounded lost (record s { rooms = rooms; room_sequences = sequences })
  with_rooms-IsBounded rooms sequences s b h = record {
    active_hi = b.active_hi;
    accounted = b.accounted;
    rooms_hi = h;
    seen_hi = b.seen_hi;
  }

  remaining-IsBounded :
      (room : String) (rest : List ℕ) (s : Server Num)
      → IsBounded lost s
      → length rest ≤ 5
      → IsBounded lost (remaining room rest s)
  remaining-IsBounded room [] s b h =
      with_rooms-IsBounded (erase room s.rooms) (erase room s.room_sequences) s b
        (erase-Every IsRoom room s.rooms b.rooms_hi)
  remaining-IsBounded room (p ∷ ps) s b h =
      with_rooms-IsBounded (insert room (p ∷ ps) s.rooms) s.room_sequences s b
        (insert-Every IsRoom room (p ∷ ps) s.rooms b.rooms_hi (omega arith, h))

  pub leave_room-IsBounded :
      (c : ℕ) (room : String) (s : Server Num)
      → IsBounded lost s
      → IsBounded lost (leave_room c room s)
  unfolding leave_room
  leave_room-IsBounded c room s b = elim (Option-cases (lookup room s.rooms)) [
    | inl gone ↦ rw (leave_room, gone) b
    | inr (peers, e) ↦
        let small = (lookup-Every IsRoom room peers s.rooms b.rooms_hi e).1 in
        let less = length-discard c peers in
        rw (leave_room-remaining c room peers s e)
          (remaining-IsBounded room (discard c peers) s b (omega arith))
  ]

  module _ (c : ℕ) (conn old : Connection Num) (s : Server Num)
      (held : find c s.running ≡ some old) where
    pub at_phase-IsBounded :
        (phase : Phase Num)
        → IsBounded lost s
        → IsSeen phase
        → IsBounded lost (at_phase c conn phase s)
    at_phase-IsBounded phase b h = record {
      active_hi = b.active_hi;
      accounted = rw (length-put c (record conn { phase = phase }) old s.running held) b.accounted;
      rooms_hi = b.rooms_hi;
      seen_hi =
          put-Each (λ k. IsSeen k.phase) c (record conn { phase = phase }) s.running b.seen_hi h;
    }

    pub finally-IsBounded :
        IsBounded lost s → IsBounded lost (at_phase c conn (finally_phase conn.room) s)
    finally-IsBounded b =
        at_phase-IsBounded (finally_phase conn.room) b (finally-IsSeen Num conn.room)

    pub release_connection-IsBounded : IsBounded lost s → IsBounded lost (release_connection c s)
    unfolding release_connection
    release_connection-IsBounded b =
        let less = length-drop c old s.running held in
        let most = b.active_hi in
        let le = b.accounted in
        record {
          active_hi = omega arith;
          accounted = omega arith;
          rooms_hi = b.rooms_hi;
          seen_hi = drop-Each (λ k. IsSeen k.phase) c s.running b.seen_hi;
        }

    pub lost-IsBounded :
        IsBounded lost s → IsBounded (lost + 1) (record s { running = drop c s.running })
    lost-IsBounded b =
        let less = length-drop c old s.running held in
        let le = b.accounted in
        record {
          active_hi = b.active_hi;
          accounted = omega arith;
          rooms_hi = b.rooms_hi;
          seen_hi = drop-Each (λ k. IsSeen k.phase) c s.running b.seen_hi;
        }

  pub left-IsBounded :
      (c : ℕ) (conn old : Connection Num) (room : String) (s : Server Num)
      → find c s.running ≡ some old
      → IsBounded lost s
      → IsBounded lost (at_phase c conn releasing (leave_room c room s))
  left-IsBounded c conn old room s held b =
      at_phase-IsBounded c conn old (leave_room c room s)
        (ap (find c) (leave_room-running c room s) ∙ held) releasing
        (leave_room-IsBounded c room s b) tt
