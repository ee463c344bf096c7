-- ===== src/Apps/Ws/Rooms.antt =====
-- The members of the rooms of target-apps/apps/ws_api.py are the connections that take part in them.
pub mod Moves
pub mod Steps
pub mod Empty
use Prim.Native.String.{count}
use p_loadtesting.Prelude.{
  ℕ, suc, ◌+◌, ◌-◌, ◌≤◌, ◌<◌, String, ◌≡◌, refl, true, false, ◌&&◌, ◌||◌, sym, ap, ◌∙◌, Bool,
  eq_iff, ==_iff, str_eq, find-put, find-drop_other, find-drop_self, put-IsUnique, drop-IsUnique,
  IsUnique, lookup-insert, lookup-erase, subst, Option, none, some, List, [], ◌∷◌, length, leb, ltb,
  ◌==◌, lookup, insert, erase, find, put, drop, keep, not, arith, All, Each, put-Each, drop-Each,
  find-Each, Every, insert-Every, erase-Every, lookup-Every, length-put, length-put_new,
  length-drop, Option-cases, Bool-cases, inl, inr, leb→le, ltb→lt, if◌then◌else◌,
}
use p_loadtesting.Apps.Ws.{
  Phase, accepting, joining, waiting, sending, leaving, releasing, Connection, Server, Frames,
  Event, connect, proceed, receive, timeout, fail, members, sequence_of, discard, at_phase,
  finally_phase, try_connect, release_connection, leave_room, idle_server,
}
use p_loadtesting.Apps.Ws.Handlers.{
  accepted, echo_message, broadcast_message, join_room, handle_message, receive_text, send_next,
  go_on, message_arrives, times_out, raises, step, after, join, leave, on_running,
}
use p_loadtesting.Js.Value.{Value}

abbrev pub has : ℕ → List ℕ → Bool
has c [] = false
has c (d ∷ peers) = (d == c) || has c peers

pub has-discard : (d c : ℕ) (peers : List ℕ) → has d (discard c peers) ≡ has d peers && not (c == d)
has-discard d c [] = refl
has-discard d c (e ∷ peers) = ground (arith, has-discard d c peers)

pub members-insert :
    (room own : String) (peers : List ℕ) (rooms : List (String × List ℕ))
    → members room (insert own peers rooms)
      ≡ (if str_eq own room then peers else members room rooms)
members-insert room own peers rooms = ground (arith, lookup-insert room own peers rooms)

pub members-erase :
    (room own : String) (rooms : List (String × List ℕ))
    → members room (erase own rooms) ≡ (if str_eq own room then [] else members room rooms)
members-erase room own rooms = ground (arith, lookup-erase room own rooms)

module _ {Num : Type 0} where
  -- From its joining to its `finally`, a handler of /ws/broadcast takes part in its room.
  abbrev pub takes_part : Phase Num → Bool
  takes_part (waiting seen) = true
  takes_part (sending peers payload seen) = true
  takes_part leaving = true
  takes_part _ = false

  abbrev pub is_part : String → Option String → Phase Num → Bool
  is_part room none phase = false
  is_part room (some own) phase = str_eq own room && takes_part phase

  abbrev pub is_in : String → Option (Connection Num) → Bool
  is_in room none = false
  is_in room (some conn) = is_part room conn.room conn.phase

  -- The members of a room are the connections whose handlers take part in it.
  pub record IsPresent (s : Server Num) : Type 0 where
    pub unique : IsUnique s.running
    pub present :
        (room : String) (c : ℕ) → has c (members room s.rooms) ≡ is_in room (find c s.running)

  pub is_part-outside :
      (room : String) (own : Option String) (phase : Phase Num)
      → takes_part phase ≡ false
      → is_part room own phase ≡ false
  is_part-outside room none phase e = refl
  is_part-outside room (some own) phase e = ground arith

  pub is_part-same :
      (room : String) (own : Option String) (phase later : Phase Num)
      → takes_part phase ≡ takes_part later
      → is_part room own phase ≡ is_part room own later
  is_part-same room none phase later e = refl
  is_part-same room (some own) phase later e = ap (λ b. str_eq own room && b) e

  module _ (c : ℕ) (conn : Connection Num) (s : Server Num) (p : IsPresent s) where
    -- A handler changes its phase, and with it the members of rooms.
    pub moved-IsPresent :
        (phase : Phase Num) (active : ℕ) (rooms : List (String × List ℕ))
        (sequences : List (String × ℕ))
        → ((room : String) → has c (members room rooms) ≡ is_part room conn.room phase)
        → ((room : String) (d : ℕ)
            → (c == d) ≡ false
            → has d (members room rooms) ≡ has d (members room s.rooms))
        → IsPresent (record {
          active_connections = active;
          rooms = rooms;
          room_sequences = sequences;
          running = put c (record conn { phase = phase }) s.running;
        })
    moved-IsPresent phase active rooms sequences own others = record {
      unique = put-IsUnique c (record conn { phase = phase }) s.running p.unique;
      present = present;
    }
      where
        present :
            (room : String) (d : ℕ)
            → has d (members room rooms)
              ≡ is_in room (find d (put c (record conn { phase = phase }) s.running))
        present room d =
            rw (find-put d c (record conn { phase = phase }) s.running)
              (elim (Bool-cases (c == d)) [
                | inl e ↦
                    rw e (ap (λ k. has k (members room rooms)) (sym ((==_iff c d).0 e)) ∙ own room)
                | inr e ↦ rw e (others room d e ∙ p.present room d)
              ])

    pub at_phase-IsPresent :
        (phase : Phase Num) (active : ℕ) (sequences : List (String × ℕ))
        → ((room : String) → is_in room (find c s.running) ≡ is_part room conn.room phase)
        → IsPresent (record {
          active_connections = active;
          rooms = s.rooms;
          room_sequences = sequences;
          running = put c (record conn { phase = phase }) s.running;
        })
    at_phase-IsPresent phase active sequences same =
        moved-IsPresent phase active s.rooms sequences (λ room. p.present room c ∙ same room)
          (λ room d e. refl)

    pub dropped-IsPresent :
        (active : ℕ)
        → ((room : String) → is_in room (find c s.running) ≡ false)
        → IsPresent (record s { active_connections = active; running = drop c s.running })
    dropped-IsPresent active out = record {
      unique = drop-IsUnique c s.running p.unique;
      present = present;
    }
      where
        present :
            (room : String) (d : ℕ)
            → has d (members room s.rooms) ≡ is_in room (find d (drop c s.running))
        present room d = elim (Bool-cases (c == d)) [
          | inr e ↦ p.present room d ∙ ap (is_in room) (sym (find-drop_other d c s.running e))
          | inl e ↦
              p.present room d
              ∙ ap (λ k. is_in room (find k s.running)) (sym ((==_iff c d).0 e))
              ∙ out room
              ∙ ap (is_in room) (sym (find-drop_self c s.running p.unique))
              ∙ ap (λ k. is_in room (find k (drop c s.running))) ((==_iff c d).0 e)
        ]

    pub try_connect-IsPresent : IsPresent (try_connect c conn s).0
    unfolding try_connect
    try_connect-IsPresent = elim (Option-cases (find c s.running)) [
      | inr (other, e) ↦ rw (try_connect, e) p
      | inl free ↦
          rw (try_connect, free)
            (elim (Bool-cases (leb 20 s.active_connections)) [
              | inl full ↦ rw full p
              | inr room ↦ rw room (
                  at_phase-IsPresent accepting (s.active_connections + 1) s.room_sequences
                    (λ r. ap (is_in r) free ∙ sym (is_part-outside r conn.room accepting refl)))
            ])
    ]
