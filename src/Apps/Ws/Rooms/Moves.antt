-- ===== src/Apps/Ws/Rooms/Moves.antt =====
-- What a handler of target-apps/apps/ws_api.py does to the members of its room.
use p_loadtesting.Prelude.{
  ℕ, String, ◌≡◌, refl, true, false, ◌&&◌, ap, ◌∙◌, eq_iff, str_eq, Option, none, some, List, ◌∷◌,
  insert, find, drop, arith, Bool-cases, inl, inr, if◌then◌else◌,
}
use p_loadtesting.Apps.Ws.{
  Phase, joining, waiting, releasing, Connection, Server, members, discard, at_phase, finally_phase,
}
use p_loadtesting.Apps.Ws.Rooms.{
  has-discard, members-insert, is_part, is_part-outside, is_part-same, is_in, takes_part, IsPresent,
  moved-IsPresent, at_phase-IsPresent, dropped-IsPresent,
}

module _ {Num : Type 0} where
  module _ (c : ℕ) (conn : Connection Num) (s : Server Num) (p : IsPresent s)
      (held : find c s.running ≡ some conn) where
    -- A handler goes on without joining or leaving a room.
    pub stays-IsPresent :
        (phase : Phase Num) (sequences : List (String × ℕ))
        → takes_part conn.phase ≡ takes_part phase
        → IsPresent (record (at_phase c conn phase s) { room_sequences = sequences })
    stays-IsPresent phase sequences same =
        at_phase-IsPresent c conn s p phase s.active_connections sequences
          (λ r. ap (is_in r) held ∙ is_part-same r conn.room conn.phase phase same)

    pub gone-IsPresent :
        (active : ℕ)
        → takes_part conn.phase ≡ false
        → IsPresent (record s { active_connections = active; running = drop c s.running })
    gone-IsPresent active out =
        dropped-IsPresent c conn s p active
          (λ r. ap (is_in r) held ∙ is_part-outside r conn.room conn.phase out)

    pub finally-IsPresent :
        takes_part conn.phase ≡ true → IsPresent (at_phase c conn (finally_phase conn.room) s)
    finally-IsPresent inside =
        at_phase-IsPresent c conn s p (finally_phase conn.room) s.active_connections
          s.room_sequences (λ r. ap (is_in r) held ∙ ends r conn.room)
      where
        ends :
            (room : String) (own : Option String)
            → is_part room own conn.phase ≡ is_part {Num = Num} room own (finally_phase own)
        ends room none = refl
        ends room (some own) = ap (λ b. str_eq own room && b) inside

    pub joined-IsPresent :
        (own : String)
        → conn.room ≡ some own
        → conn.phase ≡ joining
        → IsPresent (record (at_phase c conn (waiting 0) s) {
          rooms = insert own (c ∷ discard c (members own s.rooms)) s.rooms;
        })
    joined-IsPresent own mine phase =
        moved-IsPresent c conn s p (waiting 0) s.active_connections
          (insert own (c ∷ discard c (members own s.rooms)) s.rooms) s.room_sequences
          (λ room.
            rw (mine, members-insert room own (c ∷ discard c (members own s.rooms)) s.rooms)
              (elim (Bool-cases (str_eq own room)) [
                | inl e ↦ rw e (ground arith)
                | inr e ↦ rw e (
                    p.present room c
                    ∙ ap (is_in room) held
                    ∙ is_part-outside room conn.room conn.phase (rw phase refl))
              ]))
          (λ room d other.
            rw (members-insert room own (c ∷ discard c (members own s.rooms)) s.rooms)
              (elim (Bool-cases (str_eq own room)) [
                | inl e ↦
                    rw (e, ← (eq_iff own room).0 e)
                      (ground (arith, has-discard d c (members own s.rooms)))
                | inr e ↦ rw e refl
              ]))

    pub emptied-IsPresent :
        (own : String) (rooms : List (String × List ℕ)) (sequences : List (String × ℕ))
        → conn.room ≡ some own
        → ((room : String)
            → members room rooms
              ≡ (if str_eq own room then discard c (members own s.rooms) else members room s.rooms))
        → IsPresent
            (record (at_phase c conn releasing s) { rooms = rooms; room_sequences = sequences })
    emptied-IsPresent own rooms sequences mine now =
        moved-IsPresent c conn s p releasing s.active_connections rooms sequences
          (λ room.
            rw (mine, now room)
              (elim (Bool-cases (str_eq own room)) [
                | inl e ↦ rw e (ground (arith, has-discard c c (members own s.rooms)))
                | inr e ↦ rw e (p.present room c ∙ ap (is_in room) held ∙ rw mine (ground arith))
              ]))
          (λ room d other. rw (now room) (elim (Bool-cases (str_eq own room)) [
            | inl e ↦
                rw (e, ← (eq_iff own room).0 e)
                  (ground (arith, has-discard d c (members own s.rooms)))
            | inr e ↦ rw e refl
          ]))
