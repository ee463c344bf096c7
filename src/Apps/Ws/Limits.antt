-- ===== src/Apps/Ws/Limits.antt =====
-- target-apps/apps/ws_api.py on any sequence of events.
use p_loadtesting.Prelude.{
  ℕ, ◌+◌, subst, none, some, List, [], ◌∷◌, leb, find, arith, put-Each, find-Each, length-put_new,
  Option-cases, Bool-cases, inl, inr,
}
use p_loadtesting.Apps.Ws.{
  accepting, Connection, Server, Event, connect, proceed, receive, timeout, fail, try_connect,
  idle_server,
}
use p_loadtesting.Apps.Ws.Handlers.{step, after, on_running}
use p_loadtesting.Apps.Ws.Bounds.{IsSeen, IsBounded}
use p_loadtesting.Apps.Ws.Bounds.Steps.{
  +-zero, lost_in, go_on-IsBounded, message_arrives-IsBounded, times_out-IsBounded,
  raises-IsBounded,
}

module _ {Num : Type 0} where
  -- Whether an event is an exception of `accept`.
  abbrev pub lost_by : Event Num → Server Num → ℕ
  lost_by (fail c) s = elim (find c s.running) [ none ↦ 0 | some conn ↦ lost_in conn.phase ]
  lost_by _ s = 0

module _ {Num : Type 0} (of_int : ℕ → Num) where
  -- How often `accept` raised an exception.
  unfoldable pub failed_accepts : List (Event Num) → Server Num → ℕ
  failed_accepts [] s = 0
  failed_accepts (e ∷ es) s = lost_by e s + failed_accepts es (step of_int e s).0

module _ {Num : Type 0} {lost : ℕ} (of_int : ℕ → Num) where
  try_connect-IsBounded :
      (c : ℕ) (conn : Connection Num) (s : Server Num)
      → IsBounded lost s
      → IsBounded lost (try_connect c conn s).0
  unfolding try_connect
  try_connect-IsBounded c conn s b = elim (Option-cases (find c s.running)) [
    | inr (other, e) ↦ rw (try_connect, e) b
    | inl free ↦
        rw (try_connect, free)
          (elim (Bool-cases (leb 20 s.active_connections)) [
            | inl full ↦ rw full b
            | inr room ↦
                let longer = length-put_new c (record conn { phase = accepting }) s.running free in
                let same = b.accounted in
                rw room (record {
                  active_hi = ground arith;
                  accounted = omega arith;
                  rooms_hi = b.rooms_hi;
                  seen_hi =
                      put-Each (λ k. IsSeen k.phase) c (record conn { phase = accepting }) s.running
                        b.seen_hi tt;
                })
          ])
  ]

  pub step-IsBounded :
      (e : Event Num) (s : Server Num)
      → IsBounded lost s
      → IsBounded (lost + lost_by e s) (step of_int e s).0
  unfolding step
  step-IsBounded (connect c conn) s b = rw (+-zero lost) (try_connect-IsBounded c conn s b)
  step-IsBounded (proceed c) s b = rw (+-zero lost) (elim (Option-cases (find c s.running)) [
    | inl gone ↦ rw (on_running, gone) b
    | inr (conn, e) ↦
        rw (on_running, e)
          (go_on-IsBounded c conn conn s e of_int conn.phase
            (find-Each (λ k. IsSeen k.phase) c conn s.running b.seen_hi e) b)
  ])
  step-IsBounded (receive c message) s b =
      rw (+-zero lost) (elim (Option-cases (find c s.running)) [
        | inl gone ↦ rw (on_running, gone) b
        | inr (conn, e) ↦
            rw (on_running, e)
              (message_arrives-IsBounded c conn conn s e of_int conn.phase message
                (find-Each (λ k. IsSeen k.phase) c conn s.running b.seen_hi e) b)
      ])
  step-IsBounded (timeout c) s b = rw (+-zero lost) (elim (Option-cases (find c s.running)) [
    | inl gone ↦ rw (on_running, gone) b
    | inr (conn, e) ↦ rw (on_running, e) (times_out-IsBounded c conn conn s e conn.phase b)
  ])
  step-IsBounded (fail c) s b = elim (Option-cases (find c s.running)) [
    | inl gone ↦ rw (lost_by, on_running, gone, +-zero lost) b
    | inr (conn, e) ↦ rw (lost_by, on_running, e) (raises-IsBounded c conn conn s e conn.phase b)
  ]

module _ {Num : Type 0} (of_int : ℕ → Num) where
  pub after-IsBounded :
      (es : List (Event Num)) (lost : ℕ) (s : Server Num)
      → IsBounded lost s
      → IsBounded (lost + failed_accepts of_int es s) (after of_int es s)
  unfolding after failed_accepts
  after-IsBounded [] lost s b = rw (+-zero lost) b
  after-IsBounded (e ∷ es) lost s b =
      subst (λ n. IsBounded n (after of_int es (step of_int e s).0)) (omega arith)
        (after-IsBounded es (lost + lost_by e s) (step of_int e s).0 (step-IsBounded of_int e s b))

  pub idle-IsBounded : IsBounded {Num = Num} 0 idle_server
  idle-IsBounded = record {
    active_hi = omega arith;
    accounted = omega arith;
    rooms_hi = tt;
    seen_hi = tt;
  }

  -- After any events, at most 20 connections are active, and they are those of the handlers that run
  -- and one for each exception of `accept`; a room that is kept has one to five members; a handler
  -- waits for a message with fewer than 10 seen, and one that sends has seen at most 10 and still
  -- sends to at most five.
  pub server-IsBounded :
      (es : List (Event Num))
      → IsBounded (failed_accepts of_int es idle_server) (after of_int es idle_server)
  server-IsBounded es =
      subst (λ n. IsBounded n (after of_int es idle_server)) (omega arith)
        (after-IsBounded es 0 idle_server idle-IsBounded)
