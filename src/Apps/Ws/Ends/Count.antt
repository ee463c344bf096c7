-- ===== src/Apps/Ws/Ends/Count.antt =====
-- How many changes of target-apps/apps/ws_api.py its connections can cause.
use p_loadtesting.Prelude.{
  ℕ, suc, ◌+◌, ◌≤◌, ◌≡◌, refl, sum, ◌≢◌, ◌*◌, ◌⊎◌, none, List, [], ◌∷◌, length, leb, find, put,
  arith, find-Each, Option-cases, Bool-cases, inl, inr,
}
use p_loadtesting.Apps.Ws.{
  accepting, Connection, Server, Event, connect, proceed, receive, timeout, fail, try_connect,
  idle_server,
}
use p_loadtesting.Apps.Ws.Handlers.{step, on_running}
use p_loadtesting.Apps.Ws.Bounds.{IsSeen, IsBounded}
use p_loadtesting.Apps.Ws.Limits.{step-IsBounded, lost_by, idle-IsBounded}
use p_loadtesting.Apps.Ws.Ends.{
  all_left, steps_left, Advances, go_on-Advances, message_arrives-Advances, times_out-Advances,
  raises-Advances,
}

module _ {Num : Type 0} where
  abbrev is_connect : Event Num → ℕ
  is_connect (connect c conn) = 1
  is_connect _ = 0

  abbrev pub connects : List (Event Num) → ℕ
  connects [] = 0
  connects (e ∷ es) = is_connect e + connects es

  sum-put_new :
      (c : ℕ) (conn : Connection Num) (running : List (ℕ × Connection Num))
      → find c running ≡ none
      → sum (λ k. steps_left k.phase) (put c conn running)
        ≡ steps_left conn.phase + sum (λ k. steps_left k.phase) running
  sum-put_new c conn [] e = omega arith
  sum-put_new c conn (other ∷ running) e = ground (arith, sum-put_new c conn running)

  -- One event adds at most the steps of the handler that it starts.
  abbrev IsStep : Event Num → Server Num → Server Num → Type 0
  IsStep e s later = (later ≡ s) ⊎ (suc (all_left later) ≤ all_left s + is_connect e * 85)

  Advances-IsStep : (e : Event Num) (s later : Server Num) → Advances s later → IsStep e s later
  Advances-IsStep e s later (inl same) = inl same
  Advances-IsStep e s later (inr less) = inr (omega arith)

  connect-IsStep :
      (c : ℕ) (conn : Connection Num) (s : Server Num)
      → IsStep (connect c conn) s (try_connect c conn s).0
  unfolding try_connect
  connect-IsStep c conn s = elim (Option-cases (find c s.running)) [
    | inr (other, e) ↦ rw (try_connect, e) (inl refl)
    | inl free ↦
        rw (try_connect, free)
          (elim (Bool-cases (leb 20 s.active_connections)) [
            | inl full ↦ rw full (inl refl)
            | inr room ↦
                let more = sum-put_new c (record conn { phase = accepting }) s.running free in
                rw room (inr (omega arith))
          ])
  ]

module _ {Num : Type 0} {lost : ℕ} (of_int : ℕ → Num) where
  step-IsStep : (e : Event Num) (s : Server Num) → IsBounded lost s → IsStep e s (step of_int e s).0
  unfolding step
  step-IsStep (connect c conn) s b = connect-IsStep c conn s
  step-IsStep (proceed c) s b =
      Advances-IsStep (proceed c) s _ (elim (Option-cases (find c s.running)) [
        | inl gone ↦ rw (on_running, gone) (inl refl)
        | inr (conn, e) ↦ rw (on_running, e) (go_on-Advances c conn s e of_int conn.phase refl)
      ])
  step-IsStep (receive c message) s b =
      Advances-IsStep (receive c message) s _ (elim (Option-cases (find c s.running)) [
        | inl gone ↦ rw (on_running, gone) (inl refl)
        | inr (conn, e) ↦
            rw (on_running, e)
              (message_arrives-Advances c conn s e of_int conn.phase message lost b
                (find-Each (λ k. IsSeen k.phase) c conn s.running b.seen_hi e) refl)
      ])
  step-IsStep (timeout c) s b =
      Advances-IsStep (timeout c) s _ (elim (Option-cases (find c s.running)) [
        | inl gone ↦ rw (on_running, gone) (inl refl)
        | inr (conn, e) ↦
            rw (on_running, e)
              (times_out-Advances c conn s e conn.phase refl
                (find-Each (λ k. IsSeen k.phase) c conn s.running b.seen_hi e))
      ])
  step-IsStep (fail c) s b = Advances-IsStep (fail c) s _ (elim (Option-cases (find c s.running)) [
    | inl gone ↦ rw (on_running, gone) (inl refl)
    | inr (conn, e) ↦
        rw (on_running, e)
          (raises-Advances c conn s e conn.phase refl
            (find-Each (λ k. IsSeen k.phase) c conn s.running b.seen_hi e))
  ])

module _ {Num : Type 0} (of_int : ℕ → Num) where
  -- Each of the events changes the server.
  unfoldable pub IsBusy : List (Event Num) → Server Num → Type 0
  IsBusy [] s = Unit
  IsBusy (e ∷ es) s = ((step of_int e s).0 ≢ s) × IsBusy es (step of_int e s).0

  length-busy :
      (es : List (Event Num)) (lost : ℕ) (s : Server Num)
      → IsBounded lost s
      → IsBusy es s
      → length es ≤ all_left s + connects es * 85
  unfolding IsBusy
  length-busy [] lost s b busy = omega arith
  length-busy (e ∷ es) lost s b (changes, busy) = elim (step-IsStep of_int e s b) [
    | inl same ↦ elim (changes same) [ ]
    | inr less ↦
        let rest =
          length-busy es (lost + lost_by e s) (step of_int e s).0 (step-IsBounded of_int e s b)
            busy in
        omega arith
  ]

  -- Events from the start of the server that all change it are at most 85 times as many as the
  -- connections among them.
  pub length-IsBusy : (es : List (Event Num)) → IsBusy es idle_server → length es ≤ connects es * 85
  length-IsBusy es busy = omega (arith, length-busy es 0 idle_server (idle-IsBounded of_int) busy)
