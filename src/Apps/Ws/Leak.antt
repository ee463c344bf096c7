-- ===== src/Apps/Ws/Leak.antt =====
-- Connections of target-apps/apps/ws_api.py whose `accept` raised an exception.
use p_loadtesting.Prelude.{ℕ, ◌≤◌, ◌≡◌, refl, ap, ◌∙◌, List, [], ◌∷◌, le→leb}
use p_loadtesting.Apps.Ws.{
  Server, Event, connect, proceed, receive, timeout, fail, try_connect, Connection, close,
}
use p_loadtesting.Apps.Ws.Handlers.{step, after}

module _ {Num : Type 0} (of_int : ℕ → Num) (s : Server Num) (none_run : s.running ≡ [])
    (full : 20 ≤ s.active_connections) where
  step-full : (e : Event Num) → (step of_int e s).0 ≡ s
  unfolding step try_connect
  step-full (connect c conn) = rw (none_run, le→leb 20 s.active_connections full) refl
  step-full (proceed c) = rw none_run refl
  step-full (receive c message) = rw none_run refl
  step-full (timeout c) = rw none_run refl
  step-full (fail c) = rw none_run refl

  after-unchanged : (es : List (Event Num)) → after of_int es s ≡ s
  unfolding after
  after-unchanged [] = refl
  after-unchanged (e ∷ es) = ap (after of_int es) (step-full e) ∙ after-unchanged es

  -- Once 20 connections are counted of which no handler runs, nothing changes the server any more,
  -- and every client is refused.
  pub after-full :
      (es : List (Event Num)) (c : ℕ) (conn : Connection Num)
      → (after of_int es s ≡ s)
        × ((step of_int (connect c conn) (after of_int es s)).1 ≡ (c, close 1013) ∷ [])
  unfolding step try_connect
  after-full es c conn = (
    after-unchanged es,
    rw (after-unchanged es, none_run, le→leb 20 s.active_connections full) refl,
  )
