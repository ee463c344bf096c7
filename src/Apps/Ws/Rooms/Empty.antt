-- ===== src/Apps/Ws/Rooms/Empty.antt =====
-- No room of target-apps/apps/ws_api.py outlives its members.
use p_loadtesting.Prelude.{
  ℕ, String, ◌≡◌, refl, ap, ◌∙◌, true, false, List, [], ◌∷◌, arith, Every, ==_iff, find, eq_refl,
}
use p_loadtesting.Apps.Ws.{Event, members, idle_server}
use p_loadtesting.Apps.Ws.Bounds.{IsRoom}
use p_loadtesting.Apps.Ws.Handlers.{after}
use p_loadtesting.Apps.Ws.Limits.{server-IsBounded}
use p_loadtesting.Apps.Ws.Rooms.{has, is_in}
use p_loadtesting.Apps.Ws.Rooms.Steps.{server-IsPresent}

has-first : (c : ℕ) (peers : List ℕ) → has c (c ∷ peers) ≡ true
has-first c peers = ground (arith, (==_iff c c).1 refl)

no_rooms :
    (rooms : List (String × List ℕ))
    → Every IsRoom rooms
    → ((room : String) (c : ℕ) → has c (members room rooms) ≡ false)
    → rooms ≡ []
no_rooms [] h out = refl
no_rooms ((room, []) ∷ rooms) ((h, _), _) out = absurd (omega arith)
no_rooms ((room, c ∷ peers) ∷ rooms) h out =
    cc (has-first c peers, ap (has c) (first room (c ∷ peers) rooms), out room c)
  where
    first :
        (own : String) (ps : List ℕ) (rest : List (String × List ℕ))
        → members own ((own, ps) ∷ rest) ≡ ps
    first own ps rest = rw (members, eq_refl own) refl

module _ {Num : Type 0} (of_int : ℕ → Num) where
  -- After any events after which no handler runs, no room is kept.
  pub server-rooms_empty :
      (es : List (Event Num))
      → (after of_int es idle_server).running ≡ []
      → (after of_int es idle_server).rooms ≡ []
  server-rooms_empty es none_run =
      no_rooms (after of_int es idle_server).rooms (server-IsBounded of_int es).rooms_hi (λ room c.
        (server-IsPresent of_int es).present room c
        ∙ ap (λ running. is_in room (find c running)) none_run)
